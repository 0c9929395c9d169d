-- ===== src/Broker/Invariant/Admits.antt =====
-- The composition, a round of `admit`: the new task starts with what it owes.
use aivyx_broker.Prelude.{
  ℕ, ◌+◌, ◌≡◌, ◌≢◌, refl, ap, sym, subst, ◌∙◌, inl, inr, true, Option, none, some, String, arith,
  u64, get_elem?, modify, get_elem?-modify, update, update_self, ==_refl,
}
use aivyx_broker.Scheduler.{SlotState, SlotHint, Admission, claimed, claim, ready_for}
use aivyx_broker.Scheduler.Choice.{Fits}
use aivyx_broker.Scheduler.Prefix.{Holds, ready-Holds}
use aivyx_broker.Scheduler.Slots.{slots-enqueue, admit_locked_cases}
use aivyx_broker.Scheduler.System.{Stage, waiting, holding, System, attempt, settle}
use aivyx_broker.Server.Chat.{unhinted}
use aivyx_broker.Broker.Jobs.{Told, Owes, Truthful}
use aivyx_broker.Broker.Tails.{forward-Owes, forward-Truthful}
use aivyx_broker.Broker.{World, Broker, hint, job_of, started, admit}
use aivyx_broker.Broker.Invariant.{
  Task, Inv, frame-Task, idle-Task, update-Inv, modify-SameResidency,
}

Told-of_Holds :
    (hint : Option SlotHint) (s : SlotState)
    → Holds hint s
    → Told hint s.resident_prefix s.resident_model
Told-of_Holds none s h = absurd h
Told-of_Holds (some h) s holds = holds

module _ (w : World) (b : Broker w) (i : ℕ) where
  abbrev was : System
  was = b.scheduler

  -- The table, the stages and the tasks after `admit`, by what the request's stage became.
  settled :
      (t : System) (p : Stage)
      → t.stage ≡ update was.stage i p
      → Task w.json t.inner.slots (hint w i) p (started w i p)
      → ((j : ℕ) → i ≢ j → Task w.json t.inner.slots (hint w j) (was.stage j) (b.job j))
      → Inv w t.inner.slots t.stage (update b.job i (started w i (t.stage i)))
  settled t p e new old =
      let is : t.stage i ≡ p = ap (λ f. f i) e ∙ update_self was.stage i p in
      subst (λ x. Inv w t.inner.slots t.stage (update b.job i (started w i x))) (sym is)
        (subst (λ f. Inv w t.inner.slots f (update b.job i (started w i p))) (sym e)
          (update-Inv w i p (started w i p) new old))

  job-Owes : (a : Admission) → Owes w.json a.slot_id (job_of w i a)
  unfolding job_of
  job-Owes a =
      forward-Owes w.json (w.request i).outside w.llama_server_url
        (unhinted w.json w.parse_hint (w.request i).body) (w.request i).client (hint w i) a

  job-Truthful :
      (a : Admission) (p m : Option String)
      → (a.cache_ready ≡ true → Told (hint w i) p m)
      → Truthful w.json (hint w i) p m (job_of w i a)
  unfolding job_of
  job-Truthful a p m ready =
      forward-Truthful w.json (w.request i).outside w.llama_server_url
        (unhinted w.json w.parse_hint (w.request i).body) (w.request i).client (hint w i) a p m
        ready

  -- The task of a request that was just admitted onto a slot that holds what `s` says.
  started-Task :
      (a : Admission) (s : SlotState) (clock : ℕ)
      → get_elem? was.inner.slots a.slot_id ≡ some s
      → a.cache_ready ≡ ready_for (hint w i) s
      → Task w.json
          (modify was.inner.slots a.slot_id (claimed clock))
          (hint w i)
          (holding a)
          (job_of w i a)
  started-Task a s clock found ready = record {
    owes = λ c h. subst (λ x. Owes w.json x.slot_id (job_of w i a)) (same c h) (job-Owes a);
    aloof = λ n. absurd (n a refl);
    truthful = λ c t h e.
        let at : claimed clock s ≡ t = ground (
          arith,
          found,
          e,
          ==_refl a.slot_id,
          ap (λ x. x.slot_id) (same c h),
          get_elem?-modify was.inner.slots a.slot_id a.slot_id (claimed clock),
        ) in
        subst (λ x. Truthful w.json (hint w i) x.resident_prefix x.resident_model (job_of w i a)) at
          (job-Truthful a s.resident_prefix s.resident_model
            (λ r. Told-of_Holds (hint w i) s ((ready-Holds (hint w i) s).0 (sym ready ∙ r))));
  }
    where
      same : (c : Admission) → holding a ≡ holding c → a ≡ c
      same c h = cc h

  pub admit-Inv :
      Fits was.inner
      → Inv w was.inner.slots was.stage b.job
      → Inv w (admit w b i).scheduler.inner.slots (admit w b i).scheduler.stage (admit w b i).job
  unfolding admit attempt claim
  admit-Inv fits inv = elim (admit_locked_cases was.inner (hint w i) was.next_channel fits) [
    | inl (e, _) ↦
        let slots : was.inner.slots ≡ (attempt (hint w) was i).inner.slots = sym (
          ap (λ r. (settle was i r.0 r.1).inner.slots) e
          ∙ slots-enqueue was.inner (hint w i) was.next_channel) in
        settled (attempt (hint w) was i) (waiting was.next_channel)
          (ap (λ r. (settle was i r.0 r.1).stage) e)
          (idle-Task (waiting was.next_channel) (λ a h. cc))
          (λ j other. subst (λ l. Task w.json l (hint w j) (was.stage j) (b.job j)) slots (inv j))
    | inr (a, s, g) ↦
        let clock = u64 (was.inner.clock + 1) in
        let slots : modify was.inner.slots a.slot_id (claimed clock)
            ≡ (attempt (hint w) was i).inner.slots =
          sym (ap (λ r. (settle was i r.0 r.1).inner.slots) g.result) in
        settled (attempt (hint w) was i) (holding a)
          (ap (λ r. (settle was i r.0 r.1).stage) g.result)
          (subst (λ l. Task w.json l (hint w i) (holding a) (job_of w i a)) slots
            (started-Task a s clock g.found g.ready))
          (λ j other.
            subst (λ l. Task w.json l (hint w j) (was.stage j) (b.job j)) slots
              (frame-Task (modify was.inner.slots a.slot_id (claimed clock))
                (modify-SameResidency was.inner.slots a.slot_id (claimed clock) (λ t. (refl, refl)))
                (inv j)))
  ]
