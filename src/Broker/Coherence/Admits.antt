-- ===== src/Broker/Coherence/Admits.antt =====
-- The composition over llama-server, a round of `admit`: a task that is told that its prefix is ready
-- starts on a slot that holds it.
use aivyx_broker.Prelude.{
  Bool, false, ℕ, ◌+◌, ◌≡◌, refl, ap, sym, ◌∙◌, subst, inl, inr, true, Bool-cases, Option, none,
  some, List, [], String, arith, u64, get_elem?, modify, get_elem?-modify, update, update_self,
  update_ne, ℕ-cases, ==_refl,
}
use aivyx_broker.Scheduler.{SlotState, SlotHint, Admission, claimed, claim, ready_for}
use aivyx_broker.Scheduler.Choice.{Grants}
use aivyx_broker.Scheduler.Prefix.{Holds, ready-Holds}
use aivyx_broker.Scheduler.Slots.{slots-enqueue, admit_locked_cases}
use aivyx_broker.Scheduler.System.{Stage, locking, waiting, holding, System, attempt, settle}
use aivyx_broker.Scheduler.System.Holding
use aivyx_broker.Server.Upstream.{Action}
use aivyx_broker.Broker.Jobs.{Told}
use aivyx_broker.Broker.{World, Broker, hint, job_of, started, admit}
use aivyx_broker.Broker.Invariant.{NotHolding, modify-SameResidency}
use aivyx_broker.Broker.Coherence.{LlamaServer, Slots, outside, forwarded, model_id}
use aivyx_broker.Broker.Coherence.Jobs.{Known, Ready, hinted}
use aivyx_broker.Broker.Coherence.Tails.{Promised, forward-Coheres}
use aivyx_broker.Broker.Coherence.Acts.{Coheres-at}
use aivyx_broker.Broker.Coherence.Invariant.{
  Knows, Recorded, Known-Coheres, Coherent, frame-Coherent, moves-Coherent,
}

module _ (w : World) (l : LlamaServer w) where
  claims-Coherent :
      {slots : List SlotState} {t : Slots w l} {stage : ℕ → Stage} {job : ℕ → List (Action w.json)}
      → Coherent w l slots t stage job
      → (i : ℕ) (a : Admission) (rest : List (Action w.json)) → NotHolding (stage i)
      → ((s : SlotState)
          → get_elem? slots a.slot_id ≡ some s
          → Known-Coheres w l i t a.slot_id s.resident_prefix s.resident_model rest)
      → Coherent w l slots t (update stage i (holding a)) (update job i rest)
  claims-Coherent {slots} {t} {stage} {job} co i a rest was new = record {
    tasks = λ j c s h e. elim (ℕ-cases i j) [
      | inl here ↦
          let is : a ≡ c =
            cc (ap (update stage i (holding a)) here ∙ h, update_self stage i (holding a)) in
          subst
            (λ x.
              Known-Coheres w l x t c.slot_id s.resident_prefix s.resident_model
                (update job i rest x))
            here
            (rw (update_self job i rest) (
              subst (λ x. Known-Coheres w l i t x s.resident_prefix s.resident_model rest)
                (ap (λ x. x.slot_id) is) (new s (ap (λ x. get_elem? slots x.slot_id) is ∙ e))))
      | inr other ↦
          rw (update_ne job i j rest other)
            (co.tasks j c s (sym (update_ne stage i j (holding a) other) ∙ h) e)
    ];
    idle = λ k s e free. co.idle k s e λ j c h. elim (ℕ-cases i j) [
      | inl here ↦ absurd (was c (ap stage here ∙ h))
      | inr other ↦ free j c (update_ne stage i j (holding a) other ∙ h)
    ];
  }

  -- What a new task knows of a slot whose record is right.
  of_right_record :
      (asked : Option SlotHint) (t : Slots w l) (k : ℕ) (s : SlotState)
      → Holds asked s
      → t.spoiled k ≡ false
      → Recorded w l t k s
      → (known : Known) × Knows w l t k known
        × Ready asked known
        × Told asked s.resident_prefix s.resident_model
  of_right_record none t k s holds sound right = absurd holds
  of_right_record (some h) t k s (prefix, model) sound right = (
    some (hinted h),
    subst (λ x. l.Holds t.state k h.prefix_hash (model_id x)) model
        (right sound h.prefix_hash prefix),
    refl,
    (prefix, model),
  )

  module _ (b : Broker w) (i : ℕ) (t : Slots w l) where
    abbrev was : System
    was = b.scheduler

    job-Coheres :
        (a : Admission) (spoiled : Bool) (known : Known) (prefix model : Option String)
        → (a.cache_ready ≡ true → Promised (hint w i) spoiled known prefix model)
        → Coheres-at w l i a.slot_id spoiled known prefix model (job_of w i a)
    unfolding job_of
    job-Coheres a spoiled known prefix model ready =
        forward-Coheres w.json (outside w i) w.llama_server_url (forwarded w i) (w.request i).client
          (hint w i) a spoiled known prefix model ready

    started-Coheres :
        (a : Admission) (s : SlotState)
        → a.cache_ready ≡ ready_for (hint w i) s
        → Recorded w l t a.slot_id s
        → Known-Coheres w l i t a.slot_id s.resident_prefix s.resident_model (job_of w i a)
    started-Coheres a s ready right = elim (Bool-cases a.cache_ready) [
      | inr n ↦ unknown (λ r. absurd (cc (r, n)))
      | inl r ↦ elim (Bool-cases (t.spoiled a.slot_id)) [
        | inl bad ↦ unknown (λ _. inl bad)
        | inr sound ↦
            let (known, knows, is, told) =
              of_right_record (hint w i) t a.slot_id s
                ((ready-Holds (hint w i) s).0 (sym ready ∙ r)) sound right in
            (
              known,
              knows,
              job-Coheres a (t.spoiled a.slot_id) known s.resident_prefix s.resident_model
                  (λ _. inr (is, told)),
            )
      ]
    ]
      where
        unknown :
            (a.cache_ready ≡ true
              → Promised (hint w i) (t.spoiled a.slot_id) none s.resident_prefix s.resident_model)
            → Known-Coheres w l i t a.slot_id s.resident_prefix s.resident_model (job_of w i a)
        unknown promised = (
          none,
          tt,
          job-Coheres a (t.spoiled a.slot_id) none s.resident_prefix s.resident_model promised,
        )

    settled :
        (x : System) (p : Stage)
        → x.stage ≡ update was.stage i p
        → Coherent w l x.inner.slots t (update was.stage i p) (update b.job i (started w i p))
        → Coherent w l x.inner.slots t x.stage (update b.job i (started w i (x.stage i)))
    settled x p e co =
        let is : x.stage i ≡ p = ap (λ f. f i) e ∙ update_self was.stage i p in
        subst (λ q. Coherent w l x.inner.slots t x.stage (update b.job i (started w i q))) (sym is)
          (subst (λ f. Coherent w l x.inner.slots t f (update b.job i (started w i p))) (sym e) co)

    pub admit-Coherent :
        was.stage i ≡ locking
        → Holding.Inv was.inner.slots was.stage
        → Coherent w l was.inner.slots t was.stage b.job
        → let c = admit w b i in Coherent w l c.scheduler.inner.slots t c.scheduler.stage c.job
    unfolding admit attempt claim
    admit-Coherent at held co =
        elim (admit_locked_cases was.inner (hint w i) was.next_channel held.fits) [
          | inl (e, _) ↦
              let slots : was.inner.slots ≡ (attempt (hint w) was i).inner.slots = sym (
                ap (λ r. (settle was i r.0 r.1).inner.slots) e
                ∙ slots-enqueue was.inner (hint w i) was.next_channel) in
              settled (attempt (hint w) was i) (waiting was.next_channel)
                (ap (λ r. (settle was i r.0 r.1).stage) e)
                (subst
                  (λ x.
                    Coherent w l x t (update was.stage i (waiting was.next_channel))
                      (update b.job i []))
                  slots
                  (moves-Coherent w l co i (waiting was.next_channel) (update b.job i [])
                    (λ a s h f. absurd (unheld a h)) (λ a h. cc)
                    (λ j other. update_ne b.job i j [] other)))
          | inr (a, s, g) ↦
              let clock = u64 (was.inner.clock + 1) in
              let slots : modify was.inner.slots a.slot_id (claimed clock)
                  ≡ (attempt (hint w) was i).inner.slots =
                sym (ap (λ r. (settle was i r.0 r.1).inner.slots) g.result) in
              settled (attempt (hint w) was i) (holding a)
                (ap (λ r. (settle was i r.0 r.1).stage) g.result)
                (subst
                  (λ x.
                    Coherent w l x t (update was.stage i (holding a))
                      (update b.job i (job_of w i a)))
                  slots
                  (claims-Coherent
                    (frame-Coherent w l co (modify was.inner.slots a.slot_id (claimed clock)) (
                      modify-SameResidency was.inner.slots a.slot_id (claimed clock)
                        (λ u. (refl, refl))))
                    i a (job_of w i a) unheld (granted a s clock g)))
        ]
      where
        unheld : NotHolding (was.stage i)
        unheld a h = cc (at, h)

        granted :
            {r : _} (a : Admission) (s : SlotState) (clock : ℕ)
            → Grants was.inner (hint w i) r a s
            → (u : SlotState)
            → get_elem? (modify was.inner.slots a.slot_id (claimed clock)) a.slot_id ≡ some u
            → Known-Coheres w l i t a.slot_id u.resident_prefix u.resident_model (job_of w i a)
        granted a s clock g u e =
            let is : claimed clock s ≡ u = ground (
              arith,
              e,
              g.found,
              ==_refl a.slot_id,
              get_elem?-modify was.inner.slots a.slot_id a.slot_id (claimed clock),
            ) in
            subst
              (λ x.
                Known-Coheres w l i t a.slot_id x.resident_prefix x.resident_model (job_of w i a))
              is
              (started-Coheres a s g.ready (
                co.idle a.slot_id s g.found
                  (λ j c h q. ground (arith, g.found, g.idle, held.owned j c h, q))))
