-- ===== src/Broker/Progress.antt =====
-- The composition: a task can always be run to its end, and that frees its slot.
use aivyx_broker.Prelude.{
  ℕ, ◌^◌, ◌≤◌, ◌≡◌, refl, ap, sym, subst, ◌∙◌, false, List, [], ◌∷◌, get_elem?-modify, modify,
  update_self, arith, ==_refl,
}
use aivyx_broker.Scheduler.{SlotState, Admission}
use aivyx_broker.Scheduler.Slots.{freed, slots-release}
use aivyx_broker.Scheduler.System.{holding, gone, receivers}
use aivyx_broker.Scheduler.System.Holding.{busy_at}
use aivyx_broker.Server.Upstream.{
  Action, restore, warm_up, save, mark_resident, clear_resident, post, send_head, read, send_chunk,
  abandon, close, release,
}
use aivyx_broker.Broker.Jobs.{Aloof, Owes}
use aivyx_broker.Broker.{World, Broker, act, Reach}
use aivyx_broker.Broker.Refinement.{Reach-Sound}

busy_at-freed : (slots : List SlotState) (k : ℕ) → busy_at (modify slots k freed) k ≡ false
busy_at-freed slots k = ground (arith, ==_refl k, get_elem?-modify slots k k freed)

module _ {w : World} (i : ℕ) where
  -- Task `i` alone performs its next actions.
  pub data Runs : Broker w → Broker w → Type 0 where
    done : {b : Broker w} → Runs b b
    next :
        {b c : Broker w} (action : Action w.json) (rest : List (Action w.json))
        → b.job i ≡ action ∷ rest
        → Runs (act w b i action rest) c
        → Runs b c

  -- The task has ended in `c`, and its slot `k` is free.
  pub record Ended (k : ℕ) (b c : Broker w) : Type 0 where
    pub runs : Runs b c
    pub over : c.job i ≡ []
    pub left : c.scheduler.stage i ≡ gone
    pub free : busy_at c.scheduler.inner.slots k ≡ false

  job_after :
      (b : Broker w) (action : Action w.json) (rest : List (Action w.json))
      → (act w b i action rest).job i ≡ rest
  unfolding act
  job_after b action rest = update_self b.job i rest

  goes_on :
      (k : ℕ) (b : Broker w) (action : Action w.json) (rest : List (Action w.json))
      → b.job i ≡ action ∷ rest
      → (c : Broker w) × Ended k (act w b i action rest) c
      → (c : Broker w) × Ended k b c
  goes_on k b action rest e (c, ended) = (
    c,
    record {
      runs = next action rest e ended.runs;
      over = ended.over;
      left = ended.left;
      free = ended.free;
    },
  )

  closes :
      (k : ℕ) (b : Broker w) (job : List (Action w.json))
      → b.job i ≡ job
      → Aloof w.json job
      → b.scheduler.stage i ≡ gone
      → busy_at b.scheduler.inner.slots k ≡ false
      → (c : Broker w) × Ended k b c
  unfolding act
  closes k b [] e q g f = (b, record { runs = done; over = e; left = g; free = f })
  closes k b (close ∷ job) e q g f =
      goes_on k b close job e (closes k (act w b i close job) job (job_after b close job) q g f)
  closes k b (restore j m ∷ job) e q g f = absurd q
  closes k b (warm_up u v ∷ job) e q g f = absurd q
  closes k b (save j m d ∷ job) e q g f = absurd q
  closes k b (mark_resident j m p ∷ job) e q g f = absurd q
  closes k b (clear_resident j ∷ job) e q g f = absurd q
  closes k b (post u v ∷ job) e q g f = absurd q
  closes k b (send_head d ∷ job) e q g f = absurd q
  closes k b (read ∷ job) e q g f = absurd q
  closes k b (send_chunk d ∷ job) e q g f = absurd q
  closes k b (abandon ∷ job) e q g f = absurd q
  closes k b (release j ∷ job) e q g f = absurd q

  finishes_job :
      (k : ℕ) (b : Broker w) (job : List (Action w.json))
      → b.job i ≡ job
      → Owes w.json k job
      → (c : Broker w) × Ended k b c
  unfolding act
  finishes_job k b [] e o = absurd o
  finishes_job k b (release slot_id ∷ job) e (mine, q) =
      let b' = act w b i (release slot_id) job in
      let slots = slots-release (receivers b.scheduler) b.scheduler.inner slot_id in
      goes_on k b (release slot_id) job e (
        closes k b' job (job_after b (release slot_id) job) q (update_self b.scheduler.stage i gone)
          (ap (λ l. busy_at l k) slots
            ∙ subst (λ x. busy_at (modify b.scheduler.inner.slots x freed) k ≡ false) (sym mine)
                (busy_at-freed b.scheduler.inner.slots k)))
  finishes_job k b (restore k' m ∷ job) e o =
      goes_on k b (restore k' m) job e
        (finishes_job k (act w b i (restore k' m) job) job (job_after b (restore k' m) job) o)
  finishes_job k b (warm_up u v ∷ job) e o =
      goes_on k b (warm_up u v) job e
        (finishes_job k (act w b i (warm_up u v) job) job (job_after b (warm_up u v) job) o)
  finishes_job k b (save k' m d ∷ job) e o =
      goes_on k b (save k' m d) job e
        (finishes_job k (act w b i (save k' m d) job) job (job_after b (save k' m d) job) o)
  finishes_job k b (post u v ∷ job) e o =
      goes_on k b (post u v) job e
        (finishes_job k (act w b i (post u v) job) job (job_after b (post u v) job) o)
  finishes_job k b (send_head d ∷ job) e o =
      goes_on k b (send_head d) job e
        (finishes_job k (act w b i (send_head d) job) job (job_after b (send_head d) job) o)
  finishes_job k b (read ∷ job) e o =
      goes_on k b read job e (finishes_job k (act w b i read job) job (job_after b read job) o)
  finishes_job k b (send_chunk d ∷ job) e o =
      goes_on k b (send_chunk d) job e
        (finishes_job k (act w b i (send_chunk d) job) job (job_after b (send_chunk d) job) o)
  finishes_job k b (abandon ∷ job) e o =
      goes_on k b abandon job e
        (finishes_job k (act w b i abandon job) job (job_after b abandon job) o)
  finishes_job k b (close ∷ job) e o =
      goes_on k b close job e (finishes_job k (act w b i close job) job (job_after b close job) o)
  finishes_job k b (mark_resident j m p ∷ job) e (mine, o) =
      goes_on k b (mark_resident j m p) job e (
        finishes_job k (act w b i (mark_resident j m p) job) job
          (job_after b (mark_resident j m p) job) o)
  finishes_job k b (clear_resident j ∷ job) e (mine, o) =
      goes_on k b (clear_resident j) job e (
        finishes_job k (act w b i (clear_resident j) job) job (job_after b (clear_resident j) job)
          o)

-- From every reachable state of a broker with at most 2^32 slots in which a request holds a slot, its
-- task, whether it has panicked or not, can be run to its end by its own actions alone: then nothing
-- is left of it, and its slot is free.
pub task_ends :
    {w : World} {n : ℕ} {processing : List ℕ}
    → n ≤ 2 ^ 32
    → {b : Broker w} → Reach w n processing b
    → (i : ℕ) (a : Admission) → b.scheduler.stage i ≡ holding a
    → (c : Broker w) × Ended i a.slot_id b c
task_ends {w} small {b} r i a h =
    finishes_job i a.slot_id b (b.job i) refl (((Reach-Sound w small r).tasks i).owes a h)
