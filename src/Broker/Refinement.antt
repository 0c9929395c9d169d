-- ===== src/Broker/Refinement.antt =====
-- The composition refines the scheduler's system of src/scheduler.rs.
use aivyx_broker.Prelude.{
  ℕ, Option, ◌^◌, ◌≤◌, ◌≡◌, refl, sym, subst, inl, inr, ◌⊎◌, List, ◌∷◌, modify, update, update_self,
  update_ne, ℕ-cases, arith,
}
use aivyx_broker.Scheduler.{SlotState, SlotHint}
use aivyx_broker.Scheduler.System
use aivyx_broker.Scheduler.Slots.{freed_if_seeded, slots-reconcile_seeded_idle}
use aivyx_broker.Broker.Invariant.Admits.{admit-Inv}
use aivyx_broker.Broker.Invariant.Acts.{act-Inv}
use aivyx_broker.Scheduler.System.{
  Stage, locking, timed_out, gone, reconcile, receivers, holding, finish, locks, finishes, marks,
  clears,
}
use aivyx_broker.Scheduler.System.Holding
use aivyx_broker.Scheduler.System.Holding.{busy_at}
use aivyx_broker.Server.Upstream.{
  Action, restore, warm_up, save, mark_resident, clear_resident, post, send_head, read, send_chunk,
  abandon, close, release,
}
use aivyx_broker.Json.{Json}
use aivyx_broker.Server.Relay.Unwinding.{unwound}
use aivyx_broker.Broker.Unwinding.{unwound-Aloof, unwound-Owes, unwound-Truthful}
use aivyx_broker.Broker.Jobs.{Aloof, Owes}
use aivyx_broker.Broker.{
  World, Broker, hint, admit, act, Step, admits, wakes, expires, hangs_up, acts, reconciles, panics,
  panic, Reach, start, later,
}
use aivyx_broker.Broker.Invariant.{
  Inv, Task, Stage-cases, NotHolding, idle-Task, moves-Task, frame-Task, modify-SameResidency,
}

pub freed_if_seeded_keeps :
    (t : SlotState)
    → ((freed_if_seeded t).resident_prefix ≡ t.resident_prefix)
      × ((freed_if_seeded t).resident_model ≡ t.resident_model)
freed_if_seeded_keeps t = (ground arith, ground arith)

moves-Inv :
    (w : World) {slots : List SlotState} {stage : ℕ → Stage} {job : ℕ → List (Action w.json)}
    → Inv w slots stage job
    → (i : ℕ) (p : Stage) → NotHolding (stage i)
    → NotHolding p
    → Inv w slots (update stage i p) job
moves-Inv w {slots} {stage} {job} inv i p was now j = elim (ℕ-cases i j) [
  | inl same ↦
      subst (λ x. Task w.json slots (hint w x) (update stage i p x) (job x)) same
        (rw (update_self stage i p) (moves-Task p was now (inv i)))
  | inr other ↦ rw (update_ne stage i j p other) (inv j)
]

unwound-Task :
    {J : Json} {slots : List SlotState} {hint : Option SlotHint} {stage : Stage}
    {job : List (Action J)}
    → Task J slots hint stage job
    → Task J slots hint stage (unwound J job)
unwound-Task {J} {slots} {hint} {stage} {job} task = record {
  owes = λ a h. unwound-Owes J a.slot_id job (task.owes a h);
  aloof = λ n. subst (Aloof J) (sym (unwound-Aloof J job (task.aloof n))) (task.aloof n);
  truthful = λ a s h e.
      unwound-Truthful J a.slot_id hint s.resident_prefix s.resident_model job (task.owes a h);
}

module _ (w : World) where
  -- The broker's scheduler does a step of the scheduler's system, or nothing.
  abbrev pub Refines : Broker w → Broker w → Type 0
  Refines b c = (c.scheduler ≡ b.scheduler) ⊎ System.Step (hint w) b.scheduler c.scheduler

  act-Refines :
      (b : Broker w) (i : ℕ) (action : Action w.json) (rest : List (Action w.json))
      → b.job i ≡ action ∷ rest
      → Task w.json b.scheduler.inner.slots (hint w i) (b.scheduler.stage i) (b.job i)
      → Refines b (act w b i action rest)
  unfolding act
  act-Refines b i (release k) rest e task = elim (Stage-cases (b.scheduler.stage i)) [
    | inr idle ↦ absurd (subst (Aloof w.json) e (task.aloof idle))
    | inl (a, h) ↦
        let mine : k ≡ a.slot_id = (subst (Owes w.json a.slot_id) e (task.owes a h)).0 in
        inr (
          subst (λ x. System.Step (hint w) b.scheduler (finish b.scheduler i x)) (sym mine)
            (finishes i a h))
  ]
  act-Refines b i (mark_resident k m p) rest e task = inr (marks k m p)
  act-Refines b i (clear_resident k) rest e task = inr (clears k)
  act-Refines b i (restore k m) rest e task = inl refl
  act-Refines b i (warm_up u v) rest e task = inl refl
  act-Refines b i (save k m d) rest e task = inl refl
  act-Refines b i (post u v) rest e task = inl refl
  act-Refines b i (send_head d) rest e task = inl refl
  act-Refines b i read rest e task = inl refl
  act-Refines b i (send_chunk d) rest e task = inl refl
  act-Refines b i abandon rest e task = inl refl
  act-Refines b i close rest e task = inl refl

  -- Both invariants, along a run.
  pub record Sound (n : ℕ) (processing : List ℕ) (b : Broker w) : Type 0 where
    pub reach : System.Reach (hint w) n processing b.scheduler
    pub tasks : Inv w b.scheduler.inner.slots b.scheduler.stage b.job

  Step-Refines :
      {b c : Broker w}
      → Step w b c
      → Inv w b.scheduler.inner.slots b.scheduler.stage b.job
      → Refines b c
  unfolding admit
  Step-Refines (admits i e) inv = inr (locks i e)
  Step-Refines (wakes i c e s) inv = inr (System.wakes i c e s)
  Step-Refines (expires i c e s) inv = inr (System.expires i c e s)
  Step-Refines (hangs_up i c e) inv = inr (System.hangs_up i c e)
  Step-Refines {b} (acts i action rest e) inv = act-Refines b i action rest e (inv i)
  Step-Refines (reconciles k) inv = inr (System.reconciles k)
  Step-Refines (panics i) inv = inl refl

  Step-Inv :
      {b c : Broker w}
      → Step w b c
      → Holding.Inv b.scheduler.inner.slots b.scheduler.stage
      → Inv w b.scheduler.inner.slots b.scheduler.stage b.job
      → Inv w c.scheduler.inner.slots c.scheduler.stage c.job
  unfolding reconcile
  Step-Inv {b} (admits i e) held inv = admit-Inv w b i held.fits inv
  Step-Inv {b} (wakes i c e s) held inv = moves-Inv w inv i locking (λ a h. cc) (λ a h. cc)
  Step-Inv {b} (expires i c e s) held inv = moves-Inv w inv i timed_out (λ a h. cc) (λ a h. cc)
  Step-Inv {b} (hangs_up i c e) held inv = moves-Inv w inv i gone (λ a h. cc) (λ a h. cc)
  Step-Inv {b} (acts i action rest e) held inv = act-Inv w b i action rest e held inv
  Step-Inv {b} (reconciles k) held inv =
      subst (λ l. Inv w l b.scheduler.stage b.job)
        (sym (slots-reconcile_seeded_idle (receivers b.scheduler) b.scheduler.inner k))
        (λ i.
          frame-Task (modify b.scheduler.inner.slots k freed_if_seeded)
            (modify-SameResidency b.scheduler.inner.slots k freed_if_seeded freed_if_seeded_keeps)
            (inv i))
  Step-Inv {b} (panics i) held inv = λ j. elim (ℕ-cases i j) [
    | inl same ↦
        subst
          (λ x.
            Task w.json b.scheduler.inner.slots (hint w x) (b.scheduler.stage x)
              ((panic w b i).job x))
          same (rw (update_self b.job i (unwound w.json (b.job i))) (unwound-Task (inv i)))
    | inr other ↦ rw (update_ne b.job i j (unwound w.json (b.job i)) other) (inv j)
  ]

  module _ {n : ℕ} {processing : List ℕ} (small : n ≤ 2 ^ 32) where
    pub Reach-Sound : {b : Broker w} → Reach w n processing b → Sound n processing b
    Reach-Sound start = record { reach = System.start; tasks = λ i. idle-Task locking (λ a h. cc) }
    Reach-Sound (later {b} {c} r st) =
        let sound = Reach-Sound r in
        record {
          reach = elim (Step-Refines st sound.tasks) [
            | inl same ↦ subst (System.Reach (hint w) n processing) (sym same) sound.reach
            | inr step ↦ System.later sound.reach step
          ];
          tasks = Step-Inv st (Holding.Reach-Inv small sound.reach) sound.tasks;
        }

    -- A broker with at most 2^32 slots refines the scheduler's system: the scheduler of a reachable
    -- broker is a reachable system, and whatever the broker does next, its scheduler does a step of that system or
    -- nothing. So what holds in every reachable system holds of the broker.
    pub broker-Refines :
        {b c : Broker w}
        → Reach w n processing b
        → Step w b c
        → System.Reach (hint w) n processing b.scheduler × Refines b c
    broker-Refines r st = let sound = Reach-Sound r in (sound.reach, Step-Refines st sound.tasks)
