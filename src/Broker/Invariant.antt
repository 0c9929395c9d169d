-- ===== src/Broker/Invariant.antt =====
-- The composition: each task in flight owes the scheduler the release of the slot that it holds, and
-- the table is right whenever a task sends its request.
pub mod Admits
pub mod Acts
use aivyx_broker.Prelude.{
  ℕ, ◌≡◌, refl, ap, sym, subst, ◌∙◌, ◌≢◌, inl, inr, ◌⊎◌, Option, some, List, [], ◌∷◌, String, arith,
  get_elem?, modify, get_elem?-modify, update, update_self, update_ne, ℕ-cases, Option-cases,
}
use aivyx_broker.Json.{Json}
use aivyx_broker.Scheduler
use aivyx_broker.Scheduler.{SlotState, SlotHint, Admission}
use aivyx_broker.Scheduler.System.{Stage, locking, waiting, holding, timed_out, gone, System}
use aivyx_broker.Scheduler.System.Holding
use aivyx_broker.Server.Upstream.{Action}
use aivyx_broker.Broker.Jobs.{Aloof, Owes, Truthful}
use aivyx_broker.Broker.{World, hint}

abbrev pub NotHolding : Stage → Type 0
NotHolding p = (a : Admission) → p ≢ holding a

pub Stage-cases : (p : Stage) → ((a : Admission) × (p ≡ holding a)) ⊎ NotHolding p
Stage-cases locking = inr (λ a e. cc)
Stage-cases (waiting c) = inr (λ a e. cc)
Stage-cases (holding a) = inl (a, refl)
Stage-cases timed_out = inr (λ a e. cc)
Stage-cases gone = inr (λ a e. cc)

-- The second table records the same residency as the first, slot by slot.
abbrev pub SameResidency : List SlotState → List SlotState → Type 0
SameResidency slots slots' =
    (k : ℕ) (t : SlotState)
    → get_elem? slots' k ≡ some t
    → (s : SlotState) × (get_elem? slots k ≡ some s)
      × (s.resident_prefix ≡ t.resident_prefix)
      × (s.resident_model ≡ t.resident_model)

pub modify-SameResidency :
    (slots : List SlotState) (k : ℕ) (f : SlotState → SlotState)
    → ((t : SlotState)
        → ((f t).resident_prefix ≡ t.resident_prefix) × ((f t).resident_model ≡ t.resident_model))
    → SameResidency slots (modify slots k f)
modify-SameResidency slots k f same j t e = elim (Option-cases (get_elem? slots j)) [
  | inl n ↦ absurd (ground (arith, n, e, get_elem?-modify slots k j f))
  | inr (s, q) ↦ elim (ℕ-cases k j) [
    | inl here ↦
        let is : f s ≡ t = ground (arith, q, e, here, get_elem?-modify slots k j f) in
        (
          s,
          q,
          sym (same s).0 ∙ ap (λ x. x.resident_prefix) is,
          sym (same s).1 ∙ ap (λ x. x.resident_model) is,
        )
    | inr other ↦
        let is : s ≡ t = ground (arith, q, e, other, get_elem?-modify slots k j f) in
        (s, q, ap (λ x. x.resident_prefix) is, ap (λ x. x.resident_model) is)
  ]
]

-- What holds of a request: if it holds a slot, its task owes the release of it and finds the table
-- right; if not, its task leaves the scheduler alone.
pub record Task (J : Json) (slots : List SlotState) (hint : Option SlotHint) (stage : Stage)
    (job : List (Action J)) : Type 0 where
  pub owes : (a : Admission) → stage ≡ holding a → Owes J a.slot_id job
  pub aloof : NotHolding stage → Aloof J job
  pub truthful :
      (a : Admission) (s : SlotState)
      → stage ≡ holding a
      → get_elem? slots a.slot_id ≡ some s
      → Truthful J hint s.resident_prefix s.resident_model job

module _ {J : Json} {slots : List SlotState} {hint : Option SlotHint} where
  pub frame-Task :
      {stage : Stage} {job : List (Action J)} (slots' : List SlotState)
      → SameResidency slots slots'
      → Task J slots hint stage job
      → Task J slots' hint stage job
  frame-Task {job = job} slots' same task = record {
    owes = task.owes;
    aloof = task.aloof;
    truthful = λ a t h e.
        let (s, q, p, m) = same a.slot_id t e in
        subst (λ x. Truthful J hint x t.resident_model job) p
          (subst (λ x. Truthful J hint s.resident_prefix x job) m (task.truthful a s h q));
  }

  -- A request that holds nothing moves on without a slot.
  pub moves-Task :
      {stage : Stage} {job : List (Action J)} (p : Stage)
      → NotHolding stage
      → NotHolding p
      → Task J slots hint stage job
      → Task J slots hint p job
  moves-Task p was now task = record {
    owes = λ a h. absurd (now a h);
    aloof = λ n. task.aloof was;
    truthful = λ a s h e. absurd (now a h);
  }

  pub idle-Task : (p : Stage) → NotHolding p → Task J slots hint p []
  idle-Task p now = record {
    owes = λ a h. absurd (now a h);
    aloof = λ n. tt;
    truthful = λ a s h e. absurd (now a h);
  }

  -- An action that the scheduler does not see.
  unseen-Task :
      {stage : Stage} (action : Action J) (rest : List (Action J))
      → ((k : ℕ) → Owes J k (action ∷ rest) → Owes J k rest)
      → (Aloof J (action ∷ rest) → Aloof J rest)
      → ((p m : Option String) → Truthful J hint p m (action ∷ rest) → Truthful J hint p m rest)
      → Task J slots hint stage (action ∷ rest)
      → Task J slots hint stage rest
  unseen-Task action rest o l t task = record {
    owes = λ a h. o a.slot_id (task.owes a h);
    aloof = λ n. l (task.aloof n);
    truthful = λ a s h e. t s.resident_prefix s.resident_model (task.truthful a s h e);
  }

  -- The table changes at a slot that another request holds.
  apart-Task :
      {stage : Stage} {job : List (Action J)} (k : ℕ) (f : SlotState → SlotState)
      → ((a : Admission) → stage ≡ holding a → k ≢ a.slot_id)
      → Task J slots hint stage job
      → Task J (modify slots k f) hint stage job
  apart-Task k f other task = record {
    owes = task.owes;
    aloof = task.aloof;
    truthful = λ a t h e.
        task.truthful a t h (ground (arith, e, other a h, get_elem?-modify slots k a.slot_id f));
  }

-- The task records at its own slot what the slot holds.
records-Task :
    {J : Json} (slots : List SlotState) {hint : Option SlotHint} (b : Admission)
    (f : SlotState → SlotState) (p m : Option String) (job : List (Action J))
    → ((t : SlotState) → ((f t).resident_prefix ≡ p) × ((f t).resident_model ≡ m))
    → Owes J b.slot_id job
    → Truthful J hint p m job
    → Task J (modify slots b.slot_id f) hint (holding b) job
records-Task {J} slots {hint} b f p m job is owes told = record {
  owes = λ a h. subst (λ k. Owes J k job) (same_slot a h) owes;
  aloof = λ n. absurd (n b refl);
  truthful = λ a t h e. elim (Option-cases (get_elem? slots a.slot_id)) [
    | inl n ↦ absurd (ground (arith, e, n, get_elem?-modify slots b.slot_id a.slot_id f))
    | inr (s, q) ↦
        let at : f s ≡ t =
          ground (arith, e, q, same_slot a h, get_elem?-modify slots b.slot_id a.slot_id f) in
        subst (λ x. Truthful J hint x t.resident_model job)
          (sym (is s).0 ∙ ap (λ x. x.resident_prefix) at)
          (subst (λ x. Truthful J hint p x job) (sym (is s).1 ∙ ap (λ x. x.resident_model) at) told)
  ];
}
  where
    same_slot : (a : Admission) → holding b ≡ holding a → b.slot_id ≡ a.slot_id
    same_slot a h = let same : b ≡ a = cc h in ap (λ x. x.slot_id) same

-- The state of all requests, and an update of one of them.
abbrev pub Inv : (w : World) → List SlotState → (ℕ → Stage) → (ℕ → List (Action w.json)) → Type 0
Inv w slots stage job = (i : ℕ) → Task w.json slots (hint w i) (stage i) (job i)

update-Inv :
    (w : World) {slots : List SlotState} {stage : ℕ → Stage} {job : ℕ → List (Action w.json)}
    (i : ℕ) (p : Stage) (r : List (Action w.json))
    → Task w.json slots (hint w i) p r
    → ((j : ℕ) → i ≢ j → Task w.json slots (hint w j) (stage j) (job j))
    → Inv w slots (update stage i p) (update job i r)
update-Inv w {slots} {stage} {job} i p r new old j = elim (ℕ-cases i j) [
  | inl same ↦
      subst (λ x. Task w.json slots (hint w x) (update stage i p x) (update job i r x)) same
        (rw (update_self stage i p) (rw (update_self job i r) new))
  | inr other ↦ rw (update_ne stage i j p other) (rw (update_ne job i j r other) (old j other))
]
