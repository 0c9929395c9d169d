-- ===== src/Broker/Invariant/Acts.antt =====
-- The composition, an action of a task: it pays a part of what the task owes, and touches no slot
-- but the task's own.
use aivyx_broker.Prelude.{
  ℕ, ◌≡◌, ◌≢◌, refl, sym, subst, ◌∙◌, inl, inr, Option, none, some, List, ◌∷◌, String, get_elem?,
  modify, update, update_self, update_ne, ℕ-cases, Option-cases, arith,
}
use aivyx_broker.Scheduler.{SlotState, Admission}
use aivyx_broker.Scheduler.Slots.{freed, slots-release}
use aivyx_broker.Scheduler.System.{Stage, holding, gone, receivers}
use aivyx_broker.Scheduler.System.Holding
use aivyx_broker.Server.Upstream.{
  Action, restore, warm_up, save, mark_resident, clear_resident, post, send_head, read, send_chunk,
  abandon, close, release,
}
use aivyx_broker.Broker.Jobs.{Aloof, Owes, Truthful}
use aivyx_broker.Broker.{World, Broker, hint, act}
use aivyx_broker.Broker.Invariant.{
  Task, Inv, Stage-cases, frame-Task, unseen-Task, apart-Task, records-Task, update-Inv,
  modify-SameResidency,
}

module _ (w : World) {slots : List SlotState} {stage : ℕ → Stage} {job : ℕ → List (Action w.json)}
    (inv : Inv w slots stage job) (held : Holding.Inv slots stage) (i : ℕ) (action : Action w.json)
    (rest : List (Action w.json)) (now : job i ≡ action ∷ rest) where
  own : Task w.json slots (hint w i) (stage i) (action ∷ rest)
  own = subst (Task w.json slots (hint w i) (stage i)) now (inv i)

  keep-Inv :
      {slots' : List SlotState}
      → Task w.json slots' (hint w i) (stage i) rest
      → ((j : ℕ) → i ≢ j → Task w.json slots' (hint w j) (stage j) (job j))
      → Inv w slots' stage (update job i rest)
  keep-Inv {slots'} new old j = elim (ℕ-cases i j) [
    | inl same ↦
        subst (λ x. Task w.json slots' (hint w x) (stage x) (update job i rest x)) same
          (rw (update_self job i rest) new)
    | inr other ↦ rw (update_ne job i j rest other) (old j other)
  ]

  -- What the action records of slot `k`.
  records-Inv :
      (k : ℕ) (f : SlotState → SlotState) (p m : Option String)
      → ((t : SlotState) → ((f t).resident_prefix ≡ p) × ((f t).resident_model ≡ m))
      → ((a : Admission)
          → Owes w.json a.slot_id (action ∷ rest)
          → (k ≡ a.slot_id) × Owes w.json a.slot_id rest)
      → (Aloof w.json (action ∷ rest) → ⊥)
      → ((q n : Option String)
          → Truthful w.json (hint w i) q n (action ∷ rest)
          → Truthful w.json (hint w i) p m rest)
      → ((a : Admission)
          → stage i ≡ holding a
          → (t : SlotState) × (get_elem? slots a.slot_id ≡ some t))
      → Inv w (modify slots k f) stage (update job i rest)
  records-Inv k f p m is owed seen told found = elim (Stage-cases (stage i)) [
    | inr idle ↦ absurd (seen (own.aloof idle))
    | inl (a, h) ↦
        let (mine, owes) = owed a (own.owes a h) in
        let (t, there) = found a h in
        keep-Inv
          (subst (λ x. Task w.json (modify slots k f) (hint w i) x rest) (sym h)
            (subst (λ x. Task w.json (modify slots x f) (hint w i) (holding a) rest) (sym mine)
              (records-Task slots a f p m rest is owes
                (told t.resident_prefix t.resident_model (own.truthful a t h there)))))
          (λ j other.
            apart-Task k f (λ c g same. other (held.apart i j a c h g (sym mine ∙ same))) (inv j))
  ]

  releases-Inv :
      (k : ℕ)
      → ((a : Admission)
          → Owes w.json a.slot_id (action ∷ rest)
          → (k ≡ a.slot_id) × Aloof w.json rest)
      → (Aloof w.json (action ∷ rest) → ⊥)
      → Inv w (modify slots k freed) (update stage i gone) (update job i rest)
  releases-Inv k owed seen = elim (Stage-cases (stage i)) [
    | inr idle ↦ absurd (seen (own.aloof idle))
    | inl (a, h) ↦
        update-Inv w i gone rest
          (record {
            owes = λ c g. cc;
            aloof = λ n. (owed a (own.owes a h)).1;
            truthful = λ c t g e. cc;
          })
          (λ j other.
            frame-Task (modify slots k freed)
              (modify-SameResidency slots k freed (λ t. (refl, refl))) (inv j))
  ]

-- A held slot is in the table.
pub found_held :
    {slots : List SlotState} {stage : ℕ → Stage} (held : Holding.Inv slots stage) (i : ℕ)
    (a : Admission)
    → stage i ≡ holding a
    → (t : SlotState) × (get_elem? slots a.slot_id ≡ some t)
found_held {slots} held i a h = elim (Option-cases (get_elem? slots a.slot_id)) [
  | inl n ↦ absurd (ground (arith, n, held.owned i a h))
  | inr found ↦ found
]

module _ (w : World) (b : Broker w) where
  pub act-Inv :
      (i : ℕ) (action : Action w.json) (rest : List (Action w.json))
      → b.job i ≡ action ∷ rest
      → Holding.Inv b.scheduler.inner.slots b.scheduler.stage
      → Inv w b.scheduler.inner.slots b.scheduler.stage b.job
      → Inv w
          (act w b i action rest).scheduler.inner.slots
          (act w b i action rest).scheduler.stage
          (act w b i action rest).job
  unfolding act
  act-Inv i (release k) rest e held inv =
      subst (λ l. Inv w l (update b.scheduler.stage i gone) (update b.job i rest))
        (sym (slots-release (receivers b.scheduler) b.scheduler.inner k))
        (releases-Inv w inv held i (release k) rest e k (λ a o. o) (λ n. n))
  act-Inv i (mark_resident k m p) rest e held inv =
      records-Inv w inv held i (mark_resident k m p) rest e k
        (λ s. record s { resident_prefix = some p; resident_model = m }) (some p) m
        (λ t. (refl, refl)) (λ a o. o) (λ n. n) (λ q n t. t) (found_held held i)
  act-Inv i (clear_resident k) rest e held inv =
      records-Inv w inv held i (clear_resident k) rest e k
        (λ s. record s { resident_prefix = none; resident_model = none }) none none
        (λ t. (refl, refl)) (λ a o. o) (λ n. n) (λ q n t. t) (found_held held i)
  act-Inv i (restore k' m) rest e held inv =
      keep-Inv w inv held i (restore k' m) rest e
        (unseen-Task (restore k' m) rest (λ k o. o) (λ n. absurd n) (λ p m t. t)
          (own w inv held i (restore k' m) rest e))
        (λ j other. inv j)
  act-Inv i (warm_up u v) rest e held inv =
      keep-Inv w inv held i (warm_up u v) rest e
        (unseen-Task (warm_up u v) rest (λ k o. o) (λ n. absurd n) (λ p m t. t)
          (own w inv held i (warm_up u v) rest e))
        (λ j other. inv j)
  act-Inv i (save k' m d) rest e held inv =
      keep-Inv w inv held i (save k' m d) rest e
        (unseen-Task (save k' m d) rest (λ k o. o) (λ n. absurd n) (λ p m t. t)
          (own w inv held i (save k' m d) rest e))
        (λ j other. inv j)
  act-Inv i (post u v) rest e held inv =
      keep-Inv w inv held i (post u v) rest e
        (unseen-Task (post u v) rest (λ k o. o) (λ n. absurd n) (λ p m t. t.1)
          (own w inv held i (post u v) rest e))
        (λ j other. inv j)
  act-Inv i (send_head d) rest e held inv =
      keep-Inv w inv held i (send_head d) rest e
        (unseen-Task (send_head d) rest (λ k o. o) (λ n. absurd n) (λ p m t. t)
          (own w inv held i (send_head d) rest e))
        (λ j other. inv j)
  act-Inv i read rest e held inv =
      keep-Inv w inv held i read rest e
        (unseen-Task read rest (λ k o. o) (λ n. absurd n) (λ p m t. t)
          (own w inv held i read rest e))
        (λ j other. inv j)
  act-Inv i (send_chunk d) rest e held inv =
      keep-Inv w inv held i (send_chunk d) rest e
        (unseen-Task (send_chunk d) rest (λ k o. o) (λ n. absurd n) (λ p m t. t)
          (own w inv held i (send_chunk d) rest e))
        (λ j other. inv j)
  act-Inv i abandon rest e held inv =
      keep-Inv w inv held i abandon rest e
        (unseen-Task abandon rest (λ k o. o) (λ n. absurd n) (λ p m t. t)
          (own w inv held i abandon rest e))
        (λ j other. inv j)
  act-Inv i close rest e held inv =
      keep-Inv w inv held i close rest e
        (unseen-Task close rest (λ k o. o) (λ n. n) (λ p m t. t) (own w inv held i close rest e))
        (λ j other. inv j)
