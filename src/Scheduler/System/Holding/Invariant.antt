-- ===== src/Scheduler/System/Holding/Invariant.antt =====
-- src/scheduler.rs: the invariant on who holds which slot, and how it is kept.
use aivyx_broker.Prelude.{
  ℕ, ◌^◌, ◌≤◌, ◌≡◌, ◌⊎◌, inl, inr, ◌≢◌, Bool, true, false, none, some, List, arith, length,
  get_elem?, modify, update, ℕ-cases, Option-cases, length-modify, get_elem?-modify,
}
use aivyx_broker.Scheduler.{SlotState, Admission, claimed}
use aivyx_broker.Scheduler.Slots.{freed}
use aivyx_broker.Scheduler.System.{Stage, locking, holding, gone, seeded}

abbrev pub busy_at : List SlotState → ℕ → Bool
busy_at slots k = elim (get_elem? slots k) [ none ↦ false | some t ↦ t.busy ]

abbrev pub seeded_at : List SlotState → ℕ → Bool
seeded_at slots k = elim (get_elem? slots k) [ none ↦ false | some t ↦ t.seeded_unowned ]

pub busy_at-modify :
    (slots : List SlotState) (k : ℕ) (f : SlotState → SlotState) (p : ℕ)
    → ((t : SlotState) → t.busy ≡ true → (f t).busy ≡ true)
    → busy_at slots p ≡ true
    → busy_at (modify slots k f) p ≡ true
busy_at-modify slots k f p keeps b = elim (Option-cases (get_elem? slots p)) [
  | inl e ↦ ground (arith, e)
  | inr (t, e) ↦ ground (arith, get_elem?-modify slots k p f, keeps t)
]

pub busy_at-modify_ne :
    (slots : List SlotState) (k : ℕ) (f : SlotState → SlotState) (p : ℕ)
    → k ≢ p
    → busy_at (modify slots k f) p ≡ busy_at slots p
busy_at-modify_ne slots k f p h = ground (arith, get_elem?-modify slots k p f)

-- Some request holds slot `k`.
abbrev pub Holder : (ℕ → Stage) → ℕ → Type 0
Holder stage k = (i : ℕ) × (a : Admission) × (stage i ≡ holding a) × (a.slot_id ≡ k)

-- Each held slot is busy and owned by the broker; no slot has two holders; and a slot is busy only
-- if it is held, or was found busy at the start and never claimed.
pub record Inv (slots : List SlotState) (stage : ℕ → Stage) : Type 0 where
  pub fits : length slots ≤ 2 ^ 32
  pub owned :
      (i : ℕ) (a : Admission)
      → stage i ≡ holding a
      → (busy_at slots a.slot_id ≡ true) × (seeded_at slots a.slot_id ≡ false)
  pub apart :
      (i j : ℕ) (a b : Admission)
      → stage i ≡ holding a
      → stage j ≡ holding b
      → a.slot_id ≡ b.slot_id
      → i ≡ j
  pub accounted : (k : ℕ) → busy_at slots k ≡ true → (seeded_at slots k ≡ true) ⊎ Holder stage k

module _ {slots : List SlotState} {stage : ℕ → Stage} (inv : Inv slots stage) where
  open inv use {fits, owned, apart, accounted}

  -- A request that holds nothing moves on without a slot.
  pub moves-Inv :
      (i : ℕ) (p : Stage)
      → ((a : Admission) → stage i ≢ holding a)
      → ((a : Admission) → p ≢ holding a)
      → Inv slots (update stage i p)
  moves-Inv i p was now = record {
    fits = fits;
    owned = λ j a h. ground (arith, now a, owned j a);
    apart = λ j k a b h g e. ground (arith, now a, now b, apart j k a b);
    accounted = λ k b. elim (accounted k b) [
      | inl seeded ↦ inl seeded
      | inr (j, a, h, e) ↦ inr (j, a, ground (arith, was a), e)
    ];
  }

  -- The table changes at `k`, and what counts here stays, but that a seeded slot may become free.
  pub table-Inv :
      (k : ℕ) (f : SlotState → SlotState)
      → ((t : SlotState) → (f t).seeded_unowned ≡ t.seeded_unowned)
      → ((t : SlotState) → t.seeded_unowned ≡ false → (f t).busy ≡ t.busy)
      → ((t : SlotState) → (f t).busy ≡ true → t.busy ≡ true)
      → Inv (modify slots k f) stage
  table-Inv k f same keeps frees = record {
    fits = rw length-modify fits;
    owned = λ i a h. elim (Option-cases (get_elem? slots a.slot_id)) [
      | inl e ↦ ground (arith, owned i a h, get_elem?-modify slots k a.slot_id f)
      | inr (t, e) ↦
          ground (arith, owned i a h, get_elem?-modify slots k a.slot_id f, same t, keeps t)
    ];
    apart = apart;
    accounted = λ j b. elim (Option-cases (get_elem? slots j)) [
      | inl e ↦ ground (arith, get_elem?-modify slots k j f)
      | inr (t, e) ↦ elim (accounted j (ground (arith, get_elem?-modify slots k j f, frees t))) [
        | inl seeded ↦ inl (ground (arith, get_elem?-modify slots k j f, same t))
        | inr held ↦ inr held
      ]
    ];
  }

  -- A request claims an idle slot.
  pub claims-Inv :
      (i : ℕ) (a : Admission) (t : SlotState) (clock : ℕ)
      → stage i ≡ locking
      → get_elem? slots a.slot_id ≡ some t
      → t.busy ≡ false
      → Inv (modify slots a.slot_id (claimed clock)) (update stage i (holding a))
  claims-Inv i a t clock was found idle = record {
    fits = rw length-modify fits;
    owned = λ j b h.
        ground (arith, owned j b, get_elem?-modify slots a.slot_id b.slot_id (claimed clock));
    apart = λ j k b c h g e. ground (arith, apart j k b c, owned j b, owned k c);
    accounted = λ k b. elim (ℕ-cases a.slot_id k) [
      | inl same ↦ inr (i, a, ground arith, same)
      | inr other ↦
          elim (accounted k (ground (arith, get_elem?-modify slots a.slot_id k (claimed clock)))) [
            | inl seeded ↦ inl (ground (arith, get_elem?-modify slots a.slot_id k (claimed clock)))
            | inr (j, c, h, e) ↦ inr (j, c, ground arith, e)
          ]
    ];
  }

  -- A holder ends, and its slot becomes free.
  pub finishes-Inv :
      (i : ℕ) (a : Admission)
      → stage i ≡ holding a
      → Inv (modify slots a.slot_id freed) (update stage i gone)
  finishes-Inv i a was = record {
    fits = rw length-modify fits;
    owned = λ j b h.
        ground (arith, owned j b, apart i j a b, get_elem?-modify slots a.slot_id b.slot_id freed);
    apart = λ j k b c h g e. ground (arith, apart j k b c);
    accounted = λ k b.
        elim (accounted k (ground (arith, get_elem?-modify slots a.slot_id k freed))) [
          | inl seeded ↦ inl (ground (arith, get_elem?-modify slots a.slot_id k freed))
          | inr (j, c, h, e) ↦
              inr (j, c, ground (arith, get_elem?-modify slots a.slot_id k freed), e)
        ];
  }
