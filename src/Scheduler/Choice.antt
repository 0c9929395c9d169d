-- ===== src/Scheduler/Choice.antt =====
-- src/scheduler.rs, `try_admit_locked`: which slot a request gets, and when it gets none.
use aivyx_broker.Prelude.{
  ◌↔◌, ◌∙◌, ℕ, ◌+◌, ◌^◌, ◌≤◌, ◌≡◌, refl, sym, subst, ◌⊎◌, inl, inr, Bool, true, false, Option, none,
  some, List, arith, u32, u64, length, get_elem?, filter, enumerate_from, find, min_by_key,
  Bool-cases, Option-cases, All, find-some, find-none, All-filter, All-of-filter, min_by_key-some,
  min_by_key-none, enumerate_lem, of_enumerate, lt-length_of_get,
}
use aivyx_broker.Scheduler.{
  SlotState, SlotHint, Admission, Inner, is_resident_in, claimed, claim, admit_preferred, is_idle,
  holds_prefix, ready_for, admit_least_used, admit_resident, usable_preference, try_admit_locked,
}
use aivyx_broker.Scheduler.Prefix.{Holds, ready-Holds}

-- Why a granted slot was chosen: it is the one asked for, it holds the prefix, or no idle slot holds
-- the prefix and none was used before it.
pub data Reason (inner : Inner) (hint : Option SlotHint) (a : Admission) (s : SlotState)
    : Type 0 where
  preferred : usable_preference inner hint ≡ some a.slot_id → Reason inner hint a s
  resident : usable_preference inner hint ≡ none → a.cache_ready ≡ true → Reason inner hint a s
  least_recent :
      usable_preference inner hint ≡ none
      → ((j : ℕ) (t : SlotState)
          → get_elem? inner.slots j ≡ some t
          → t.busy ≡ false
          → (s.last_used ≤ t.last_used) × (ready_for hint t ≡ false))
      → Reason inner hint a s

-- The slot `s` that an admission names, before the admission, and the new state.
pub record Grants (inner : Inner) (hint : Option SlotHint) (r : Inner × Option Admission)
    (a : Admission) (s : SlotState) : Type 0 where
  pub found : get_elem? inner.slots a.slot_id ≡ some s
  pub idle : s.busy ≡ false
  pub result : r ≡ (claim inner a.slot_id, some a)
  pub ready : a.cache_ready ≡ ready_for hint s
  pub holds : (a.cache_ready ≡ true) ↔ Holds hint s
  pub reason : Reason inner hint a s

-- Every slot that the request may take is busy.
abbrev pub NoneFree : Inner → Option SlotHint → Type 0
NoneFree inner hint =
    (j : ℕ) (t : SlotState)
    → get_elem? inner.slots j ≡ some t
    → (usable_preference inner hint ≡ none) ⊎ (usable_preference inner hint ≡ some j)
    → t.busy ≡ true

-- Either the state as it was, where no slot is free, or an admission.
abbrev pub Decides : Inner → Option SlotHint → Inner × Option Admission → Type 0
Decides inner hint r =
    ((r ≡ (inner, none)) × NoneFree inner hint)
    ⊎ ((a : Admission) × (s : SlotState) × Grants inner hint r a s)

abbrev pub Fits : Inner → Type 0
Fits inner = length inner.slots ≤ 2 ^ 32

ready-claimed :
    (hint : Option SlotHint) (clock : ℕ) (s : SlotState)
    → ready_for hint (claimed clock s) ≡ ready_for hint s
ready-claimed none clock s = refl
ready-claimed (some h) clock s = refl

-- An index in range is not changed by the cast to `u32`.
u32-index :
    (inner : Inner) (i : ℕ) (s : SlotState)
    → Fits inner
    → get_elem? inner.slots i ≡ some s
    → u32 i ≡ i
u32-index inner i s fits e = omega (arith, lt-length_of_get inner.slots i s e)

module _ (inner : Inner) where
  abbrev entries : List (ℕ × SlotState)
  entries = enumerate_from 0 inner.slots

  abbrev least_used : Option (ℕ × SlotState)
  least_used = min_by_key (λ e. e.1.last_used) (filter is_idle entries)

  -- An idle slot that no idle slot was used before.
  least_used-some :
      (i : ℕ) (s : SlotState)
      → least_used ≡ some (i, s)
      → (get_elem? inner.slots i ≡ some s)
        × (s.busy ≡ false)
        × ((j : ℕ) (t : SlotState)
            → get_elem? inner.slots j ≡ some t
            → t.busy ≡ false
            → s.last_used ≤ t.last_used)
  least_used-some i s e = (
    picked.0.0,
    ground (arith, picked.0.1),
    λ j t q idle. of_enumerate _ inner.slots j t smallest q (ground arith),
  )
    where
      picked :
          ((get_elem? inner.slots i ≡ some s) × (is_idle (i, s) ≡ true))
          × All (λ b. s.last_used ≤ b.1.last_used) (filter is_idle entries)
      picked =
          min_by_key-some (λ e. (get_elem? inner.slots e.0 ≡ some e.1) × (is_idle e ≡ true)) _
            (filter is_idle entries) (All-filter _ is_idle entries (enumerate_lem inner.slots)) e

      smallest : All (λ b. is_idle b ≡ true → s.last_used ≤ b.1.last_used) entries
      smallest = All-of-filter _ is_idle entries picked.1

  least_used-none :
      least_used ≡ none → (j : ℕ) (t : SlotState) → get_elem? inner.slots j ≡ some t → t.busy ≡ true
  least_used-none e j t q = elim (Bool-cases t.busy) [
    | inl busy ↦ busy
    | inr idle ↦ absurd (of_enumerate _ inner.slots j t nothing q (ground arith))
  ]
    where
      nothing : All (λ b. is_idle b ≡ true → ⊥) entries
      nothing =
          All-of-filter _ is_idle entries
            (subst (All (λ _. ⊥)) (sym (min_by_key-none _ (filter is_idle entries) e)) tt)

  module _ (hint : Option SlotHint) (fits : Fits inner) where
    grants :
        (r : Inner × Option Admission) (i : ℕ) (s : SlotState) (ready : Bool)
        → get_elem? inner.slots i ≡ some s
        → s.busy ≡ false
        → ready ≡ ready_for hint s
        → r ≡ (claim inner i, some (record { slot_id = i; cache_ready = ready }))
        → Reason inner hint (record { slot_id = i; cache_ready = ready }) s
        → Decides inner hint r
    grants r i s ready found idle q e why = inr (
      record { slot_id = i; cache_ready = ready },
      s,
      record {
        found = found;
        idle = idle;
        result = e;
        ready = q;
        holds = ((λ r. (ready-Holds hint s).0 (sym q ∙ r)), (λ h. q ∙ (ready-Holds hint s).1 h));
        reason = why;
      },
    )

    admit_least_used-Decides :
        usable_preference inner hint ≡ none
        → ((j : ℕ) (t : SlotState)
            → get_elem? inner.slots j ≡ some t
            → t.busy ≡ false
            → ready_for hint t ≡ false)
        → Decides inner hint (admit_least_used inner hint)
    unfolding admit_least_used
    admit_least_used-Decides free unready = elim (Option-cases least_used) [
      | inl e ↦ inl (rw (e, admit_least_used), λ j t q _. least_used-none e j t q)
      | inr ((i, s), e) ↦
          let (found, idle, oldest) = least_used-some i s e in
          let cast = u32-index inner i s fits found in
          grants _ i s (ready_for hint (claimed (u64 (inner.clock + 1)) s)) found idle
            (ready-claimed hint _ s) (rw (e, admit_least_used, cast))
            (least_recent free (λ j t q idle. (oldest j t q idle, unready j t q idle)))
    ]

  module _ (h : SlotHint) (fits : Fits inner) where
    abbrev found_resident : Option (ℕ × SlotState)
    found_resident = find (holds_prefix h) entries

    admit_resident-Decides :
        usable_preference inner (some h) ≡ none → Decides inner (some h) (admit_resident inner h)
    unfolding admit_resident
    admit_resident-Decides free = elim (Option-cases found_resident) [
      | inl e ↦
          rw (e, admit_resident)
            (admit_least_used-Decides (some h) fits free (λ j t q idle.
              ground (arith, of_enumerate _ inner.slots j t (find-none _ entries e) q)))
      | inr ((i, s), e) ↦
          let (at, holds) = find-some _ (holds_prefix h) entries (enumerate_lem inner.slots) e in
          let cast = u32-index inner i s fits at in
          grants (some h) fits _ i s true at (ground (arith, holds)) (ground (arith, holds))
            (rw (e, admit_resident, cast)) (resident free refl)
    ]

    admit_preferred-Decides :
        (p : ℕ)
        → usable_preference inner (some h) ≡ some p
        → Decides inner (some h) (admit_preferred inner h p)
    unfolding admit_preferred
    admit_preferred-Decides p wants = elim (Option-cases (get_elem? inner.slots p)) [
      | inl e ↦ inl (rw (e, admit_preferred), λ j t q w. ground arith)
      | inr (s, e) ↦ elim (Bool-cases s.busy) [
        | inl busy ↦ inl (rw (e, admit_preferred, busy), λ j t q w. ground arith)
        | inr idle ↦
            grants (some h) fits _ p s (is_resident_in h s) e idle refl
              (rw (e, admit_preferred, idle)) (preferred wants)
      ]
    ]

-- With at most 2^32 slots, an admission attempt either leaves the state as it was, and then every
-- slot that the request may take is busy, or claims one idle slot and nothing else, reports the
-- prefix ready exactly if that slot holds it for the request's model, and has a reason for its
-- choice.
pub try_admit_locked-Decides :
    (inner : Inner) (hint : Option SlotHint)
    → Fits inner
    → Decides inner hint (try_admit_locked inner hint)
unfolding try_admit_locked
try_admit_locked-Decides inner none fits =
    admit_least_used-Decides inner none fits refl (λ j t q idle. refl)
try_admit_locked-Decides inner (some h) fits =
    elim (Option-cases (usable_preference inner (some h))) [
      | inl free ↦
          subst (Decides inner (some h)) (sym (rw (free, try_admit_locked)))
            (admit_resident-Decides inner h fits free)
      | inr (p, wants) ↦
          subst (Decides inner (some h)) (sym (rw (wants, try_admit_locked)))
            (admit_preferred-Decides inner h fits p wants)
    ]

-- The facts of an admission that an attempt returned.
pub granted :
    (inner : Inner) (hint : Option SlotHint) (a : Admission) {inner' : Inner}
    → Fits inner
    → try_admit_locked inner hint ≡ (inner', some a)
    → (s : SlotState) × Grants inner hint (try_admit_locked inner hint) a s
granted inner hint a fits e = elim (try_admit_locked-Decides inner hint fits) [
  | inl (q, _) ↦ cc (q, e)
  | inr (b, s, g) ↦
      let same : b ≡ a = cc (g.result, e) in
      (s, subst (λ x. Grants inner hint (try_admit_locked inner hint) x s) same g)
]
