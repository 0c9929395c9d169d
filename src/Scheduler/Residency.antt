-- ===== src/Scheduler/Residency.antt =====
-- src/scheduler.rs: when an admission reports the request's prefix as resident.
use aivyx_broker.Prelude.{
  ℕ, ◌≡◌, refl, sym, ◌∙◌, inl, inr, Bool, true, false, Option, none, some, arith, get_elem?, modify,
  length-modify, get_elem?-modify, Option-cases,
}
use aivyx_broker.Scheduler.{
  SlotState, SlotHint, Admission, Inner, claim, mark_resident, clear_resident, release, ready_for,
  usable_preference, try_admit_locked,
}
use aivyx_broker.Scheduler.Prefix.{Holds, ready-Holds}
use aivyx_broker.Scheduler.Choice.{
  Fits, preferred, resident, least_recent, try_admit_locked-Decides, granted, Reason,
}
use aivyx_broker.Scheduler.Slots.{freed, slots-release}

module _ (receiving : ℕ → Bool) (inner : Inner) (k : ℕ) (h : SlotHint) where
  -- A slot is marked resident and released.
  abbrev pub warmed : Inner
  warmed = (release receiving (mark_resident inner k h.model h.prefix_hash) k).0

  warmed_slot :
      (t : SlotState)
      → get_elem? inner.slots k ≡ some t
      → (u : SlotState) × (get_elem? warmed.slots k ≡ some u) × (u.busy ≡ false) × Holds (some h) u
  unfolding mark_resident
  warmed_slot t e = (
    record t { busy = false; resident_prefix = some h.prefix_hash; resident_model = h.model },
    rw slots-release (
        ground (
          arith,
          get_elem?-modify inner.slots k k marked,
          get_elem?-modify (modify inner.slots k marked) k k freed,
        )),
    refl,
    (refl, refl),
  )
    where
      marked : SlotState → SlotState
      marked s = record s { resident_prefix = some h.prefix_hash; resident_model = h.model }

  warmed-Fits : Fits inner → Fits warmed
  unfolding mark_resident
  warmed-Fits fits = rw slots-release (rw length-modify (rw length-modify fits))

  -- After a slot was marked resident with a prefix for a model and released, a request for the
  -- same prefix and model that insists on no slot is admitted at once, onto a slot that holds the
  -- prefix.
  pub admit-mark_resident :
      (t : SlotState)
      → Fits inner
      → get_elem? inner.slots k ≡ some t
      → usable_preference warmed (some h) ≡ none
      → (a : Admission) × (u : SlotState) × (try_admit_locked warmed (some h)
          ≡ (claim warmed a.slot_id, some a))
        × (a.cache_ready ≡ true)
        × (get_elem? warmed.slots a.slot_id ≡ some u)
        × Holds (some h) u
  admit-mark_resident t fits e free =
      let (u, found, idle, holds) = warmed_slot t e in
      elim (try_admit_locked-Decides warmed (some h) (warmed-Fits fits)) [
        | inl (_, busy) ↦ cc (busy k u found (inl free), idle)
        | inr (a, s, g) ↦
            let ready : a.cache_ready ≡ true = certain u found idle holds a s g.ready g.reason in
            (a, s, g.result, ready, g.found, (ready-Holds (some h) s).0 (sym g.ready ∙ ready))
      ]
    where
      certain :
          (u : SlotState)
          → get_elem? warmed.slots k ≡ some u
          → u.busy ≡ false
          → Holds (some h) u
          → (a : Admission) (s : SlotState) → a.cache_ready ≡ ready_for (some h) s
          → Reason warmed (some h) a s
          → a.cache_ready ≡ true
      certain u found idle holds a s q (preferred w) = cc (free, w)
      certain u found idle holds a s q (resident w r) = r
      certain u found idle holds a s q (least_recent w all) =
          cc ((all k u found idle).1, (ready-Holds (some h) u).1 holds)

-- After `clear_resident`, no request that is admitted onto that slot is told that its prefix is
-- ready.
pub admit-clear_resident :
    (inner : Inner) (k : ℕ) (hint : Option SlotHint) (a : Admission) {inner' : Inner}
    → Fits inner
    → try_admit_locked (clear_resident inner k) hint ≡ (inner', some a)
    → a.slot_id ≡ k
    → a.cache_ready ≡ false
unfolding clear_resident
admit-clear_resident inner k hint a fits e same =
    let (s, g) = granted (clear_resident inner k) hint a (rw length-modify fits) e in
    g.ready
    ∙ never hint s (
        ground (
          arith,
          g.found,
          get_elem?-modify inner.slots k a.slot_id cleared,
          Option-cases (get_elem? inner.slots a.slot_id),
        ))
  where
    cleared : SlotState → SlotState
    cleared s = record s { resident_prefix = none; resident_model = none }

    never :
        (hint : Option SlotHint) (s : SlotState)
        → s.resident_prefix ≡ none
        → ready_for hint s ≡ false
    never none s q = refl
    never (some h) s q = rw q
