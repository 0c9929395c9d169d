-- ===== src/Scheduler/Recency.antt =====
-- src/scheduler.rs: the clock of admissions, and that the last tier spreads requests over slots.
use aivyx_broker.Prelude.{
  ℕ, ◌+◌, ◌^◌, ◌≤◌, ◌<◌, ◌≡◌, sym, subst, ap, ◌∙◌, inl, inr, ◌≢◌, Bool, false, Option, none, some,
  arith, u64, get_elem?, modify, length-modify, get_elem?-modify, map_option, if◌then◌else◌, ◌==◌,
  Option-cases,
}
use aivyx_broker.Scheduler.{
  SlotState, SlotHint, Admission, Inner, claimed, claim, release, usable_preference,
  try_admit_locked,
}
use aivyx_broker.Scheduler.Choice.{
  Fits, Reason, preferred, resident, least_recent, try_admit_locked-Decides, granted,
}
use aivyx_broker.Scheduler.Slots.{freed, slots-release}

-- No slot is stamped later than the clock.
abbrev pub Stamped : Inner → Type 0
Stamped inner =
    (k : ℕ) (t : SlotState) → get_elem? inner.slots k ≡ some t → t.last_used ≤ inner.clock

-- An attempt keeps that while the clock does not wrap.
pub try_admit_locked-Stamped :
    (inner : Inner) (hint : Option SlotHint)
    → Fits inner
    → inner.clock + 1 < 2 ^ 64
    → Stamped inner
    → Stamped (try_admit_locked inner hint).0
unfolding claim
try_admit_locked-Stamped inner hint fits small h = elim (try_admit_locked-Decides inner hint fits) [
  | inl (e, _) ↦ rw e h
  | inr (a, s, g) ↦ rw g.result λ k t e. elim (Option-cases (get_elem? inner.slots k)) [
    | inl q ↦
        ground
          (arith, q, get_elem?-modify inner.slots a.slot_id k (claimed (u64 (inner.clock + 1))))
    | inr (u, q) ↦
        ground (
          arith,
          h k u q,
          get_elem?-modify inner.slots a.slot_id k (claimed (u64 (inner.clock + 1))),
        )
  ]
]

module _ (receiving : ℕ → Bool) (inner : Inner) (k : ℕ) where
  -- The state after slot `k` was claimed and released.
  abbrev pub reused : Inner
  reused = (release receiving (claim inner k) k).0

  slots-reused :
      (j : ℕ)
      → get_elem? reused.slots j ≡ (
          if k == j
          then map_option (λ s. freed (claimed (u64 (inner.clock + 1)) s)) (get_elem? inner.slots j)
          else get_elem? inner.slots j)
  unfolding claim
  slots-reused j =
      let clock = u64 (inner.clock + 1) in
      let claims = modify inner.slots k (claimed clock) in
      ap (λ xs. get_elem? xs j) (slots-release receiving (claim inner k) k)
      ∙ elim (Option-cases (get_elem? inner.slots j)) [
        | inl q ↦ ground (
          arith,
          q,
          get_elem?-modify claims k j freed,
          get_elem?-modify inner.slots k j (claimed clock),
        )
        | inr (u, q) ↦ ground (
          arith,
          q,
          get_elem?-modify claims k j freed,
          get_elem?-modify inner.slots k j (claimed clock),
        )
      ]

  -- The slot has the latest stamp of all.
  reused_latest :
      inner.clock + 1 < 2 ^ 64
      → Stamped inner
      → (s u : SlotState) (j : ℕ) → get_elem? reused.slots k ≡ some s
      → get_elem? reused.slots j ≡ some u
      → j ≢ k
      → u.last_used < s.last_used
  reused_latest small stamped s u j at_k at_j other = omega (arith, latest, stamped j u old)
    where
      old : get_elem? inner.slots j ≡ some u
      old = ground (arith, slots-reused j)

      latest : s.last_used ≡ inner.clock + 1
      latest = elim (Option-cases (get_elem? inner.slots k)) [
        | inl q ↦ ground (arith, q, slots-reused k)
        | inr (t, q) ↦ ground (arith, q, slots-reused k)
      ]

  reused-Fits : Fits inner → Fits reused
  unfolding claim
  reused-Fits fits = rw slots-release (rw length-modify (rw length-modify fits))

-- While the clock does not wrap: after a request was admitted onto a slot and released it, a
-- request that insists on no slot and finds its prefix nowhere does not get that slot again as
-- long as another slot is idle.
pub admission_spreads :
    (receiving : ℕ → Bool) (inner : Inner) (hint next : Option SlotHint) (a b : Admission)
    {first second : Inner} (k : ℕ) (u : SlotState)
    → Fits inner
    → inner.clock + 1 < 2 ^ 64
    → Stamped inner
    → try_admit_locked inner hint ≡ (first, some a)
    → let later = (release receiving first a.slot_id).0 in
      usable_preference later next ≡ none
      → k ≢ a.slot_id
      → get_elem? later.slots k ≡ some u
      → u.busy ≡ false
      → try_admit_locked later next ≡ (second, some b)
      → b.cache_ready ≡ false
      → b.slot_id ≢ a.slot_id
admission_spreads receiving inner hint next a b {first} {second} k u fits small stamped e free other
      found idle e' cold =
    let (_, g) = granted inner hint a fits e in
    let is_claim : first ≡ claim inner a.slot_id = cc (e, g.result) in
    subst Goal (sym is_claim) onward free found e'
  where
    later : Inner → Inner
    later x = (release receiving x a.slot_id).0

    Goal : Inner → Type 0
    Goal x =
        usable_preference (later x) next ≡ none
        → get_elem? (later x).slots k ≡ some u
        → try_admit_locked (later x) next ≡ (second, some b)
        → b.slot_id ≢ a.slot_id

    choose :
        (s : SlotState)
        → usable_preference (reused receiving inner a.slot_id) next ≡ none
        → get_elem? (reused receiving inner a.slot_id).slots k ≡ some u
        → get_elem? (reused receiving inner a.slot_id).slots b.slot_id ≡ some s
        → Reason (reused receiving inner a.slot_id) next b s
        → b.slot_id ≢ a.slot_id
    choose s free' at_k at_b (preferred w) = cc (free', w)
    choose s free' at_k at_b (resident w r) = cc (cold, r)
    choose s free' at_k at_b (least_recent w all) = λ same.
        let oldest = all k u at_k idle in
        let at_a =
          subst (λ j. get_elem? (reused receiving inner a.slot_id).slots j ≡ some s) same at_b in
        omega (
          arith,
          oldest.0,
          reused_latest receiving inner a.slot_id small stamped s u k at_a at_k other,
        )

    onward : Goal (claim inner a.slot_id)
    onward free' found' e'' =
        let (s, g) =
          granted (later (claim inner a.slot_id)) next b
            (reused-Fits receiving inner a.slot_id fits) e'' in
        choose s free' found' g.found g.reason
