-- ===== src/Scheduler/System/LeastRecent.antt =====
-- src/scheduler.rs: the clock of admissions tells the order of admissions, in every reachable state in
-- which it has not wrapped, and the last tier of `try_admit_locked` goes by that order.
use aivyx_broker.Prelude.{
  ℕ, zero, suc, ◌^◌, ◌≤◌, ◌<◌, ◌≡◌, refl, ap, sym, ◌∙◌, subst, inl, inr, true, false, Option, none,
  some, List, [], ◌∷◌, arith, length, get_elem?, get_elem?-modify, Option-cases, replicate,
}
use aivyx_broker.Scheduler.{
  SlotState, SlotHint, Admission, Inner, usable_preference, default_slot, new, seed_busy,
  mark_resident, clear_resident,
}
use aivyx_broker.Scheduler.Choice.{Fits, Reason, preferred, resident, least_recent}
use aivyx_broker.Scheduler.Slots.{
  freed, freed_if_seeded, slots-release, slots-reconcile_seeded_idle, slots-enqueue,
  admit_locked_cases,
}
use aivyx_broker.Scheduler.System.{
  System, attempt, finish, reconcile, Step, locks, wakes, expires, hangs_up, finishes, reconciles,
  marks, clears, seeded, receivers, Reach, settle,
}
use aivyx_broker.Scheduler.System.Holding
use aivyx_broker.Scheduler.System.History.{
  History, last_admission, note, answer, noted, Run, start, later, Dated, clock-release,
  clock-reconcile_seeded_idle, clock-enqueue, frame-Dated, claim-Dated,
}

-- A new table has no stamps, and seeding a slot sets none.
abbrev Unstamped : Inner → Type 0
Unstamped inner =
    (inner.clock ≡ 0)
    × ((k : ℕ) (t : SlotState) → get_elem? inner.slots k ≡ some t → t.last_used ≡ 0)

new-Unstamped :
    (n k : ℕ) (t : SlotState) → get_elem? (replicate n default_slot) k ≡ some t → t.last_used ≡ 0
new-Unstamped zero k t e = cc
new-Unstamped (suc n) zero t e = ground (arith, e)
new-Unstamped (suc n) (suc k) t e = new-Unstamped n k t e

seeded-Unstamped : (inner : Inner) (ids : List ℕ) → Unstamped inner → Unstamped (seeded inner ids)
unfolding seed_busy
seeded-Unstamped inner [] h = h
seeded-Unstamped inner (id ∷ ids) (clock, stamps) = seeded-Unstamped (seed_busy inner id) ids (
  clock,
  λ k t e. elim (Option-cases (get_elem? inner.slots k)) [
    | inl n ↦ absurd (ground (arith, n, e, get_elem?-modify inner.slots id k seeds))
    | inr (u, q) ↦ ground (arith, q, e, stamps k u, get_elem?-modify inner.slots id k seeds)
  ],
)
  where
    seeds : SlotState → SlotState
    seeds s = record s { busy = true; seeded_unowned = true }

attempt-Dated :
    (hint : ℕ → Option SlotHint) (s : System) (i : ℕ) (hist : History)
    → Fits s.inner
    → length (note (answer hint s i) hist) < 2 ^ 64
    → Dated hist s.inner
    → Dated (note (answer hint s i) hist) (attempt hint s i).inner
unfolding attempt
attempt-Dated hint s i hist fits small dated =
    elim (admit_locked_cases s.inner (hint i) s.next_channel fits) [
      | inl (e, _) ↦ subst dates (sym e) (record {
        clock = clock-enqueue s.inner (hint i) s.next_channel ∙ dated.clock;
        stamps = λ k t q.
            dated.stamps k t
              (ap (λ l. get_elem? l k) (sym (slots-enqueue s.inner (hint i) s.next_channel)) ∙ q);
      })
      | inr (a, t, g) ↦ subst dates (sym g.result) (
          claim-Dated a.slot_id
            (omega (arith, subst (λ r. length (note r.1 hist) < 2 ^ 64) g.result small)) dated)
    ]
  where
    dates : Inner × Option Admission → Type 0
    dates r = Dated (note r.1 hist) (settle s i r.0 r.1).inner

module _ {hint : ℕ → Option SlotHint} where
  noted_grows :
      {s t : System} (st : Step hint s t) (hist : History)
      → length hist ≤ length (noted hint st hist)
  unfolding noted
  noted_grows {s} (locks i e) hist = elim (Option-cases (answer hint s i)) [
    | inl n ↦ rw (n, note) (omega arith)
    | inr (a, n) ↦ rw (n, note) (omega arith)
  ]
  noted_grows (wakes i c e h) hist = omega arith
  noted_grows (expires i c e h) hist = omega arith
  noted_grows (hangs_up i c e) hist = omega arith
  noted_grows (finishes i a e) hist = omega arith
  noted_grows (reconciles k) hist = omega arith
  noted_grows (marks k model prefix) hist = omega arith
  noted_grows (clears k) hist = omega arith

  Step-Dated :
      {s t : System} (st : Step hint s t) (hist : History)
      → Fits s.inner
      → length (noted hint st hist) < 2 ^ 64
      → Dated hist s.inner
      → Dated (noted hint st hist) t.inner
  unfolding noted finish reconcile mark_resident clear_resident
  Step-Dated {s} (locks i e) hist fits small dated = attempt-Dated hint s i hist fits small dated
  Step-Dated (wakes i c e h) hist fits small dated = dated
  Step-Dated (expires i c e h) hist fits small dated = dated
  Step-Dated (hangs_up i c e) hist fits small dated = dated
  Step-Dated {s} (finishes i a e) hist fits small dated =
      frame-Dated _ a.slot_id freed (slots-release (receivers s) s.inner a.slot_id)
        (clock-release (receivers s) s.inner a.slot_id) (λ t. refl) dated
  Step-Dated {s} (reconciles k) hist fits small dated =
      frame-Dated _ k freed_if_seeded (slots-reconcile_seeded_idle (receivers s) s.inner k)
        (clock-reconcile_seeded_idle (receivers s) s.inner k) (λ t. ground arith) dated
  Step-Dated (marks k model prefix) hist fits small dated =
      frame-Dated _ k _ refl refl (λ t. refl) dated
  Step-Dated (clears k) hist fits small dated = frame-Dated _ k _ refl refl (λ t. refl) dated

  module _ {n : ℕ} {processing : List ℕ} where
    Run-Reach :
        {hist : History} {s : System} → Run hint n processing hist s → Reach hint n processing s
    Run-Reach start = Reach.start
    Run-Reach (later r st) = Reach.later (Run-Reach r) st

    module _ (few : n ≤ 2 ^ 32) where
      Run-Dated :
          {hist : History} {s : System}
          → Run hint n processing hist s
          → length hist < 2 ^ 64
          → Dated hist s.inner
      unfolding new
      Run-Dated start small =
          let (clock, stamps) = seeded-Unstamped (new n) processing (refl, new-Unstamped n) in
          record { clock = clock; stamps = stamps }
      Run-Dated (later {hist = hist} r st) small =
          Step-Dated st hist (Holding.Reach-Inv few (Run-Reach r)).fits small
            (Run-Dated r (omega (arith, noted_grows st hist)))

      -- In every reachable state of a broker with at most 2^32 slots and fewer than 2^64 admissions
      -- so far: a request that insists on no slot and is admitted without its prefix being ready
      -- gets a slot whose last admission is the longest ago of all idle slots, where a slot that was
      -- never admitted onto comes before one that was.
      pub least_recently_admitted :
          {hist : History} {s : System}
          → Run hint n processing hist s
          → length hist < 2 ^ 64
          → (i k : ℕ) (a : Admission) (t : SlotState) → answer hint s i ≡ some a
          → usable_preference s.inner (hint i) ≡ none
          → a.cache_ready ≡ false
          → get_elem? s.inner.slots k ≡ some t
          → t.busy ≡ false
          → last_admission hist a.slot_id ≤ last_admission hist k
      least_recently_admitted {hist} {s} r small i k a t e free cold at idle =
          elim (admit_locked_cases s.inner (hint i) s.next_channel
            (Holding.Reach-Inv few (Run-Reach r)).fits) [
              | inl (q, _) ↦ absurd (cc (e, ap (λ x. x.1) q))
              | inr (b, u, g) ↦
                  let is : b ≡ a = cc (e, ap (λ x. x.1) g.result) in
                  oldest u (subst (λ x. get_elem? s.inner.slots x.slot_id ≡ some u) is g.found)
                    (subst (λ x. Reason s.inner (hint i) x u) is g.reason)
            ]
        where
          dated : Dated hist s.inner
          dated = Run-Dated r small

          oldest :
              (u : SlotState)
              → get_elem? s.inner.slots a.slot_id ≡ some u
              → Reason s.inner (hint i) a u
              → last_admission hist a.slot_id ≤ last_admission hist k
          oldest u found (preferred w) = absurd (cc (free, w))
          oldest u found (resident w y) = absurd (cc (cold, y))
          oldest u found (least_recent w all) =
              omega
                (arith, dated.stamps a.slot_id u found, dated.stamps k t at, (all k t at idle).0)
