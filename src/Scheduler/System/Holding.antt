-- ===== src/Scheduler/System/Holding.antt =====
-- src/scheduler.rs: who holds which slot, in every reachable state of the system.
pub mod Invariant
use aivyx_broker.Prelude.{
  ℕ, zero, suc, ◌+◌, ◌^◌, ◌≤◌, ◌≡◌, refl, ◌∙◌, ◌⊎◌, inl, inr, true, false, Option, List, [], ◌∷◌,
  arith, u64, length, get_elem?, Option-cases, length-modify, length-replicate, get_elem?-modify,
  replicate,
}
use aivyx_broker.Scheduler.{
  SlotState, SlotHint, Admission, Inner, default_slot, new, seed_busy, mark_resident,
  clear_resident, claim,
}
use aivyx_broker.Scheduler.Slots.{
  freed, freed_if_seeded, slots-release, slots-reconcile_seeded_idle, slots-enqueue,
  admit_locked_cases,
}
use aivyx_broker.Scheduler.System.{
  locking, waiting, holding, timed_out, gone, System, attempt, finish, reconcile, Step, locks,
  wakes, expires, hangs_up, finishes, reconciles, marks, clears, seeded, init, Reach, start, later,
}
pub use aivyx_broker.Scheduler.System.Holding.Invariant.{
  busy_at, seeded_at, busy_at-modify, busy_at-modify_ne, Holder, Inv, moves-Inv, table-Inv,
  claims-Inv, finishes-Inv,
}

attempt-Inv :
    (hint : ℕ → Option SlotHint) (s : System) (i : ℕ)
    → s.stage i ≡ locking
    → Inv s.inner.slots s.stage
    → Inv (attempt hint s i).inner.slots (attempt hint s i).stage
unfolding attempt claim
attempt-Inv hint s i at inv = elim (admit_locked_cases s.inner (hint i) s.next_channel inv.fits) [
  | inl (e, _) ↦
      rw e (rw slots-enqueue (moves-Inv inv i (waiting s.next_channel) (λ a h. cc) (λ a h. cc)))
  | inr (a, t, g) ↦ rw g.result (claims-Inv inv i a t (u64 (s.inner.clock + 1)) at g.found g.idle)
]

-- Every step keeps the invariant.
Step-Inv :
    {hint : ℕ → Option SlotHint} {s t : System}
    → Step hint s t
    → Inv s.inner.slots s.stage
    → Inv t.inner.slots t.stage
unfolding finish reconcile mark_resident clear_resident
Step-Inv {hint} {s} (locks i e) inv = attempt-Inv hint s i e inv
Step-Inv (wakes i c e sent) inv = moves-Inv inv i locking (λ a h. cc) (λ a h. cc)
Step-Inv (expires i c e waits) inv = moves-Inv inv i timed_out (λ a h. cc) (λ a h. cc)
Step-Inv (hangs_up i c e) inv = moves-Inv inv i gone (λ a h. cc) (λ a h. cc)
Step-Inv (finishes i a e) inv = rw slots-release (finishes-Inv inv i a e)
Step-Inv (reconciles k) inv = rw slots-reconcile_seeded_idle (
    table-Inv inv k freed_if_seeded (λ t. ground arith) (λ t h. ground arith) (λ t h. ground arith))
Step-Inv (marks k model prefix) inv = table-Inv inv k _ (λ t. refl) (λ t h. refl) (λ t h. h)
Step-Inv (clears k) inv = table-Inv inv k _ (λ t. refl) (λ t h. refl) (λ t h. h)

-- At the start nothing is held, and every busy slot is a seeded one.
abbrev AllSeeded : List SlotState → Type 0
AllSeeded slots = (k : ℕ) → busy_at slots k ≡ true → seeded_at slots k ≡ true

new-AllSeeded : (n : ℕ) → AllSeeded (replicate n default_slot)
new-AllSeeded zero k b = cc
new-AllSeeded (suc n) zero b = cc
new-AllSeeded (suc n) (suc k) b = new-AllSeeded n k b

seed_busy-AllSeeded :
    (inner : Inner) (id : ℕ) → AllSeeded inner.slots → AllSeeded (seed_busy inner id).slots
unfolding seed_busy
seed_busy-AllSeeded inner id h k b = elim (Option-cases (get_elem? inner.slots k)) [
  | inl e ↦ ground (
    arith,
    h k,
    get_elem?-modify inner.slots id k (λ s. record s { busy = true; seeded_unowned = true }),
  )
  | inr (t, e) ↦ ground (
    arith,
    h k,
    get_elem?-modify inner.slots id k (λ s. record s { busy = true; seeded_unowned = true }),
  )
]

seeded-AllSeeded :
    (inner : Inner) (ids : List ℕ) → AllSeeded inner.slots → AllSeeded (seeded inner ids).slots
seeded-AllSeeded inner [] h = h
seeded-AllSeeded inner (id ∷ ids) h =
    seeded-AllSeeded (seed_busy inner id) ids (seed_busy-AllSeeded inner id h)

pub length-seeded :
    (inner : Inner) (ids : List ℕ) → length (seeded inner ids).slots ≡ length inner.slots
unfolding seed_busy
length-seeded inner [] = refl
length-seeded inner (id ∷ ids) =
    length-seeded (seed_busy inner id) ids ∙ length-modify inner.slots id _

init-Inv :
    (n : ℕ) (processing : List ℕ)
    → n ≤ 2 ^ 32
    → Inv (init n processing).inner.slots (init n processing).stage
unfolding new
init-Inv n processing small = record {
  fits = rw length-seeded (rw length-replicate small);
  owned = λ i a h. cc;
  apart = λ i j a b h. cc;
  accounted = λ k b. inl (seeded-AllSeeded (new n) processing (new-AllSeeded n) k b);
}

module _ {hint : ℕ → Option SlotHint} {n : ℕ} {processing : List ℕ} (small : n ≤ 2 ^ 32) where
  pub Reach-Inv : {s : System} → Reach hint n processing s → Inv s.inner.slots s.stage
  Reach-Inv start = init-Inv n processing small
  Reach-Inv (later r st) = Step-Inv st (Reach-Inv r)

  -- In every reachable state of a broker with at most 2^32 slots, two requests that hold the same
  -- slot are the same request, and a held slot is marked busy.
  pub one_holder_per_slot :
      {s : System}
      → Reach hint n processing s
      → (i j : ℕ) (a b : Admission) → s.stage i ≡ holding a
      → s.stage j ≡ holding b
      → a.slot_id ≡ b.slot_id
      → (i ≡ j) × (busy_at s.inner.slots a.slot_id ≡ true)
  one_holder_per_slot r i j a b h g e =
      ((Reach-Inv r).apart i j a b h g e, ((Reach-Inv r).owned i a h).0)

  -- In every reachable state a slot that is busy is held by a request in flight, whose end frees
  -- it, or is a slot seeded at the start, which the next reconciliation of it frees: no slot is
  -- busy for ever with nobody to release it, whichever waiters have gone.
  pub no_slot_leaks :
      {s : System}
      → Reach hint n processing s
      → (k : ℕ) → busy_at s.inner.slots k ≡ true
      → ((i : ℕ) × (a : Admission) × (s.stage i ≡ holding a)
          × (busy_at (finish s i a.slot_id).inner.slots k ≡ false))
        ⊎ (busy_at (reconcile s k).inner.slots k ≡ false)
  unfolding finish reconcile
  no_slot_leaks {s} r k b = elim (Option-cases (get_elem? s.inner.slots k)) [
    | inl e ↦ ground (arith, e)
    | inr (t, e) ↦ elim ((Reach-Inv r).accounted k b) [
      | inl seeded ↦ inr (
          rw slots-reconcile_seeded_idle
            (ground (arith, get_elem?-modify s.inner.slots k k freed_if_seeded)))
      | inr (i, a, h, q) ↦ inl (
        i,
        a,
        h,
        rw slots-release (ground (arith, get_elem?-modify s.inner.slots a.slot_id k freed)),
      )
    ]
  ]

  -- In every reachable state, reconciling any slot leaves every held slot busy.
  pub reconcile_spares_holders :
      {s : System}
      → Reach hint n processing s
      → (k i : ℕ) (a : Admission) → s.stage i ≡ holding a
      → busy_at (reconcile s k).inner.slots a.slot_id ≡ true
  reconcile_spares_holders {s} r k i a h =
      ((Step-Inv step (Reach-Inv r)).owned i a (unfold reconcile in h)).0
    where
      step : Step hint s (reconcile s k)
      step = reconciles k
