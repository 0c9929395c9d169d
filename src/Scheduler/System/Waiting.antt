-- ===== src/Scheduler/System/Waiting.antt =====
-- src/scheduler.rs: no request sleeps beside the slot that it waits for.
pub mod Invariant
use aivyx_broker.Prelude.{
  ℕ, ◌+◌, ◌^◌, ◌≤◌, ◌≡◌, refl, inl, inr, true, Option, some, List, u64, length-replicate, elem,
}
use aivyx_broker.Scheduler.{SlotHint, new, mark_resident, clear_resident, claimed, claim}
use aivyx_broker.Scheduler.Choice.{Fits}
use aivyx_broker.Scheduler.Slots.{admit_locked_cases}
use aivyx_broker.Scheduler.Wake.{queue, release_cases, reconcile_cases}
use aivyx_broker.Channels.{open_ended}
use aivyx_broker.Scheduler.System.{
  locking, waiting, holding, timed_out, gone, System, receivers, attempt, finish, reconcile, Step,
  locks, wakes, expires, hangs_up, finishes, reconciles, marks, clears, init, Reach, start, later,
}
use aivyx_broker.Scheduler.System.Holding.{busy_at, length-seeded, Reach-Inv}
use aivyx_broker.Scheduler.System.Waiting.Invariant.{leaves-Queued, joins-Queued, Frees-Queued}
pub use aivyx_broker.Scheduler.System.Waiting.Invariant.{
  wants, wants-lt, Queued, wants_lem, moves-Queued, table-Queued,
}

attempt-Queued :
    {hint : ℕ → Option SlotHint} {n : ℕ} (s : System) (i : ℕ)
    → Fits s.inner
    → Queued hint n s
    → Queued hint n (attempt hint s i)
unfolding attempt claim
attempt-Queued {hint} {n} s i fits q =
    elim (admit_locked_cases s.inner (hint i) s.next_channel fits) [
      | inl (e, taken) ↦ rw e (joins-Queued q i taken)
      | inr (a, t, g) ↦ rw g.result (
          moves-Queued
            (table-Queued q a.slot_id (claimed (u64 (s.inner.clock + 1))) _ (λ t b. refl)) i
            (holding a) (λ c h. cc))
    ]

Step-Queued :
    {hint : ℕ → Option SlotHint} {n : ℕ} {s t : System}
    → Step hint s t
    → Fits s.inner
    → Queued hint n s
    → Queued hint n t
unfolding finish reconcile mark_resident clear_resident elem
Step-Queued {s = s} (locks i e) fits q = attempt-Queued s i fits q
Step-Queued (wakes i c e signalled) fits q = moves-Queued q i locking (λ c h. cc)
Step-Queued (expires i c e waits) fits q = leaves-Queued q i c timed_out (λ c h. cc)
Step-Queued (hangs_up i c e) fits q = leaves-Queued q i c gone (λ c h. cc)
Step-Queued {s = s} (finishes i a e) fits q =
    let ended = moves-Queued q i gone (λ c h. cc) in
    elim (release_cases (receivers s) s.inner a.slot_id) [
      | inl (same, _) ↦ rw same ended
      | inr f ↦ Frees-Queued ended a.slot_id _ f
    ]
Step-Queued {s = s} (reconciles k) fits q = elim (reconcile_cases (receivers s) s.inner k) [
  | inl (same, _) ↦ rw same q
  | inr (t, _, _, f) ↦ Frees-Queued q k _ f
]
Step-Queued (marks k model prefix) fits q = table-Queued q k _ _ (λ t b. b)
Step-Queued (clears k) fits q = table-Queued q k _ _ (λ t b. b)

init-Queued :
    (hint : ℕ → Option SlotHint) (n : ℕ) (processing : List ℕ) → Queued hint n (init n processing)
unfolding new
init-Queued hint n processing = record {
  size = rw length-seeded (length-replicate n _);
  recent = λ i c h. cc;
  specific = λ i c p h o w. cc;
  general = λ i c h o w. cc;
}

pub Reach-Queued :
    {hint : ℕ → Option SlotHint} {n : ℕ} {processing : List ℕ} {s : System}
    → n ≤ 2 ^ 32
    → Reach hint n processing s
    → Queued hint n s
Reach-Queued {hint} {n} {processing} small start = init-Queued hint n processing
Reach-Queued small (later r st) = Step-Queued st (Reach-Inv small r).fits (Reach-Queued small r)

-- In every reachable state, a request that insists on a slot in range, waits, and has not been
-- woken stands in that slot's queue, and the slot is busy: freeing it wakes the request.
pub no_lost_wakeup :
    {hint : ℕ → Option SlotHint} {n : ℕ} {processing : List ℕ} {s : System}
    → n ≤ 2 ^ 32
    → Reach hint n processing s
    → (i c p : ℕ) → s.stage i ≡ waiting c
    → s.channel c ≡ open_ended
    → wants n (hint i) ≡ some p
    → (elem c (queue s.inner p) ≡ true) × (busy_at s.inner.slots p ≡ true)
no_lost_wakeup small r = (Reach-Queued small r).specific
