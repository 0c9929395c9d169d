-- ===== src/Scheduler/System/Sharing.antt =====
-- src/scheduler.rs: requests that take any slot. Where none insists on a slot, none of them sleeps
-- beside an idle one.
use aivyx_broker.Prelude.{
  ℕ, ◌+◌, ◌^◌, ◌≤◌, ◌<◌, ◌≡◌, refl, ap, ◌∙◌, inl, inr, ◌≢◌, true, false, Option, none, some, List,
  [], ◌∷◌, arith, u64, length, get_elem?, modify, update, any, ℕ-cases, get_of_lt-length, elem,
  elem-filter,
}
use aivyx_broker.Scheduler.{
  SlotState, SlotHint, Inner, new, seed_busy, mark_resident, clear_resident, claimed, claim,
  enqueue, usable_preference,
}
use aivyx_broker.Scheduler.Slots.{admit_locked_cases}
use aivyx_broker.Scheduler.Wake.{queue, Frees, release_cases, reconcile_cases}
use aivyx_broker.Channels.{open_ended}
use aivyx_broker.Scheduler.System.{
  Stage, locking, waiting, holding, timed_out, gone, System, receivers, after_wake, attempt, settle,
  finish, reconcile, leave, Step, locks, wakes, expires, hangs_up, finishes, reconciles, marks,
  clears, seeded, init, Reach, start, later,
}
use aivyx_broker.Scheduler.System.Holding.{busy_at, busy_at-modify, Reach-Inv}
use aivyx_broker.Scheduler.System.Waiting.{wants, Queued, moves-Queued, table-Queued, Reach-Queued}

-- No slot has a queue of its own, and while a request waits unwoken all slots are busy.
record Packed (n : ℕ) (s : System) : Type 0 where
  unqueued : (k : ℕ) → queue s.inner k ≡ []
  taken :
      (i c : ℕ)
      → s.stage i ≡ waiting c
      → s.channel c ≡ open_ended
      → (k : ℕ) → k < n
      → busy_at s.inner.slots k ≡ true

unqueued_seeded :
    (inner : Inner) (ids : List ℕ)
    → ((k : ℕ) → queue inner k ≡ [])
    → (k : ℕ) → queue (seeded inner ids) k ≡ []
unfolding seed_busy
unqueued_seeded inner [] h = h
unqueued_seeded inner (id ∷ ids) h = unqueued_seeded (seed_busy inner id) ids h

init-Packed : (n : ℕ) (processing : List ℕ) → Packed n (init n processing)
unfolding new
init-Packed n processing = record {
  unqueued = unqueued_seeded (new n) processing (λ k. refl);
  taken = λ i c h o k lt. cc;
}

module _ {hint : ℕ → Option SlotHint} {n : ℕ} (free : (i : ℕ) → wants n (hint i) ≡ none) where
  module _ {s : System} (q : Queued hint n s) (packed : Packed n s) where
    open packed use {unqueued, taken}

    moves-Packed :
        (i : ℕ) (p : Stage)
        → ((c : ℕ) → p ≢ waiting c)
        → Packed n (record s { stage = update s.stage i p })
    moves-Packed i p now = record {
      unqueued = unqueued;
      taken = λ j c h o k lt. taken j c (ground (arith, now c)) o k lt;
    }

    leaves-Packed : (i c : ℕ) (p : Stage) → ((d : ℕ) → p ≢ waiting d) → Packed n (leave s i c p)
    leaves-Packed i c p now = record {
      unqueued = unqueued;
      taken = λ j d h o k lt. taken j d (ground (arith, now d)) (ground arith) k lt;
    }

    table-Packed :
        (k : ℕ) (f : SlotState → SlotState) (clock : ℕ)
        → ((t : SlotState) → t.busy ≡ true → (f t).busy ≡ true)
        → Packed n (record s {
          inner = record s.inner { slots = modify s.inner.slots k f; clock = clock };
        })
    table-Packed k f clock keeps = record {
      unqueued = unqueued;
      taken = λ j c h o p lt. busy_at-modify s.inner.slots k f p keeps (taken j c h o p lt);
    }

    joins-Packed :
        (i : ℕ)
        → ((k : ℕ) (t : SlotState) → get_elem? s.inner.slots k ≡ some t → t.busy ≡ true)
        → Packed n (settle s i (enqueue s.inner (hint i) s.next_channel) none)
    unfolding enqueue
    joins-Packed i busy =
        rw (unwanted, enqueue)
          (record {
            unqueued = unqueued;
            taken = λ j c h o k lt.
                let (t, e) = get_of_lt-length s.inner.slots k (omega (arith, q.size)) in
                ground (arith, busy k t e);
          })
      where
        unwanted : usable_preference s.inner (hint i) ≡ none
        unwanted = ap (λ m. wants m (hint i)) q.size ∙ free i

    Frees-Packed :
        (k : ℕ) (r : Inner × List ℕ) → Frees (receivers s) s.inner k r → Packed n (after_wake s r)
    Frees-Packed k r f = record {
      unqueued = λ j. elim (ℕ-cases k j) [
        | inl same ↦ rw (← same) f.own
        | inr other ↦ f.others j other ∙ unqueued j
      ];
      taken = λ i c h o p lt.
          let was : s.channel c ≡ open_ended = ground arith in
          let stands = q.general i c h was (free i) in
          let nobody : any (receivers s) (queue s.inner k) ≡ false =
            rw (unqueued k) (unfold any in refl) in
          absurd
            (ground (arith, f.woken, nobody, elem-filter (receivers s) c s.inner.global_waiters));
    }

  Step-Packed :
      {s t : System}
      → Step hint s t
      → length s.inner.slots ≤ 2 ^ 32
      → Queued hint n s
      → Packed n s
      → Packed n t
  unfolding attempt claim finish reconcile mark_resident clear_resident elem
  Step-Packed {s = s} (locks i e) fits q h =
      elim (admit_locked_cases s.inner (hint i) s.next_channel fits) [
        | inl (r, busy) ↦ rw r (
            joins-Packed q h i
              (λ k t found. busy k t found (inl (ap (λ m. wants m (hint i)) q.size ∙ free i))))
        | inr (a, t, g) ↦ rw g.result (
            moves-Packed
              (table-Queued q a.slot_id (claimed (u64 (s.inner.clock + 1))) _ (λ t b. refl))
              (table-Packed q h a.slot_id (claimed (u64 (s.inner.clock + 1))) _ (λ t b. refl)) i
              (holding a) (λ c h. cc))
      ]
  Step-Packed (wakes i c e signalled) fits q h = moves-Packed q h i locking (λ c h. cc)
  Step-Packed (expires i c e waits) fits q h = leaves-Packed q h i c timed_out (λ c h. cc)
  Step-Packed (hangs_up i c e) fits q h = leaves-Packed q h i c gone (λ c h. cc)
  Step-Packed {s = s} (finishes i a e) fits q h =
      let ended = moves-Packed q h i gone (λ c h. cc) in
      elim (release_cases (receivers s) s.inner a.slot_id) [
        | inl (same, _) ↦ rw same ended
        | inr f ↦ Frees-Packed (moves-Queued q i gone (λ c h. cc)) ended a.slot_id _ f
      ]
  Step-Packed {s = s} (reconciles k) fits q h = elim (reconcile_cases (receivers s) s.inner k) [
    | inl (same, _) ↦ rw same h
    | inr (t, _, _, f) ↦ Frees-Packed q h k _ f
  ]
  Step-Packed (marks k model prefix) fits q h = table-Packed q h k _ _ (λ t b. b)
  Step-Packed (clears k) fits q h = table-Packed q h k _ _ (λ t b. b)

  Reach-Packed :
      {processing : List ℕ} {s : System} → n ≤ 2 ^ 32 → Reach hint n processing s → Packed n s
  Reach-Packed {processing} small start = init-Packed n processing
  Reach-Packed small (later r st) =
      Step-Packed st (Reach-Inv small r).fits (Reach-Queued small r) (Reach-Packed small r)

  -- If no request insists on a slot in range, then in every reachable state every slot is busy as
  -- long as some request waits and has not been woken: no capacity idles beside a queue.
  pub busy_while_anyone_waits :
      {processing : List ℕ} {s : System}
      → n ≤ 2 ^ 32
      → Reach hint n processing s
      → (i c : ℕ) → s.stage i ≡ waiting c
      → s.channel c ≡ open_ended
      → (k : ℕ) → k < n
      → busy_at s.inner.slots k ≡ true
  busy_while_anyone_waits small r = (Reach-Packed small r).taken
