-- ===== src/Broker/Served.antt =====
-- The composition: a request that waits can still get its slot.
use aivyx_broker.Prelude.{
  ℕ, ◌<◌, ◌^◌, ◌≤◌, ◌≡◌, refl, ◌∙◌, inl, inr, ◌⊎◌, true, false, Option, none, some, List,
  update_self, arith, get_of_lt-length,
}
use aivyx_broker.Channels.{open_ended}
use aivyx_broker.Scheduler.{Inner, SlotState, SlotHint, Admission, usable_preference}
use aivyx_broker.Scheduler.Choice.{Reason, preferred, resident, least_recent}
use aivyx_broker.Scheduler.Slots.{admit_locked_cases}
use aivyx_broker.Scheduler.System.{holding, waiting, locking, attempt}
use aivyx_broker.Scheduler.System.Holding
use aivyx_broker.Scheduler.System.Holding.{busy_at, seeded_at}
use aivyx_broker.Scheduler.System.Waiting.{wants, wants-lt, wants_lem, Reach-Queued, no_lost_wakeup}
use aivyx_broker.Scheduler.System.Sharing.{busy_while_anyone_waits}
use aivyx_broker.Broker.{World, Broker, hint, admit, admits, wakes, Reach, later}
use aivyx_broker.Broker.Refinement.{Reach-Sound}
use aivyx_broker.Broker.Steps.{
  Waits, Steps, here, on, Steps-append, Steps-Reach, receiving_cases, vacates,
}

Reason-slot :
    (inner : Inner) (h : Option SlotHint) (a : Admission) (t : SlotState) (p : ℕ)
    → Reason inner h a t
    → usable_preference inner h ≡ some p
    → a.slot_id ≡ p
Reason-slot inner h a t p (preferred e) same = ground (arith, e, same)
Reason-slot inner h a t p (resident e _) same = cc
Reason-slot inner h a t p (least_recent e _) same = cc

-- The request may take slot `p`: it insists on it, or on none.
abbrev MayTake : ℕ → Option SlotHint → ℕ → Type 0
MayTake n h p = ((wants n h ≡ none) × (p < n)) ⊎ (wants n h ≡ some p)

MayTake-lt : (n : ℕ) (h : Option SlotHint) (p : ℕ) → MayTake n h p → p < n
MayTake-lt n h p (inl (_, less)) = less
MayTake-lt n h p (inr e) = wants-lt n h e

module _ {w : World} (n : ℕ) where
  -- Request `i` comes to hold a slot, and the one that it insists on if it does.
  pub record Served (b : Broker w) (i : ℕ) : Type 0 where
    pub final : Broker w
    pub admission : Admission
    pub steps : Steps b final
    pub holds : final.scheduler.stage i ≡ holding admission
    pub its_slot : (p : ℕ) → wants n (hint w i) ≡ some p → admission.slot_id ≡ p

  begins : {b d : Broker w} {i : ℕ} → Steps b d → Served d i → Served b i
  begins steps served = record {
    final = served.final;
    admission = served.admission;
    steps = Steps-append steps served.steps;
    holds = served.holds;
    its_slot = served.its_slot;
  }

  module _ {processing : List ℕ} (small : n ≤ 2 ^ 32) (i p : ℕ) (may : MayTake n (hint w i) p) where
    -- A request at the mutex that may take an idle slot is admitted.
    admitted_if_free :
        (b : Broker w)
        → Reach w n processing b
        → b.scheduler.stage i ≡ locking
        → busy_at b.scheduler.inner.slots p ≡ false
        → Served b i
    unfolding admit attempt
    admitted_if_free b r locks free =
        let inner = b.scheduler.inner in
        let reach = (Reach-Sound w small r).reach in
        let queued = Reach-Queued small reach in
        let same = wants_lem queued i in
        let (t, found) =
          get_of_lt-length inner.slots p
            (omega (arith, queued.size, MayTake-lt n (hint w i) p may)) in
        elim (admit_locked_cases inner (hint w i) b.scheduler.next_channel
          (Holding.Reach-Inv small reach).fits) [
            | inl (_, taken) ↦
                let for_it : (usable_preference inner (hint w i) ≡ none)
                    ⊎ (usable_preference inner (hint w i) ≡ some p) =
                  elim may [ inl (e, _) ↦ inl (same ∙ e) | inr e ↦ inr (same ∙ e) ] in
                absurd (ground (arith, found, free, taken p t found for_it))
            | inr (a, t, g) ↦ record {
              final = admit w b i;
              admission = a;
              steps = on (admits i locks) here;
              holds = rw (g.result, update_self) refl;
              its_slot = λ q e. Reason-slot inner (hint w i) a t q g.reason (same ∙ e);
            }
          ]

    -- A waiter that may take an idle slot retries and is admitted, if it was woken.
    retries_if_free :
        (b : Broker w) (c : ℕ)
        → Reach w n processing b
        → Waits b.scheduler i c
        → (b.scheduler.channel c ≡ open_ended → busy_at b.scheduler.inner.slots p ≡ true)
        → busy_at b.scheduler.inner.slots p ≡ false
        → Served b i
    retries_if_free b c r (waits, receives) asleep free =
        elim (receiving_cases (b.scheduler.channel c) receives) [
          | inl sleeps ↦ absurd (ground (arith, asleep sleeps, free))
          | inr woken ↦
              let st = wakes i c waits woken in
              begins (on st here)
                (admitted_if_free _ (later r st) (update_self b.scheduler.stage i locking) free)
        ]

    -- If the slot is busy whenever the waiter sleeps, the waiter can be served.
    waiter_of_busy-Served :
        ((b : Broker w) (c : ℕ)
          → Reach w n processing b
          → b.scheduler.stage i ≡ waiting c
          → b.scheduler.channel c ≡ open_ended
          → busy_at b.scheduler.inner.slots p ≡ true)
        → (b : Broker w) (c : ℕ) → Reach w n processing b
        → b.scheduler.stage i ≡ waiting c
        → b.scheduler.channel c ≡ open_ended
        → Served b i
    waiter_of_busy-Served busy b c r waits sleeps =
        let (d, steps, (waits', receives), free) =
          vacates b i c p small r (waits, rw sleeps refl) (busy b c r waits sleeps) in
        let r' = Steps-Reach steps r in
        begins steps (retries_if_free d c r' (waits', receives) (busy d c r' waits') free)

  module _ {processing : List ℕ} (small : n ≤ 2 ^ 32) (i c : ℕ) {b : Broker w}
      (r : Reach w n processing b) (waits : b.scheduler.stage i ≡ waiting c)
      (sleeps : b.scheduler.channel c ≡ open_ended) where
    -- From every reachable state of a broker with at most 2^32 slots in which a request waits, unwoken,
    -- for a slot in range that its hint insists on, there are steps after which it holds that slot.
    pub waiter-Served : (p : ℕ) → wants n (hint w i) ≡ some p → Served b i
    waiter-Served p insists =
        waiter_of_busy-Served small i p (inr insists)
          (λ b c r h o. (no_lost_wakeup small (Reach-Sound w small r).reach i c p h o insists).1) b
          c r waits sleeps

    -- If no request insists on a slot in range, and there are slots but at most 2^32, then from every
    -- reachable state in which a request waits, unwoken, there are steps after which it holds a slot.
    pub any_waiter-Served : 0 < n → ((j : ℕ) → wants n (hint w j) ≡ none) → Served b i
    any_waiter-Served some_slot nobody =
        waiter_of_busy-Served small i 0 (inl (nobody i, some_slot))
          (λ b c r h o.
            busy_while_anyone_waits nobody small (Reach-Sound w small r).reach i c h o 0 some_slot)
          b c r waits sleeps
