-- ===== src/GpuLock/Deadline.antt =====
-- src/gpu_lock.rs, `acquire` over time: one call, with what its rounds find under the lock.
use aivyx_broker.Prelude.{
  ℕ, suc, ◌+◌, ◌≤◌, ◌<◌, ◌≡◌, ◌≢◌, refl, ap, sym, ◌∙◌, subst, ◌⊎◌, inl, inr, Option, none, some,
  arith, Option-cases,
}
use aivyx_broker.Channels.Deadline.{
  Wake, dropped, Outcome, granted, timed_out, retry, Ticks, time, tried_at, before_last, upto_last,
  retry-Ends,
}
use aivyx_broker.GpuLock.{Inner, acquire_locked}

-- The state that a round finds, the lease id and the channel that it makes, and what becomes of the
-- channel.
module _ (inner : ℕ → Inner) (lease tx : ℕ → ℕ) (wake : ℕ → Wake) where
  abbrev answer : ℕ → ℕ → Option ℕ
  answer round now = (acquire_locked (inner round) (lease round) now (tx round)).1

  unfoldable pub acquire : (queue_timeout now : ℕ) → Outcome ℕ
  unfolding retry
  acquire queue_timeout now = retry answer wake queue_timeout now

  -- In each of the first rounds, somebody held the lock.
  abbrev pub HeldUp : ℕ → Type 0
  HeldUp n = (j : ℕ) → j < n → (inner j).held ≢ none

  abbrev pub LeasedIn : (deadline : ℕ) → Outcome ℕ → Type 0
  LeasedIn deadline outcome =
      (round now : ℕ) × (outcome ≡ granted (lease round) now)
      × (now ≤ deadline)
      × ((inner round).held ≡ none)
      × HeldUp round

  abbrev pub TimedOutBy : (deadline : ℕ) → Outcome ℕ → Type 0
  TimedOutBy deadline outcome =
      (round now : ℕ) × (outcome ≡ timed_out now)
      × ((now ≡ deadline) ⊎ ((now ≤ deadline) × (delay : ℕ) × (wake round ≡ dropped delay)))
      × HeldUp (suc round)

  held_up : (round now : ℕ) → answer round now ≡ none → (inner round).held ≢ none
  unfolding acquire_locked
  held_up round now e n = ground (arith, e, n)

  leased :
      (round now l : ℕ)
      → answer round now ≡ some l
      → ((inner round).held ≡ none) × (lease round ≡ l)
  unfolding acquire_locked
  leased round now l e = elim (Option-cases (inner round).held) [
    | inl n ↦ (n, ground (arith, e, n))
    | inr (h, q) ↦ absurd (ground (arith, e, q))
  ]

  module _ (queue_timeout now : ℕ) where
    -- Where a wake signal takes time: a call of `acquire` returns by its deadline, however often it
    -- is woken in vain. It returns the lease of its first round that finds the lock free, or it
    -- times out, at the deadline unless its sender was dropped, and then the lock was held in each
    -- of its rounds.
    pub acquire-Ends :
        Ticks answer wake
        → LeasedIn (now + queue_timeout) (acquire queue_timeout now)
          ⊎ TimedOutBy (now + queue_timeout) (acquire queue_timeout now)
    unfolding acquire
    acquire-Ends ticks =
        let ends = retry-Ends answer wake queue_timeout now ticks in
        let last = ends.last in
        let at = time answer wake 0 now last in
        let earlier = before_last answer wake (λ j. (inner j).held ≢ none) held_up ends in
        elim ends.ended [
          | inl (l, e, is) ↦
              let (free, same) = leased last at l (tried_at answer wake now last e) in
              inl (last, at, is ∙ ap (λ x. granted x at) (sym same), ends.in_time, free, earlier)
          | inr (inl (e, is)) ↦ inr (
            last,
            now + queue_timeout,
            is,
            inl refl,
            upto_last answer wake (λ j. (inner j).held ≢ none) held_up ends e,
          )
          | inr (inr (delay, e, drops, le, is)) ↦ inr (
            last,
            at + delay,
            is,
            inr (le, delay, subst (λ x. wake x ≡ dropped delay) (omega arith) drops),
            upto_last answer wake (λ j. (inner j).held ≢ none) held_up ends e,
          )
        ]
