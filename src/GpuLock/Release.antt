-- ===== src/GpuLock/Release.antt =====
-- src/gpu_lock.rs: what each critical section does, on all its branches.
use aivyx_broker.Prelude.{
  ℕ, ◌-◌, ◌≤◌, ◌<◌, ◌≡◌, refl, sym, ◌∙◌, ◌⊎◌, inl, inr, ◌≢◌, Bool, none, some, List, [], ◌∷◌, ◌++◌,
  arith, ltb, ok, err, filter, Option-cases, Bool-cases, ℕ-cases,
}
use mathlib.Core.List.{append_assoc, append-nil}
use aivyx_broker.GpuLock.{
  unknown_lease, Held, Inner, acquire_locked, send_all, wake_all, release, reap_expired,
}

-- The lease is the one that holds the lock.
abbrev pub Valid : Inner → ℕ → Type 0
Valid inner lease = (h : Held) × (inner.held ≡ some h) × (h.lease ≡ lease)

module _ (inner : Inner) (lease now tx : ℕ) where
  pub acquire_free :
      inner.held ≡ none
      → acquire_locked inner lease now tx
        ≡ (record inner { held = some (record { lease = lease; acquired_at = now }) }, some lease)
  unfolding acquire_locked
  acquire_free e = ground arith

  pub acquire_held :
      (h : Held)
      → inner.held ≡ some h
      → acquire_locked inner lease now tx
        ≡ (record inner { waiters = inner.waiters ++ tx ∷ [] }, none)
  unfolding acquire_locked
  acquire_held h e = ground arith

module _ (receiving : ℕ → Bool) where
  send_all_lem :
      (queue woken : List ℕ) → send_all receiving queue woken ≡ woken ++ filter receiving queue
  unfolding send_all filter
  send_all_lem [] woken = sym (append-nil woken)
  send_all_lem (tx ∷ queue) woken = elim (Bool-cases (receiving tx)) [
    | inl up ↦
        rw (up, send_all, filter)
          (send_all_lem queue (woken ++ tx ∷ [])
            ∙ append_assoc woken (tx ∷ []) (filter receiving queue))
    | inr down ↦ rw (down, send_all, filter) (send_all_lem queue woken)
  ]

  -- The lock is free, its queue is empty, and every live receiver of it was woken.
  pub record Freed (inner : Inner) (after : Inner) (woken : List ℕ) : Type 0 where
    pub free : after.held ≡ none
    pub emptied : after.waiters ≡ []
    pub all_woken : woken ≡ filter receiving inner.waiters

  pub wake_all-Freed :
      (inner : Inner)
      → Freed inner
          (wake_all receiving (record inner { held = none })).0
          (wake_all receiving (record inner { held = none })).1
  unfolding wake_all
  wake_all-Freed inner = record {
    free = refl;
    emptied = refl;
    all_woken = send_all_lem inner.waiters [];
  }

  module _ (inner : Inner) where
    abbrev pub released : Inner × List ℕ
    released = wake_all receiving (record inner { held = none })

    pub release_valid :
        (lease : ℕ) (h : Held)
        → inner.held ≡ some h
        → h.lease ≡ lease
        → release receiving inner lease ≡ (released.0, released.1, ok tt)
    unfolding release
    release_valid lease h e same = ground arith

    pub release_invalid :
        (lease : ℕ) (h : Held)
        → inner.held ≡ some h
        → h.lease ≢ lease
        → release receiving inner lease ≡ (inner, [], err unknown_lease)
    unfolding release
    release_invalid lease h e other = ground arith

    release_free :
        (lease : ℕ)
        → inner.held ≡ none
        → release receiving inner lease ≡ (inner, [], err unknown_lease)
    unfolding release
    release_free lease e = ground arith

    -- A release with the lease that holds the lock succeeds, frees the lock and wakes every live
    -- waiter; with any other lease it fails as unknown, and changes and wakes nothing.
    pub release_cases :
        (lease : ℕ)
        → let r = release receiving inner lease in
          (Valid inner lease × (r.2 ≡ ok tt) × Freed inner r.0 r.1)
          ⊎ (¬ Valid inner lease × (r ≡ (inner, [], err unknown_lease)))
    release_cases lease = elim (Option-cases inner.held) [
      | inl e ↦ inr ((λ (h, q, _). cc (q, e)), release_free lease e)
      | inr (h, e) ↦ elim (ℕ-cases h.lease lease) [
        | inl same ↦ inl (
          (h, e, same),
          rw (release_valid lease h e same),
          rw (release_valid lease h e same) (wake_all-Freed inner),
        )
        | inr other ↦ inr ((λ (g, q, p). other (cc (q, e, p))), release_invalid lease h e other)
      ]
    ]

    -- Reaping frees a lock that was held longer than `max_hold` and wakes every live waiter;
    -- a lock that is free, or held no longer than that, it leaves as it is and wakes nobody.
    pub reap_cases :
        (max_hold now : ℕ)
        → let r = reap_expired receiving max_hold inner now in
          ((h : Held) × (inner.held ≡ some h)
            × (max_hold < now - h.acquired_at)
            × Freed inner r.0 r.1)
          ⊎ (((h : Held) → inner.held ≡ some h → now - h.acquired_at ≤ max_hold)
              × (r ≡ (inner, [])))
    unfolding reap_expired
    reap_cases max_hold now = elim (Option-cases inner.held) [
      | inl e ↦ inr ((λ h q. cc (q, e)), ground arith)
      | inr (h, e) ↦ elim (Bool-cases (ltb max_hold (now - h.acquired_at))) [
        | inl late ↦
            let reaped : reap_expired receiving max_hold inner now ≡ released = ground arith in
            inl (h, e, ground arith, rw reaped (wake_all-Freed inner))
        | inr early ↦ inr ((λ g q. ground arith), ground arith)
      ]
    ]
