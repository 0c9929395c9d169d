-- ===== src/Main/Reaping.antt =====
-- src/main.rs, reap_expired_gpu_lock: a lease that is never given back.
use aivyx_broker.Prelude.{
  List, ℕ, zero, suc, ◌+◌, ◌-◌, ◌/◌, ◌≤◌, ◌<◌, ◌≡◌, subst, ap, ◌∙◌, Bool, some, [], arith, inl, inr,
}
use aivyx_broker.GpuLock.{Held, Inner, reap_expired}
use aivyx_broker.GpuLock.Release.{Freed, reap_cases}
use aivyx_broker.Main.{tick, reconcile_interval, reap_expired_gpu_lock}

module _ (receiving : ℕ → Bool) (max_hold : ℕ) (h : Held) where
  reap-early :
      (inner : Inner) (now : ℕ)
      → inner.held ≡ some h
      → now ≤ h.acquired_at + max_hold
      → reap_expired receiving max_hold inner now ≡ (inner, [])
  reap-early inner now held early = elim (reap_cases receiving inner max_hold now) [
    | inr (_, kept) ↦ kept
    | inl (g, e, late, _) ↦ ground (arith, e, held)
  ]

  reap-late :
      (inner : Inner) (now : ℕ)
      → inner.held ≡ some h
      → h.acquired_at + max_hold < now
      → Freed receiving inner
          (reap_expired receiving max_hold inner now).0
          (reap_expired receiving max_hold inner now).1
  reap-late inner now held late = elim (reap_cases receiving inner max_hold now) [
    | inl (g, e, _, freed) ↦ freed
    | inr (within, _) ↦ ground (arith, within h held)
  ]

  module _ (others : ℕ → Inner → Inner) (inner : Inner) (start : ℕ) where
    -- The lock and the woken channels after tick `n`, and the lock when the next tick fires.
    abbrev pub after_tick : ℕ → Inner × List ℕ
    after_tick n = reap_expired_gpu_lock receiving max_hold others inner start n

    abbrev pub fires : ℕ → Inner
    fires n = others (suc n) (after_tick n).0

    module _ (m : ℕ) (granted : (fires m).held ≡ some h) (since : tick start m ≤ h.acquired_at)
        (keep : (n : ℕ) (i : Inner)
          → m < n
          → i.held ≡ some h
          → (others (suc n) i).held ≡ some h) where
      -- The ticks before the lease is too old leave it in place.
      still_held :
          (d : ℕ) → tick start (m + d) ≤ h.acquired_at + max_hold → (fires (m + d)).held ≡ some h
      unfolding reap_expired_gpu_lock
      still_held zero e =
          let same : m ≡ m + 0 = omega arith in subst (λ n. (fires n).held ≡ some h) same granted
      still_held (suc d) e =
          let before = still_held d (omega arith) in
          let kept = reap-early (fires (m + d)) (tick start (suc (m + d))) before (omega arith) in
          let same : suc (m + d) ≡ m + suc d = omega arith in
          subst (λ n. (fires n).held ≡ some h) same
            (keep (suc (m + d)) _ (omega arith) (ap (λ r. r.0.held) kept ∙ before))

      -- A lease that is granted after a tick of the reaper, and that other clients leave in place from
      -- then on, is taken back by the loop at most one `RECONCILE_INTERVAL` after its longest hold:
      -- it still holds the lock when that tick fires, and after the tick the lock is free and every
      -- live waiter is woken.
      pub reap_expired_gpu_lock-Bounded :
          (n : ℕ) × (h.acquired_at + max_hold < tick start (suc n))
          × (tick start (suc n) ≤ h.acquired_at + max_hold + reconcile_interval)
          × ((fires n).held ≡ some h)
          × Freed receiving (fires n) (after_tick (suc n)).0 (after_tick (suc n)).1
      unfolding reap_expired_gpu_lock
      reap_expired_gpu_lock-Bounded =
          let d = (h.acquired_at + max_hold - tick start m) / reconcile_interval in
          let late : h.acquired_at + max_hold < tick start (suc (m + d)) = omega arith in
          let bound : tick start (suc (m + d)) ≤ h.acquired_at + max_hold + reconcile_interval =
            omega arith in
          let before = still_held d (omega arith) in
          (
            m + d,
            late,
            bound,
            before,
            reap-late (fires (m + d)) (tick start (suc (m + d))) before late,
          )
