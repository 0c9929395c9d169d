-- ===== src/GpuLock/Tenure.antt =====
-- src/gpu_lock.rs: how a holder loses the lock.
use aivyx_broker.Prelude.{ℕ, ◌-◌, ◌<◌, ◌≡◌, refl, ap, subst, ◌∙◌, ◌⊎◌, inl, inr, some}
use aivyx_broker.GpuLock.{Held}
use aivyx_broker.GpuLock.Release.{release_cases, reap_cases}
use aivyx_broker.GpuLock.System.{
  System, receivers, give_back, reap, Step, locks, wakes, expires, hangs_up, releases, reaps,
}
use aivyx_broker.GpuLock.Safety.{attempt_held}

module _ (max_hold : ℕ) where
  -- The holder still holds the lock, or it gave the lock back, or the reaper took the lock after
  -- the longest hold.
  abbrev pub KeptOrEnded : System → System → Held → Type 0
  KeptOrEnded s t h =
      (t.inner.held ≡ some h)
      ⊎ (t ≡ give_back s h.lease)
      ⊎ ((now : ℕ) × (t ≡ reap max_hold s now) × (max_hold < now - h.acquired_at))

  -- A holder loses the lock in two ways only: its own lease is released, or the lock is reaped after
  -- it was held longer than `max_hold`. No other client's acquiring, waiting, leaving or releasing
  -- takes the lock from it.
  pub holder_keeps_lock :
      {s t : System} → Step max_hold s t → (h : Held) → s.inner.held ≡ some h → KeptOrEnded s t h
  unfolding give_back reap
  holder_keeps_lock {s} (locks i fresh now at unused) h e =
      inl (ap (λ x. x.inner.held) (attempt_held s i fresh now h e) ∙ e)
  holder_keeps_lock (wakes i c at signalled) h e = inl e
  holder_keeps_lock (expires i c at waits) h e = inl e
  holder_keeps_lock (hangs_up i c at) h e = inl e
  holder_keeps_lock {s} (releases l) h e = elim (release_cases (receivers s) s.inner l) [
    | inl ((g, q, p), _, f) ↦
        let same : l ≡ h.lease = cc (p, q, e) in inr (inl (ap (give_back s) same))
    | inr (_, q) ↦ inl (ap (λ r. r.0.held) q ∙ e)
  ]
  holder_keeps_lock {s} (reaps now) h e = elim (reap_cases (receivers s) s.inner max_hold now) [
    | inl (g, q, late, f) ↦
        let same : g ≡ h = cc (q, e) in
        inr (inr (now, refl, subst (λ x. max_hold < now - x.acquired_at) same late))
    | inr (_, q) ↦ inl (ap (λ r. r.0.held) q ∙ e)
  ]
