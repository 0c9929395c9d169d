-- ===== src/GpuLock/Progress.antt =====
-- src/gpu_lock.rs: a client that waits gets the lock, whether its holder gives it back or not.
use aivyx_broker.Prelude.{
  ℕ, ◌+◌, ◌<◌, ◌≡◌, refl, inl, inr, false, some, List, arith, update, update_self, elem,
  elem-filter,
}
use aivyx_broker.Channels.{open_ended, sent}
use aivyx_broker.GpuLock.{Held, Inner}
use aivyx_broker.GpuLock.Release.{Valid, Freed, release_cases, reap_cases}
use aivyx_broker.GpuLock.Safety.{attempt_free, Reach-Inv}
use aivyx_broker.GpuLock.System.{
  locking, waiting, leased, System, receivers, attempt, after_wake, give_back, reap, Step, locks,
  wakes, releases, reaps, Reach,
}

abbrev pub retry : System → ℕ → System
retry s i = record s { stage = update s.stage i locking }

-- From `t` on, client `i` is woken from channel `c`, tries again, and is granted the lease.
pub record Grants (max_hold i c lease now : ℕ) (t : System) : Type 0 where
  pub wakes_up : Step max_hold t (retry t i)
  pub tries : Step max_hold (retry t i) (attempt (retry t i) i lease now)
  pub has_lease : (attempt (retry t i) i lease now).stage i ≡ leased lease
  pub is_valid : Valid (attempt (retry t i) i lease now).inner lease

module _ {max_hold : ℕ} {s : System} (r : Reach max_hold s) (i c lease now : ℕ)
    (waits : s.stage i ≡ waiting c) (sleeps : s.channel c ≡ open_ended)
    (fresh : elem lease s.issued ≡ false) where
  freed-Grants :
      (inner : Inner) (woken : List ℕ)
      → Freed (receivers s) s.inner inner woken
      → Grants max_hold i c lease now (after_wake s inner woken)
  freed-Grants inner woken f =
      let t = after_wake s inner woken in
      let (stands, _) = (Reach-Inv r).queued i c waits sleeps in
      let signalled : t.channel c ≡ sent =
        ground (arith, f.all_woken, elem-filter (receivers s) c s.inner.waiters, stands, sleeps) in
      let granted = attempt_free (retry t i) i lease now f.free in
      record {
        wakes_up = wakes i c waits signalled;
        tries = locks i lease now (update_self t.stage i locking) fresh;
        has_lease = rw (granted, update_self) refl;
        is_valid = rw granted (record { lease = lease; acquired_at = now }, refl, refl);
      }

  module _ (h : Held) (held : s.inner.held ≡ some h) where
    give_back-Grants : Grants max_hold i c lease now (give_back s h.lease)
    unfolding give_back
    give_back-Grants = elim (release_cases (receivers s) s.inner h.lease) [
      | inl (_, _, f) ↦ freed-Grants _ _ f
      | inr (invalid, _) ↦ absurd (invalid (h, held, refl))
    ]

    reap-Grants :
        h.acquired_at + max_hold < now → Grants max_hold i c lease now (reap max_hold s now)
    unfolding reap
    reap-Grants late = elim (reap_cases (receivers s) s.inner max_hold now) [
      | inl (_, _, _, f) ↦ freed-Grants _ _ f
      | inr (within, _) ↦ absurd (ground (arith, within h held))
    ]

-- In every reachable state in which a client waits, unwoken: at any time a release with the holder's
-- lease wakes the client, and so does the reaper at any time after the longest hold; when the client
-- then tries again, with an id that was never issued, it is granted that lease, and the lease is
-- valid.
pub waiter-Grants :
    {max_hold : ℕ} {s : System}
    → Reach max_hold s
    → (i c lease now later : ℕ) (h : Held) → s.stage i ≡ waiting c
    → s.channel c ≡ open_ended
    → elem lease s.issued ≡ false
    → s.inner.held ≡ some h
    → h.acquired_at + max_hold < later
    → (Step max_hold s (give_back s h.lease) × Grants max_hold i c lease now (give_back s h.lease))
      × (Step max_hold s (reap max_hold s later)
          × Grants max_hold i c lease later (reap max_hold s later))
waiter-Grants r i c lease now later h waits sleeps fresh held late = (
  (releases h.lease, give_back-Grants r i c lease now waits sleeps fresh h held),
  (reaps later, reap-Grants r i c lease later waits sleeps fresh h held late),
)
