-- ===== src/Server/Handlers/RoundTrip.antt =====
-- src/server.rs and src/gpu_lock.rs: a lease's id goes to the client and comes back.
use aivyx_broker.Prelude.{
  ℕ, ◌≡◌, ◌≢◌, refl, ap, ◌∙◌, Bool, Result, none, some, Option, List, [], ok, arith,
}
use aivyx_broker.Http.{Response, empty, error, lease_id}
use aivyx_broker.GpuLock
use aivyx_broker.GpuLock.{GpuLockError, UuidText, to_string, from_text, acquire_locked}
use aivyx_broker.GpuLock.Release.{
  Freed, acquire_free, release_valid, release_invalid, wake_all-Freed, released,
}
use aivyx_broker.Server.Handlers.{gpu_lock_acquire, gpu_lock_release, answer_release}

abbrev pub unknown : Response
unknown = record { status = 404; body = error "lease not found, already released, or expired" }

abbrev answered :
    GpuLock.Inner × List ℕ × Result (Unit {0}) GpuLockError
    → GpuLock.Inner × List ℕ × Option Response
answered (after, woken, result) = (after, woken, answer_release result)

module _ (U : UuidText) (receiving : ℕ → Bool) (inner : GpuLock.Inner) where
  -- The handler passes the lease whose text it is given to the lock.
  release_of-text :
      (lease : ℕ)
      → gpu_lock_release (from_text U) receiving inner (to_string U lease)
        ≡ answered (GpuLock.release receiving inner lease)
  unfolding gpu_lock_release
  release_of-text lease = ground (arith, U.parse-print lease)

module _ (U : UuidText) (receiving : ℕ → Bool) (inner : GpuLock.Inner) where
  module _ (lease now : ℕ) where
    abbrev taken : GpuLock.Inner
    taken = record inner { held = some (record { lease = lease; acquired_at = now }) }

    comes_back : gpu_lock_release (from_text U) receiving taken (to_string U lease) ≡ (
      (released receiving inner).0,
      (released receiving inner).1,
      some (record { status = 200; body = empty }),
    )
    comes_back =
        release_of-text U receiving taken lease
        ∙ ap answered (release_valid receiving taken lease _ refl refl)

    is_unknown :
        (other : ℕ)
        → lease ≢ other
        → gpu_lock_release (from_text U) receiving taken (to_string U other)
          ≡ (taken, [], some unknown)
    is_unknown other apart =
        release_of-text U receiving taken other
        ∙ ap answered (release_invalid receiving taken other _ refl apart)

-- Where the text of a UUID parses back: a client that acquires the free lock is answered 200 with the
-- text of its lease's id. When it sends that text back, the answer is 200, the lock is free again,
-- and every live waiter that queued up before is woken; the text of any other id is answered 404 and
-- leaves the lock with the client.
pub acquire-release :
    (U : UuidText) (receiving : ℕ → Bool) (inner : GpuLock.Inner) (lease other now tx : ℕ)
    → inner.held ≡ none
    → lease ≢ other
    → let (taken, granted) = acquire_locked inner lease now tx in
      let (freed, woken, answer) =
        gpu_lock_release (from_text U) receiving taken (to_string U lease) in
      (granted ≡ some lease)
      × (gpu_lock_acquire U (ok lease)
          ≡ some (record { status = 200; body = lease_id (to_string U lease) }))
      × (answer ≡ some (record { status = 200; body = empty }))
      × Freed receiving inner freed woken
      × (gpu_lock_release (from_text U) receiving taken (to_string U other)
          ≡ (taken, [], some unknown))
unfolding gpu_lock_acquire
acquire-release U receiving inner lease other now tx free apart =
    rw (acquire_free inner lease now tx free) (
      refl,
      refl,
      rw (comes_back U receiving inner lease now) refl,
      rw (comes_back U receiving inner lease now) (wake_all-Freed receiving inner),
      is_unknown U receiving inner lease now other apart,
    )
