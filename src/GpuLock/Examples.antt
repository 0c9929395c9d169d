-- ===== src/GpuLock/Examples.antt =====
-- Runs of src/gpu_lock.rs, and its theorems at concrete inputs.
use aivyx_broker.Prelude.{arith, ℕ, ◌≡◌, refl, Bool, true, false, none, some, [], ◌∷◌, elem, ok}
use aivyx_broker.Channels.{open_ended}
use aivyx_broker.GpuLock.{Inner, acquire_locked, wake_all, release, reap_expired}
use aivyx_broker.GpuLock.Release.{Valid}
use aivyx_broker.GpuLock.System.{
  locking, waiting, leased, System, attempt, give_back, init, reap, Step, locks, releases, Reach,
  start, later,
}
use aivyx_broker.GpuLock.Tenure.{KeptOrEnded, holder_keeps_lock}
use aivyx_broker.GpuLock.Progress.{Grants, waiter-Grants}

abbrev everybody : ℕ → Bool
everybody c = true

-- Lease 7 was acquired at time 100; channels 4 and 5 wait.
abbrev busy_lock : Inner
busy_lock = record { held = some (record { lease = 7; acquired_at = 100 }); waiters = 4 ∷ 5 ∷ [] }

release_wakes_both :
    release everybody busy_lock 7 ≡ (record { held = none; waiters = [] }, 4 ∷ 5 ∷ [], ok tt)
unfolding release wake_all
release_wakes_both = refl

reap_at_the_limit :
    (reap_expired everybody 900 busy_lock 1000 ≡ (busy_lock, []))
    × ((reap_expired everybody 900 busy_lock 1001).0.held ≡ none)
unfolding reap_expired wake_all
reap_at_the_limit = (refl, refl)

abbrev one_leased : System
one_leased = attempt init 0 7 100

abbrev one_waits : System
one_waits = attempt one_leased 1 8 200

one_leased_stage :
    (one_leased.stage 0 ≡ leased 7)
    × (one_leased.stage 1 ≡ locking)
    × (elem 8 one_leased.issued ≡ false)
unfolding attempt acquire_locked elem
one_leased_stage = (refl, refl, refl)

one_leased-Valid : Valid one_leased.inner 7
unfolding attempt acquire_locked
one_leased-Valid = (record { lease = 7; acquired_at = 100 }, refl, refl)

one_leased_reached : Reach 900 one_leased
unfolding elem
one_leased_reached = later start (locks 0 7 100 refl refl)

one_waits_stage : (one_waits.stage 1 ≡ waiting 0) × (one_waits.channel 0 ≡ open_ended)
unfolding attempt acquire_locked
one_waits_stage = (refl, refl)

-- Lease 7 was released; a late second release of it changes nothing.
abbrev returned : System
returned = give_back one_leased 7

returned_dead : (elem 7 returned.issued ≡ true) × (returned.inner.held ≡ none)
unfolding give_back release wake_all attempt acquire_locked elem
returned_dead = (refl, refl)

-- Another client's wrong release leaves lease 7 in place.
holder_keeps_lock_example :
    KeptOrEnded 900 one_leased (give_back one_leased 8) (record { lease = 7; acquired_at = 100 })
unfolding attempt acquire_locked
holder_keeps_lock_example =
    holder_keeps_lock 900 (releases 8) (record { lease = 7; acquired_at = 100 }) refl

-- Client 1 waits for lease 7, taken at 100. It is granted lease 9 at 300, after a release, or at 1,001,
-- after the reaper.
waiter-Grants_example :
    (Step 900 one_waits (give_back one_waits 7) × Grants 900 1 0 9 300 (give_back one_waits 7))
    × (Step 900 one_waits (reap 900 one_waits 1001)
        × Grants 900 1 0 9 1001 (reap 900 one_waits 1001))
unfolding attempt acquire_locked elem
waiter-Grants_example =
    waiter-Grants (later one_leased_reached (locks 1 8 200 one_leased_stage.1 one_leased_stage.2)) 1
      0 9 300 1001 (record { lease = 7; acquired_at = 100 }) one_waits_stage.0 one_waits_stage.1
      refl refl (omega arith)
