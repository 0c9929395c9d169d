-- ===== src/Server/Runs.antt =====
-- src/server.rs: the theorems on the VRAM cache and the other handlers at concrete inputs.
use aivyx_broker.Prelude.{
  suc, ℕ, ◌≤◌, ◌≡◌, refl, true, Option, none, some, [], ◌∷◌, Text, ok, codes, length, arith,
}
use aivyx_broker.Gpu.{Vram}
use aivyx_broker.GpuLock
use aivyx_broker.Http.{empty, lease_id}
use aivyx_broker.GpuLock.{UuidText, acquire_locked}
use aivyx_broker.GpuLock.Release.{Freed}
use aivyx_broker.Server.Handlers.RoundTrip.{unknown, acquire-release}
use aivyx_broker.Server.Handlers.{gpu_lock_acquire, gpu_lock_release}
use aivyx_broker.Server.Handlers.Answers.{Answered, gpu_lock_release-Answered}
use aivyx_broker.Server.VramCache.{Outcome, returned, outlasted, get, get_stale}
use aivyx_broker.Server.VramCache.Flight.{
  Sourced, get-Sourced, cancelled, System, call, called, init, Reach, start, step, single_flight,
}

abbrev card : Vram
card = record { total_bytes = 8000; used_bytes = 300 }

-- A probe answers at 1,005. A second one, started at 4,000, loses its caller and stays out.
abbrev read_once : System
read_once = call init 1000 (returned 5 (some (some card)))

abbrev still_probing : System
still_probing = record {
  cache = record read_once.cache { in_flight = true };
  threads = suc read_once.threads;
}

reach_probing : Reach still_probing
unfolding get get_stale
reach_probing =
    step (step start (called init 1000 (returned 5 (some (some card))))) (cancelled read_once refl)

get-Sourced_example : Sourced still_probing.cache 9000 (outlasted 2500) card
unfolding get get_stale
get-Sourced_example = get-Sourced still_probing reach_probing 9000 (outlasted 2500) card refl

-- A probe outlasts its deadline, and its thread is still out at the next call.
abbrev after_two_calls : System
after_two_calls = call (call init 0 (outlasted 2500)) 40000 (returned 5 none)

reach_two_calls : Reach after_two_calls
reach_two_calls =
    step (step start (called init 0 (outlasted 2500)))
      (called (call init 0 (outlasted 2500)) 40000 (returned 5 none))

single_flight_example :
    (after_two_calls.threads ≤ 1)
    × ((now : ℕ) (outcome : Outcome)
        → (get after_two_calls.cache now outcome).2 ≡ true
        → after_two_calls.threads ≡ 0)
single_flight_example = single_flight after_two_calls reach_two_calls

-- An id is read here as the number of its characters.
abbrev parse_uuid : Text → Option ℕ
parse_uuid [] = none
parse_uuid (c ∷ s) = some (length (c ∷ s))

abbrev held_lock : GpuLock.Inner
held_lock = record { held = some (record { lease = 7; acquired_at = 100 }); waiters = 4 ∷ [] }

gpu_lock_release-Answered_example :
    Answered parse_uuid
      (λ c. true)
      held_lock
      (codes "1234567")
      (gpu_lock_release parse_uuid (λ c. true) held_lock (codes "1234567"))
gpu_lock_release-Answered_example =
    gpu_lock_release-Answered parse_uuid (λ c. true) held_lock (codes "1234567")

-- An id of one character, which is its number.
abbrev parse_code : Text → Option ℕ
parse_code (c ∷ []) = some c
parse_code _ = none

abbrev one_code : UuidText
one_code = record { print = λ lease. lease ∷ []; parse = parse_code; parse-print = λ lease. refl }

abbrev free_lock : GpuLock.Inner
free_lock = record { held = none; waiters = 4 ∷ [] }

abbrev taken : GpuLock.Inner
taken = (acquire_locked free_lock 7 100 5).0

acquire-release_example :
    ((acquire_locked free_lock 7 100 5).1 ≡ some 7)
    × (gpu_lock_acquire one_code (ok 7) ≡ some (record { status = 200; body = lease_id (7 ∷ []) }))
    × ((gpu_lock_release parse_code (λ c. true) taken (7 ∷ [])).2
        ≡ some (record { status = 200; body = empty }))
    × Freed
        (λ c. true)
        free_lock
        (gpu_lock_release parse_code (λ c. true) taken (7 ∷ [])).0
        (gpu_lock_release parse_code (λ c. true) taken (7 ∷ [])).1
    × (gpu_lock_release parse_code (λ c. true) taken (8 ∷ []) ≡ (taken, [], some unknown))
acquire-release_example =
    acquire-release one_code (λ c. true) free_lock 7 8 100 5 refl (λ e. omega (arith, e))
