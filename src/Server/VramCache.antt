-- ===== src/Server/VramCache.antt =====
-- src/server.rs, VramCache: the last GPU reading, with at most one probe at a time. `get` holds the
-- lock on `last` from its start to its end, so calls of it do not overlap; a probe that outlasts its
-- deadline goes on in its thread. Times are in milliseconds of one monotonic clock.
pub mod Reuse
pub mod Flight
use aivyx_broker.Prelude.{
  ℕ, ◌+◌, ◌-◌, Bool, true, false, ◌&&◌, Option, none, some, ltb, leb, if◌then◌else◌, ◌>>=◌,
  filter_option,
}
use aivyx_broker.Gpu.{Vram}
use aivyx_broker.Gpu.Deadline.{nvidia_smi_timeout}

abbrev pub residency_probe_deadline : ℕ
residency_probe_deadline = 2500

abbrev pub vram_cache_ttl : ℕ
vram_cache_ttl = 2000

abbrev pub vram_timeout_backoff : ℕ
vram_timeout_backoff = 30000

pub record VramReading : Type 0 where
  pub taken : ℕ
  pub vram : Option Vram
  pub fresh_for : ℕ

pub record VramCache : Type 0 where
  pub last : Option VramReading
  pub in_flight : Bool

-- `VramCache::default`
abbrev pub default : VramCache
default = record { last = none; in_flight = false }

-- How a probe ends, if one is started: it returns in time, after `elapsed` (with `none` for a panic
-- of its thread), or the deadline passes and its thread goes on.
pub data Outcome : Type 0 where
  returned : (elapsed : ℕ) → Option (Option Vram) → Outcome
  outlasted : (elapsed : ℕ) → Outcome

abbrev pub is_fresh : ℕ → VramReading → Bool
is_fresh now reading = ltb (now - reading.taken) reading.fresh_for

abbrev pub is_recent : ℕ → VramReading → Bool
is_recent now reading = ltb (now - reading.taken) vram_timeout_backoff

-- `joined.ok().flatten()`
abbrev pub flatten : Option (Option Vram) → Option Vram
flatten joined = joined >>= λ vram. vram

-- A probe that came back with nothing, and did not panic.
abbrev pub is_nothing : Option (Option Vram) → Bool
is_nothing (some none) = true
is_nothing _ = false

-- The reading after a probe that was started at `now`.
abbrev pub reading_of : ℕ → Outcome → VramReading
reading_of now (returned elapsed joined) =
    if leb nvidia_smi_timeout elapsed && is_nothing joined
    then record { taken = now + elapsed; vram = none; fresh_for = vram_timeout_backoff }
    else record { taken = now + elapsed; vram = flatten joined; fresh_for = vram_cache_ttl }
reading_of now (outlasted elapsed) = record {
  taken = now + elapsed;
  vram = none;
  fresh_for = vram_timeout_backoff;
}

-- The flag after the call: a probe that returned has dropped its guard.
abbrev pub still_out : Outcome → Bool
still_out (returned elapsed joined) = false
still_out (outlasted elapsed) = true

-- The part of `get` for a reading that is not fresh: the cache after it, the answer, and whether a
-- probe was started.
unfoldable pub get_stale : VramCache → ℕ → Outcome → VramCache × Option Vram × Bool
get_stale cache now outcome =
    if cache.in_flight
    then (cache, filter_option (is_recent now) cache.last >>= λ r. r.vram, false)
    else (
      record { last = some (reading_of now outcome); in_flight = still_out outcome },
      (reading_of now outcome).vram,
      true,
    )

unfoldable pub get : VramCache → ℕ → Outcome → VramCache × Option Vram × Bool
unfolding get_stale
get cache now outcome = elim (filter_option (is_fresh now) cache.last) [
  | some reading ↦ (cache, reading.vram, false)
  | none ↦ get_stale cache now outcome
]

-- `InFlight::drop`: a thread that outlasted its deadline returns at last.
abbrev pub drop_in_flight : VramCache → VramCache
drop_in_flight cache = record cache { in_flight = false }
