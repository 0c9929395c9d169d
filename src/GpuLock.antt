-- ===== src/GpuLock.antt =====
-- src/gpu_lock.rs: the lease-based exclusive lock for GPU work. `GpuLock` is a mutex around
-- `Inner`, and the longest hold; each method here is the body of one critical section. A lease id
-- is the 128-bit number of its UUID, and a sender the number of its channel. Times are those of
-- one monotonic clock; `now - t` stops at 0, as `elapsed` does.
pub mod Release
pub mod System
pub mod Deadline
pub mod Safety
pub mod Progress
pub mod Tenure
mod Examples
use aivyx_broker.Prelude.{
  ℕ, ◌-◌, ◌≡◌, Text, Bool, Option, none, some, List, [], ◌∷◌, ◌++◌, ltb, if◌then◌else◌, ◌==◌,
  Result, ok, err,
}

-- `LeaseId`, a wrapped `uuid::Uuid`; it is printed and parsed as that is.
abbrev pub LeaseId : Type 0
LeaseId = ℕ

-- The text form of a UUID and its parser, of the package uuid. What is printed parses back.
pub record UuidText : Type 0 where
  pub print : ℕ → Text
  pub parse : Text → Option ℕ
  pub parse-print : (lease : ℕ) → parse (print lease) ≡ some lease

-- `Display` of a `LeaseId`
abbrev pub to_string : UuidText → LeaseId → Text
to_string U lease = U.print lease

-- The id that a client names: `str::parse::<Uuid>` and `LeaseId::from`
abbrev pub from_text : UuidText → Text → Option LeaseId
from_text U body = U.parse body

pub data GpuLockError : Type 0 where
  timeout unknown_lease : GpuLockError

pub record Held : Type 0 where
  pub lease : LeaseId
  pub acquired_at : ℕ

pub record Inner : Type 0 where
  pub held : Option Held
  pub waiters : List ℕ

-- `GpuLock::new`
abbrev pub new : Inner
new = record { held = none; waiters = [] }

-- The locked part of one round of `acquire`, with the id that `LeaseId::new` would mint and the
-- channel that would be made: a lease, or a place in the queue.
unfoldable pub acquire_locked : Inner → ℕ → ℕ → ℕ → Inner × Option ℕ
acquire_locked inner lease now tx = elim inner.held [
  | none ↦ (record inner { held = some (record { lease = lease; acquired_at = now }) }, some lease)
  | some _ ↦ (record inner { waiters = inner.waiters ++ tx ∷ [] }, none)
]

module _ (receiving : ℕ → Bool) where
  -- `while let Some(tx) = waiters.pop_front()`, with the channels that were woken.
  unfoldable pub send_all : List ℕ → List ℕ → List ℕ
  send_all [] woken = woken
  send_all (tx ∷ queue) woken = send_all queue (if receiving tx then woken ++ tx ∷ [] else woken)

  unfoldable pub wake_all : Inner → Inner × List ℕ
  unfolding send_all
  wake_all inner = (record inner { waiters = [] }, send_all inner.waiters [])

  -- The new state, the channels woken, and the answer.
  unfoldable pub release : Inner → ℕ → Inner × List ℕ × Result (Unit {0}) GpuLockError
  release inner lease = elim inner.held [
    | none ↦ (inner, [], err unknown_lease)
    | some h ↦
        if h.lease == lease
        then (let (inner', woken) = wake_all (record inner { held = none }) in
            (inner', woken, ok tt))
        else (inner, [], err unknown_lease)
  ]

  unfoldable pub reap_expired : ℕ → Inner → ℕ → Inner × List ℕ
  reap_expired max_hold inner now = elim inner.held [
    | none ↦ (inner, [])
    | some h ↦
        if ltb max_hold (now - h.acquired_at)
        then wake_all (record inner { held = none })
        else (inner, [])
  ]
