-- ===== src/Scheduler.antt =====
-- src/scheduler.rs: the admission scheduler for llama-server's slots. `Scheduler` is a mutex around
-- `Inner`; each method here is the body of one critical section, from the state that it locks to
-- the state that it leaves. A sender of a one-shot channel is the number of the channel.
-- `receiving c` says whether the receiver of channel `c` still exists, which is what `tx.send(())`
-- answers; a woken channel is one whose send succeeded.
pub mod Prefix
pub mod Choice
pub mod Slots
pub mod Wake
pub mod Residency
pub mod Recency
pub mod Deadline
pub mod System
mod Examples
mod Runs
use aivyx_broker.Prelude.{
  ℕ, ◌+◌, String, Bool, true, false, not, ◌&&◌, ◌||◌, Option, none, some, List, [], ◌∷◌, ◌++◌, map,
  ltb, if◌then◌else◌, u32, u64, length, get_elem?, replicate, modify, filter, enumerate_from, find,
  min_by_key, get_or, filter_option, ◌>>=◌, opt_str_eq, update,
}

pub record SlotState : Type 0 where
  pub busy : Bool
  pub resident_prefix : Option String
  pub resident_model : Option String
  pub seeded_unowned : Bool
  pub last_used : ℕ

abbrev pub default_slot : SlotState
default_slot = record {
  busy = false;
  resident_prefix = none;
  resident_model = none;
  seeded_unowned = false;
  last_used = 0;
}

pub record SlotHint : Type 0 where
  pub prefix_hash : String
  pub preferred_slot : Option ℕ
  pub model : Option String

pub record SlotSnapshot : Type 0 where
  pub slot_id : ℕ
  pub busy : Bool
  pub resident_prefix : Option String
  pub resident_model : Option String

pub record Admission : Type 0 where
  pub slot_id : ℕ
  pub cache_ready : Bool

pub data SchedulerError : Type 0 where
  timeout : SchedulerError

pub record Inner : Type 0 where
  pub slots : List SlotState
  pub slot_waiters : ℕ → Option (List ℕ)
  pub global_waiters : List ℕ
  pub clock : ℕ

abbrev pub is_resident_in : SlotHint → SlotState → Bool
is_resident_in h s =
    opt_str_eq s.resident_prefix (some h.prefix_hash) && opt_str_eq s.resident_model h.model

-- `Scheduler::new`
unfoldable pub new : ℕ → Inner
new num_slots = record {
  slots = replicate num_slots default_slot;
  slot_waiters = λ _. none;
  global_waiters = [];
  clock = 0;
}

unfoldable pub seed_busy : Inner → ℕ → Inner
seed_busy inner slot_id = record inner {
  slots = modify inner.slots slot_id (λ s. record s { busy = true; seeded_unowned = true });
}

unfoldable pub mark_resident : Inner → ℕ → Option String → String → Inner
mark_resident inner slot_id model prefix_hash = record inner {
  slots =
      modify inner.slots slot_id
        (λ s. record s { resident_prefix = some prefix_hash; resident_model = model });
}

unfoldable pub clear_resident : Inner → ℕ → Inner
clear_resident inner slot_id = record inner {
  slots =
      modify inner.slots slot_id (λ s. record s { resident_prefix = none; resident_model = none });
}

-- What each tier of `try_admit_locked` does to the slot that it picks, and to the clock.
abbrev pub claimed : ℕ → SlotState → SlotState
claimed clock s = record s { busy = true; seeded_unowned = false; last_used = clock }

unfoldable pub claim : Inner → ℕ → Inner
claim inner idx =
    let clock = u64 (inner.clock + 1) in
    record inner { slots = modify inner.slots idx (claimed clock); clock = clock }

-- The first tier, for a preferred slot in range. (`slots[preferred]` out of range would panic.)
admit_preferred : Inner → SlotHint → ℕ → Inner × Option Admission
admit_preferred inner h preferred = elim (get_elem? inner.slots preferred) [
  | none ↦ (inner, none)
  | some slot ↦
      if not slot.busy
      then (
        claim inner preferred,
        some (record {
          slot_id = preferred;
          cache_ready = is_resident_in h (claimed (u64 (inner.clock + 1)) slot);
        }),
      )
      else (inner, none)
]

abbrev pub is_idle : ℕ × SlotState → Bool
is_idle (idx, s) = not s.busy

abbrev pub holds_prefix : SlotHint → ℕ × SlotState → Bool
holds_prefix h (idx, s) = not s.busy && is_resident_in h s

abbrev pub ready_for : Option SlotHint → SlotState → Bool
ready_for none s = false
ready_for (some h) s = is_resident_in h s

-- The last tier: the least recently used idle slot.
admit_least_used : Inner → Option SlotHint → Inner × Option Admission
admit_least_used inner hint =
    elim (min_by_key (λ e. e.1.last_used) (filter is_idle (enumerate_from 0 inner.slots))) [
      | none ↦ (inner, none)
      | some (idx, slot) ↦ (
        claim inner idx,
        some (record {
          slot_id = u32 idx;
          cache_ready = ready_for hint (claimed (u64 (inner.clock + 1)) slot);
        }),
      )
    ]

-- The second tier, for a hint with no usable preference: an idle slot that holds the prefix.
admit_resident : Inner → SlotHint → Inner × Option Admission
unfolding admit_least_used
admit_resident inner h = elim (find (holds_prefix h) (enumerate_from 0 inner.slots)) [
  | none ↦ admit_least_used inner (some h)
  | some (idx, slot) ↦ (claim inner idx, some (record { slot_id = u32 idx; cache_ready = true }))
]

-- The slot that a request insists on: a preference within range.
abbrev pub usable_preference : Inner → Option SlotHint → Option ℕ
usable_preference inner hint =
    filter_option (λ slot_id. ltb slot_id (length inner.slots)) (hint >>= λ h. h.preferred_slot)

unfoldable pub try_admit_locked : Inner → Option SlotHint → Inner × Option Admission
unfolding admit_preferred admit_resident admit_least_used
try_admit_locked inner none = admit_least_used inner none
try_admit_locked inner (some h) = elim (usable_preference inner (some h)) [
  | some preferred ↦ admit_preferred inner h preferred
  | none ↦ admit_resident inner h
]

-- The locked part of one round of `admit`: an admission, or the new channel `tx` joins a queue.
unfoldable pub enqueue : Inner → Option SlotHint → ℕ → Inner
enqueue inner hint tx = elim (usable_preference inner hint) [
  | some slot_id ↦ record inner {
    slot_waiters =
        update inner.slot_waiters slot_id
          (some (get_or (inner.slot_waiters slot_id) [] ++ tx ∷ []));
  }
  | none ↦ record inner { global_waiters = inner.global_waiters ++ tx ∷ [] }
]

unfoldable pub admit_locked : Inner → Option SlotHint → ℕ → Inner × Option Admission
unfolding enqueue
admit_locked inner hint tx =
    let (inner', admitted) = try_admit_locked inner hint in
    elim admitted [ some a ↦ (inner', some a) | none ↦ (enqueue inner' hint tx, none) ]

abbrev pub snapshot_of : ℕ × SlotState → SlotSnapshot
snapshot_of (idx, s) = record {
  slot_id = u32 idx;
  busy = s.busy;
  resident_prefix = s.resident_prefix;
  resident_model = s.resident_model;
}

unfoldable pub snapshot : Inner → List SlotSnapshot
snapshot inner = map snapshot_of (enumerate_from 0 inner.slots)

module _ (receiving : ℕ → Bool) where
  -- `while let Some(tx) = queue.pop_front()`, with the flag for a live receiver and the channels
  -- that were woken.
  unfoldable pub drain : List ℕ → Bool → List ℕ → Bool × List ℕ
  drain [] live woken = (live, woken)
  drain (tx ∷ queue) live woken =
      drain queue (receiving tx || live) (if receiving tx then woken ++ tx ∷ [] else woken)

  -- The new state and the channels woken.
  unfoldable pub wake_waiters_for : Inner → ℕ → Inner × List ℕ
  unfolding drain
  wake_waiters_for inner slot_id =
      let (live_specific_waiter, woken) = drain (get_or (inner.slot_waiters slot_id) []) false [] in
      let drained : Inner = elim (inner.slot_waiters slot_id) [
        | none ↦ inner
        | some _ ↦ record inner { slot_waiters = update inner.slot_waiters slot_id (some []) }
      ] in
      if live_specific_waiter
      then (drained, woken)
      else (record drained { global_waiters = [] }, (drain drained.global_waiters false woken).1)

  unfoldable pub release : Inner → ℕ → Inner × List ℕ
  release inner slot_id = elim (get_elem? inner.slots slot_id) [
    | none ↦ (inner, [])
    | some _ ↦
        wake_waiters_for
          (record inner { slots = modify inner.slots slot_id (λ s. record s { busy = false }) })
          slot_id
  ]

  unfoldable pub reconcile_seeded_idle : Inner → ℕ → Inner × List ℕ
  reconcile_seeded_idle inner slot_id = elim (get_elem? inner.slots slot_id) [
    | none ↦ (inner, [])
    | some slot ↦
        if slot.seeded_unowned
        then wake_waiters_for
            (record inner { slots = modify inner.slots slot_id (λ s. record s { busy = false }) })
            slot_id
        else (inner, [])
  ]
