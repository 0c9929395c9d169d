-- ===== src/Scheduler/System.antt =====
-- src/scheduler.rs, `admit`: requests in flight over one scheduler, interleaved in any order. A
-- request is a task of its own: it attempts admission under the lock, and otherwise waits on a new
-- channel until it is woken, its deadline passes, or its future is dropped. Deadlines are left
-- open: a request that was not woken may time out at any moment. The slot of an admitted request
-- is released when its forwarding task ends (`ReleaseGuard` in src/server.rs).
pub mod Holding
pub mod Waiting
pub mod Sharing
pub mod Stranding
pub mod History
pub mod LeastRecent
mod Examples
use aivyx_broker.Prelude.{ℕ, suc, ◌≡◌, String, Bool, Option, none, some, List, [], ◌∷◌, update}
use aivyx_broker.Channels.{Channel, open_ended, sent, closed, is_receiving, signal}
use aivyx_broker.Scheduler.{
  SlotHint, Admission, Inner, new, seed_busy, mark_resident, clear_resident, admit_locked, release,
  reconcile_seeded_idle,
}

-- Where a call of `admit` stands: about to lock, waiting on a channel, holding a slot, or over.
pub data Stage : Type 0 where
  locking : Stage
  waiting : (c : ℕ) → Stage
  holding : (a : Admission) → Stage
  timed_out gone : Stage

pub record System : Type 0 where
  pub inner : Inner
  pub channel : ℕ → Channel
  pub next_channel : ℕ
  pub stage : ℕ → Stage

abbrev pub receivers : System → ℕ → Bool
receivers s c = is_receiving (s.channel c)

-- One round of the loop of `admit`, up to the wait.
abbrev pub settle : System → ℕ → Inner → Option Admission → System
settle s i inner (some a) = record s { inner = inner; stage = update s.stage i (holding a) }
settle s i inner none = record s {
  inner = inner;
  channel = update s.channel s.next_channel open_ended;
  next_channel = suc s.next_channel;
  stage = update s.stage i (waiting s.next_channel);
}

unfoldable pub attempt : (ℕ → Option SlotHint) → System → ℕ → System
attempt hint s i =
    let (inner, admitted) = admit_locked s.inner (hint i) s.next_channel in
    settle s i inner admitted

abbrev pub after_wake : System → Inner × List ℕ → System
after_wake s (inner, woken) = record s { inner = inner; channel = signal woken s.channel }

unfoldable pub finish : System → ℕ → ℕ → System
finish s i slot_id =
    after_wake (record s { stage = update s.stage i gone }) (release (receivers s) s.inner slot_id)

unfoldable pub reconcile : System → ℕ → System
reconcile s slot_id = after_wake s (reconcile_seeded_idle (receivers s) s.inner slot_id)

abbrev pub leave : System → ℕ → ℕ → Stage → System
leave s i c how = record s { channel = update s.channel c closed; stage = update s.stage i how }

-- The broker at its start: `num_slots` slots, of which those listed were found processing.
abbrev pub seeded : Inner → List ℕ → Inner
seeded inner [] = inner
seeded inner (id ∷ ids) = seeded (seed_busy inner id) ids

abbrev pub init : ℕ → List ℕ → System
init num_slots processing = record {
  inner = seeded (new num_slots) processing;
  channel = λ _. closed;
  next_channel = 0;
  stage = λ _. locking;
}

module _ (hint : ℕ → Option SlotHint) where
  pub data Step (s : System) : System → Type 0 where
    locks : (i : ℕ) → s.stage i ≡ locking → Step s (attempt hint s i)
    wakes :
        (i c : ℕ)
        → s.stage i ≡ waiting c
        → s.channel c ≡ sent
        → Step s (record s { stage = update s.stage i locking })
    expires :
        (i c : ℕ)
        → s.stage i ≡ waiting c
        → s.channel c ≡ open_ended
        → Step s (leave s i c timed_out)
    hangs_up : (i c : ℕ) → s.stage i ≡ waiting c → Step s (leave s i c gone)
    finishes : (i : ℕ) (a : Admission) → s.stage i ≡ holding a → Step s (finish s i a.slot_id)
    reconciles : (slot_id : ℕ) → Step s (reconcile s slot_id)
    marks :
        (slot_id : ℕ) (model : Option String) (prefix : String)
        → Step s (record s { inner = mark_resident s.inner slot_id model prefix })
    clears : (slot_id : ℕ) → Step s (record s { inner = clear_resident s.inner slot_id })

  pub data Reach (num_slots : ℕ) (processing : List ℕ) : System → Type 0 where
    start : Reach num_slots processing (init num_slots processing)
    later : {s t : System} → Reach num_slots processing s → Step s t → Reach num_slots processing t
