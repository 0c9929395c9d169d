-- ===== src/GpuLock/System.antt =====
-- src/gpu_lock.rs, `acquire`: clients of one lock, interleaved in any order. Anybody may try to
-- release any lease at any time, and a client that was granted the lock may never release it; the
-- reaper runs whenever it likes. A fresh lease id is one that was never issued before, which is
-- what the broker takes random UUIDs for.
use aivyx_broker.Prelude.{ℕ, suc, ◌≡◌, Bool, false, Option, none, some, List, [], ◌∷◌, update, elem}
use aivyx_broker.Channels.{Channel, open_ended, sent, closed, is_receiving, signal}
use aivyx_broker.GpuLock.{Inner, new, acquire_locked, release, reap_expired}

-- Where a call of `acquire` stands: about to lock, waiting on a channel, granted, or over.
pub data Stage : Type 0 where
  locking : Stage
  waiting : (c : ℕ) → Stage
  leased : (lease : ℕ) → Stage
  timed_out gone : Stage

pub record System : Type 0 where
  pub inner : Inner
  pub channel : ℕ → Channel
  pub next_channel : ℕ
  pub issued : List ℕ
  pub stage : ℕ → Stage

abbrev pub receivers : System → ℕ → Bool
receivers s c = is_receiving (s.channel c)

-- One round of the loop of `acquire`, up to the wait.
abbrev pub settle : System → ℕ → Inner → Option ℕ → System
settle s i inner (some lease) = record s {
  inner = inner;
  issued = lease ∷ s.issued;
  stage = update s.stage i (leased lease);
}
settle s i inner none = record s {
  inner = inner;
  channel = update s.channel s.next_channel open_ended;
  next_channel = suc s.next_channel;
  stage = update s.stage i (waiting s.next_channel);
}

unfoldable pub attempt : System → ℕ → ℕ → ℕ → System
attempt s i lease now =
    let (inner, granted) = acquire_locked s.inner lease now s.next_channel in
    settle s i inner granted

abbrev pub after_wake : System → Inner → List ℕ → System
after_wake s inner woken = record s { inner = inner; channel = signal woken s.channel }

unfoldable pub give_back : System → ℕ → System
give_back s lease =
    let (inner, woken, answer) = release (receivers s) s.inner lease in after_wake s inner woken

unfoldable pub reap : ℕ → System → ℕ → System
reap max_hold s now =
    let (inner, woken) = reap_expired (receivers s) max_hold s.inner now in after_wake s inner woken

abbrev pub leave : System → ℕ → ℕ → Stage → System
leave s i c how = record s { channel = update s.channel c closed; stage = update s.stage i how }

abbrev pub init : System
init = record {
  inner = new;
  channel = λ _. closed;
  next_channel = 0;
  issued = [];
  stage = λ _. locking;
}

module _ (max_hold : ℕ) where
  pub data Step (s : System) : System → Type 0 where
    locks :
        (i lease now : ℕ)
        → s.stage i ≡ locking
        → elem lease s.issued ≡ false
        → Step s (attempt s i lease now)
    wakes :
        (i c : ℕ)
        → s.stage i ≡ waiting c
        → s.channel c ≡ sent
        → Step s (record s { stage = update s.stage i locking })
    expires :
        (i c : ℕ)
        → s.stage i ≡ waiting c
        → s.channel c ≡ open_ended
        → Step s (leave s i c timed_out)
    hangs_up : (i c : ℕ) → s.stage i ≡ waiting c → Step s (leave s i c gone)
    releases : (lease : ℕ) → Step s (give_back s lease)
    reaps : (now : ℕ) → Step s (reap max_hold s now)

  pub data Reach : System → Type 0 where
    start : Reach init
    later : {s t : System} → Reach s → Step s t → Reach t
