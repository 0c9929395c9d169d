-- ===== src/Main/Examples.antt =====
-- src/main.rs: its theorems at concrete inputs.
use aivyx_broker.Prelude.{
  ℕ, zero, suc, ◌≡◌, refl, ap, ◌∙◌, Bool, true, false, some, List, [], ◌∷◌, Text, Result, ok, codes,
  collect_map, get_elem?, ◌+◌, ◌≤◌, ◌<◌, arith,
}
use aivyx_broker.Json.Tree.{Tree, tree_json, number, boolean, array_of, object_of, get, as_array}
use aivyx_broker.Scheduler.{SlotState, new}
use aivyx_broker.LlamaClient.{LlamaSlot, Reply, fetch_slots, parse_slots, seed_processing}
use aivyx_broker.LlamaClient.Seed.{in_use}
use aivyx_broker.GpuLock
use aivyx_broker.GpuLock.{Held, acquire_locked}
use aivyx_broker.GpuLock.Release.{Freed, acquire_held}
use aivyx_broker.Main.{
  default_config, start, reconcile_tick, tick, reconcile_interval, reap_expired_gpu_lock,
}
use aivyx_broker.Main.Reaping.{fires, reap_expired_gpu_lock-Bounded}
use aivyx_broker.Main.Recovery.{reported_idle, start-Recovers}

abbrev slot_value : ℕ → Bool → Tree
slot_value id busy = object_of (("id", number id) ∷ ("is_processing", boolean busy) ∷ [])

abbrev answers : Text → Result (Reply tree_json) Text
answers url =
    ok (record {
      status = 200;
      json = some (array_of (slot_value 0 true ∷ slot_value 1 false ∷ []));
    })

abbrev at_start : List LlamaSlot
at_start = record { id = 0; is_processing = true } ∷ record { id = 1; is_processing = false } ∷ []

abbrev later : List LlamaSlot
later = record { id = 0; is_processing = false } ∷ record { id = 1; is_processing = true } ∷ []

start-Recovers_example :
    ((i : ℕ) (s : SlotState)
      → get_elem? (seed_processing (new 2) at_start).slots i ≡ some s
      → s.busy ≡ in_use i at_start)
    × (((i : ℕ) → in_use i at_start ≡ true → reported_idle i later ≡ true)
        → (i : ℕ) (s : SlotState)
        → get_elem?
            (reconcile_tick (λ c. true) (seed_processing (new 2) at_start) (ok later)).0.slots
            i
          ≡ some s
        → s.busy ≡ false)
unfolding start fetch_slots parse_slots get as_array collect_map
start-Recovers_example =
    start-Recovers tree_json answers (default_config (codes "http://x") (codes "/kv"))
      (seed_processing (new 2) at_start) (λ c. true) at_start later refl refl

abbrev lease_7 : Held
lease_7 = record { lease = 7; acquired_at = 6000 }

-- In each interval another client queues up.
abbrev queue_up : ℕ → GpuLock.Inner → GpuLock.Inner
queue_up n inner = (acquire_locked inner 9 0 (n + 10)).0

queue_up-keeps :
    (n : ℕ) (inner : GpuLock.Inner)
    → inner.held ≡ some lease_7
    → (queue_up n inner).held ≡ some lease_7
queue_up-keeps n inner held =
    ap (λ r. r.0.held) (acquire_held inner 9 0 (n + 10) lease_7 held) ∙ held

-- The reaper started at 5,000, and lease 7 was granted at 6,000 for 25,000.
abbrev others : ℕ → GpuLock.Inner → GpuLock.Inner
others zero inner = inner
others (suc zero) inner = (acquire_locked inner 7 6000 3).0
others (suc (suc n)) inner = queue_up n inner

others-keep :
    (n : ℕ) (inner : GpuLock.Inner)
    → 0 < n
    → inner.held ≡ some lease_7
    → (others (suc n) inner).held ≡ some lease_7
others-keep zero inner late held = absurd (omega arith)
others-keep (suc n) inner late held = queue_up-keeps n inner held

abbrev lock_at : ℕ → GpuLock.Inner
lock_at n = fires (λ c. true) 25000 lease_7 others GpuLock.new 5000 n

abbrev reaped_at : ℕ → GpuLock.Inner × List ℕ
reaped_at n = reap_expired_gpu_lock (λ c. true) 25000 others GpuLock.new 5000 n

granted_7 : (lock_at 0).held ≡ some lease_7
unfolding reap_expired_gpu_lock GpuLock.reap_expired acquire_locked
granted_7 = refl

reap_expired_gpu_lock-Bounded_example :
    (n : ℕ) × (6000 + 25000 < tick 5000 (suc n))
    × (tick 5000 (suc n) ≤ 6000 + 25000 + reconcile_interval)
    × ((lock_at n).held ≡ some lease_7)
    × Freed (λ c. true) (lock_at n) (reaped_at (suc n)).0 (reaped_at (suc n)).1
reap_expired_gpu_lock-Bounded_example =
    reap_expired_gpu_lock-Bounded (λ c. true) 25000 lease_7 others GpuLock.new 5000 0 granted_7
      (omega arith) others-keep
