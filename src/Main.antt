-- ===== src/Main.antt =====
-- src/main.rs: starting the broker on llama-server's slots, and the two background tasks. The
-- configuration's defaults are those of src/config.rs.
pub mod Recovery
pub mod Reaping
mod Examples
use aivyx_broker.Prelude.{
  ℕ, zero, suc, ◌+◌, ◌*◌, Bool, not, List, [], ◌∷◌, ◌++◌, if◌then◌else◌, length, u32, Text, Result,
  ok, err,
}
use aivyx_broker.Json.{Json}
use aivyx_broker.Gpu.{VramSource, auto}
use aivyx_broker.LlamaClient.{LlamaSlot, LlamaClientError, Reply, fetch_slots, seed_processing}
use aivyx_broker.Scheduler.{Inner, new, reconcile_seeded_idle}
use aivyx_broker.GpuLock
use aivyx_broker.Server.VramCache
use aivyx_broker.Server.Router.{AppState, client_send_timeout}

-- `BrokerConfig`: durations are in seconds and sizes in bytes.
pub record BrokerConfig : Type 0 where
  pub port : ℕ
  pub llama_server_url : Text
  pub kvcache_store_path : Text
  pub kvcache_max_bytes : ℕ
  pub queue_timeout_secs : ℕ
  pub gpu_lock_queue_timeout_secs : ℕ
  pub gpu_lock_max_hold_secs : ℕ
  pub max_request_body_bytes : ℕ
  pub vram_source : VramSource
  pub allowed_hosts : List Text

-- The configuration of a command line that gives only the two arguments without a default.
abbrev pub default_config : Text → Text → BrokerConfig
default_config llama_server_url kvcache_store_path = record {
  port = 8899;
  llama_server_url = llama_server_url;
  kvcache_store_path = kvcache_store_path;
  kvcache_max_bytes = 10 * 1024 * 1024 * 1024;
  queue_timeout_secs = 60;
  gpu_lock_queue_timeout_secs = 280;
  gpu_lock_max_hold_secs = 900;
  max_request_body_bytes = 64 * 1024 * 1024;
  vram_source = auto;
  allowed_hosts = [];
}

-- The scheduler that the broker starts with, or the error of llama-server's slots.
unfoldable pub start :
    (J : Json) → (Text → Result (Reply J) Text) → BrokerConfig → Result Inner LlamaClientError
unfolding fetch_slots new seed_processing
start J get config = elim (fetch_slots J get config.llama_server_url) [
  | err e ↦ err e
  | ok slots ↦ ok (seed_processing (new (u32 (length slots))) slots)
]

-- The state of the HTTP routes, with the scheduler that was started and a new GPU lock.
unfoldable pub app_state : Inner → BrokerConfig → AppState
app_state scheduler config = record {
  scheduler = scheduler;
  llama_server_url = config.llama_server_url;
  queue_timeout = config.queue_timeout_secs * 1000;
  gpu_lock = GpuLock.new;
  gpu_lock_max_hold = config.gpu_lock_max_hold_secs * 1000;
  gpu_lock_queue_timeout = config.gpu_lock_queue_timeout_secs * 1000;
  gpu_probe = config.vram_source;
  vram_cache = VramCache.default;
  max_request_body_bytes = config.max_request_body_bytes;
  client_send_timeout = client_send_timeout;
  allowed_hosts = config.allowed_hosts;
}

-- One tick of `reconcile_seeded_slots` for slots that were fetched, with the channels woken.
unfoldable pub reconcile_slots : (ℕ → Bool) → Inner → List LlamaSlot → Inner × List ℕ
unfolding reconcile_seeded_idle
reconcile_slots receiving inner [] = (inner, [])
reconcile_slots receiving inner (slot ∷ slots) =
    let (after, woken) =
      if not slot.is_processing
      then reconcile_seeded_idle receiving inner slot.id
      else (inner, []) in
    let (final, more) = reconcile_slots receiving after slots in (final, woken ++ more)

-- A tick whose fetch fails is only logged.
unfoldable pub reconcile_tick :
    (ℕ → Bool) → Inner → Result (List LlamaSlot) LlamaClientError → Inner × List ℕ
unfolding reconcile_slots
reconcile_tick receiving inner (err e) = (inner, [])
reconcile_tick receiving inner (ok slots) = reconcile_slots receiving inner slots

-- `RECONCILE_INTERVAL`, in milliseconds
abbrev pub reconcile_interval : ℕ
reconcile_interval = 10000

-- When tick `n` of the interval fires, in milliseconds.
abbrev pub tick : ℕ → ℕ → ℕ
tick start n = start + n * reconcile_interval

-- The lock after tick `n` of the loop, and the channels that the tick woke. Before each tick anybody
-- else may use the lock: `others n` is what they do to it between the tick before and tick `n`.
unfoldable pub reap_expired_gpu_lock :
    (ℕ → Bool)
    → ℕ
    → (ℕ → GpuLock.Inner → GpuLock.Inner)
    → GpuLock.Inner
    → ℕ
    → ℕ
    → GpuLock.Inner × List ℕ
unfolding GpuLock.reap_expired
reap_expired_gpu_lock receiving max_hold others inner start zero =
    GpuLock.reap_expired receiving max_hold (others zero inner) (tick start zero)
reap_expired_gpu_lock receiving max_hold others inner start (suc n) =
    let (before, woken) = reap_expired_gpu_lock receiving max_hold others inner start n in
    GpuLock.reap_expired receiving max_hold (others (suc n) before) (tick start (suc n))
