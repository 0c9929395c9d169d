-- ===== src/Server/Handlers.antt =====
-- src/server.rs: the handlers of `/status`, `/slots`, `/v1/aivyx/residency` and of the GPU lock.
-- `parse_uuid` is the UUID parser, which is not part of the repository.
pub mod Answers
pub mod RoundTrip
use aivyx_broker.Prelude.{
  ℕ, Bool, Option, none, some, List, [], Text, length, filter, u32, Result, ok, err,
}
use aivyx_broker.Http.{Response, empty, error, lease_id}
use aivyx_broker.Gpu.{Vram}
use aivyx_broker.LlamaClient.{LoadedModel, LlamaClientError}
use aivyx_broker.Scheduler
use aivyx_broker.Scheduler.{SlotSnapshot, snapshot}
use aivyx_broker.GpuLock
use aivyx_broker.GpuLock.{GpuLockError, UuidText, to_string, timeout, unknown_lease}

-- `/status`: the URL, and a queue depth that is always 0.
abbrev pub status : Text → Text × ℕ
status llama_server_url = (llama_server_url, 0)

-- `/slots`
abbrev pub slots : Scheduler.Inner → List SlotSnapshot
slots scheduler = snapshot scheduler

pub record Residency : Type 0 where
  pub models : List LoadedModel
  pub vram : Option Vram
  pub busy : ℕ
  pub total : ℕ

-- `unwrap_or_default`
abbrev pub models_of : Result (List LoadedModel) LlamaClientError → List LoadedModel
models_of (ok models) = models
models_of (err e) = []

unfoldable pub residency :
    Result (List LoadedModel) LlamaClientError → Option Vram → Scheduler.Inner → Residency
unfolding snapshot filter
residency fetched vram scheduler =
    let slots = snapshot scheduler in
    record {
      models = models_of fetched;
      vram = vram;
      busy = u32 (length (filter (λ s. s.busy) slots));
      total = u32 (length slots);
    }

-- The answer to what `GpuLock::acquire` returned; none for a branch that the code calls unreachable.
unfoldable pub gpu_lock_acquire : UuidText → Result ℕ GpuLockError → Option Response
gpu_lock_acquire U (ok lease) = some (record { status = 200; body = lease_id (to_string U lease) })
gpu_lock_acquire U (err timeout) =
    some (record { status = 503; body = error "timed out waiting for the GPU lock" })
gpu_lock_acquire U (err unknown_lease) = none

-- The answer to what `GpuLock::release` returned.
abbrev pub answer_release : Result (Unit {0}) GpuLockError → Option Response
answer_release (ok _) = some (record { status = 200; body = empty })
answer_release (err unknown_lease) =
    some (record { status = 404; body = error "lease not found, already released, or expired" })
answer_release (err timeout) = none

-- The lock after the request, the channels woken, and the answer.
unfoldable pub gpu_lock_release :
    (Text → Option ℕ) → (ℕ → Bool) → GpuLock.Inner → Text → GpuLock.Inner × List ℕ × Option Response
unfolding GpuLock.release
gpu_lock_release parse_uuid receiving inner body = elim (parse_uuid body) [
  | none ↦ (inner, [], some (record { status = 400; body = error "lease_id is not a valid UUID" }))
  | some lease ↦
      let (inner', woken, result) = GpuLock.release receiving inner lease in
      (inner', woken, answer_release result)
]
