-- ===== src/Server/Handlers/Answers.antt =====
-- src/server.rs: the slot counts of `/v1/aivyx/residency`, and the answers of `/gpu-lock/release`.
use aivyx_broker.Prelude.{
  ℕ, suc, ◌-◌, ◌^◌, ◌≤◌, ◌≡◌, refl, ap, Bool, Option, none, some, List, [], ◌∷◌, map, Text, length,
  filter, map_option, enumerate_from, Result, arith, inl, inr, Option-cases,
}
use aivyx_broker.Http.{Response}
use aivyx_broker.Gpu.{Vram}
use aivyx_broker.LlamaClient.{LoadedModel, LlamaClientError}
use aivyx_broker.Scheduler
use aivyx_broker.Scheduler.{SlotState, snapshot_of, snapshot}
use aivyx_broker.GpuLock
use aivyx_broker.GpuLock.Release.{Valid, Freed, release_cases}
use aivyx_broker.Server.Handlers.{residency, gpu_lock_release}

length-snapshots :
    (i : ℕ) (slots : List SlotState)
    → length (map snapshot_of (enumerate_from i slots)) ≡ length slots
unfolding enumerate_from
length-snapshots i [] = refl
length-snapshots i (s ∷ slots) = ap suc (length-snapshots (suc i) slots)

length-busy :
    (i : ℕ) (slots : List SlotState)
    → length (filter (λ s. s.busy) (map snapshot_of (enumerate_from i slots)))
      ≡ length (filter (λ s. s.busy) slots)
unfolding enumerate_from filter
length-busy i [] = refl
length-busy i (s ∷ slots) = ground (arith, length-busy (suc i) slots)

length-filter :
    (p : SlotState → Bool) (slots : List SlotState) → length (filter p slots) ≤ length slots
unfolding filter
length-filter p [] = omega arith
length-filter p (s ∷ slots) = ground (arith, length-filter p slots)

-- With at most 2^32 - 1 slots, the residency answer counts the scheduler's slots and those of them
-- that are busy, of which there are never more, whatever llama-server and the GPU answer.
pub residency-Counts :
    (fetched : Result (List LoadedModel) LlamaClientError) (vram : Option Vram)
    (scheduler : Scheduler.Inner)
    → length scheduler.slots ≤ 2 ^ 32 - 1
    → ((residency fetched vram scheduler).total ≡ length scheduler.slots)
      × ((residency fetched vram scheduler).busy ≡ length (filter (λ s. s.busy) scheduler.slots))
      × ((residency fetched vram scheduler).busy ≤ (residency fetched vram scheduler).total)
unfolding residency snapshot
residency-Counts fetched vram scheduler fits =
    let total = length-snapshots 0 scheduler.slots in
    let busy = length-busy 0 scheduler.slots in
    let less = length-filter (λ s. s.busy) scheduler.slots in
    (
      omega (arith, total, fits),
      omega (arith, busy, less, fits),
      omega (arith, total, busy, less, fits),
    )

-- How a release request is answered: with 200 where the id names the lease that holds the lock, and
-- then the lock is free and every live waiter woken; with 404 for any other id and with 400 for a
-- text that is no id, and then nothing changes and nobody is woken.
pub data Answered (parse_uuid : Text → Option ℕ) (receiving : ℕ → Bool) (inner : GpuLock.Inner)
    (body : Text) (r : GpuLock.Inner × List ℕ × Option Response) : Type 0 where
  accepted :
      (lease : ℕ)
      → parse_uuid body ≡ some lease
      → Valid inner lease
      → map_option (λ a. a.status) r.2 ≡ some 200
      → Freed receiving inner r.0 r.1
      → Answered parse_uuid receiving inner body r
  unknown :
      (lease : ℕ)
      → parse_uuid body ≡ some lease
      → ¬ Valid inner lease
      → map_option (λ a. a.status) r.2 ≡ some 404
      → (r.0 ≡ inner) × (r.1 ≡ [])
      → Answered parse_uuid receiving inner body r
  malformed :
      parse_uuid body ≡ none
      → map_option (λ a. a.status) r.2 ≡ some 400
      → (r.0 ≡ inner) × (r.1 ≡ [])
      → Answered parse_uuid receiving inner body r

-- Every release request is answered, and never by the branch that the code calls unreachable: 200
-- for the valid lease, 404 for another id, 400 for no id.
pub gpu_lock_release-Answered :
    (parse_uuid : Text → Option ℕ) (receiving : ℕ → Bool) (inner : GpuLock.Inner) (body : Text)
    → Answered parse_uuid receiving inner body (gpu_lock_release parse_uuid receiving inner body)
unfolding gpu_lock_release
gpu_lock_release-Answered parse_uuid receiving inner body = elim (Option-cases (parse_uuid body)) [
  | inl n ↦ malformed n (ground (arith, n)) (ground (arith, n), ground (arith, n))
  | inr (lease, e) ↦ elim (release_cases receiving inner lease) [
    | inl (valid, done, freed) ↦ accepted lease e valid (ground (arith, e, done)) (record {
      free = ground (arith, e, freed.free);
      emptied = ground (arith, e, freed.emptied);
      all_woken = ground (arith, e, freed.all_woken);
    })
    | inr (invalid, same) ↦
        unknown lease e invalid (ground (arith, e, same))
          (ground (arith, e, same), ground (arith, e, same))
  ]
]
