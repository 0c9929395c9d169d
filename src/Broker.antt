-- ===== src/Broker.antt =====
-- The composition of src/scheduler.rs and src/server.rs: many chat completions over one scheduler. A
-- request is admitted as in Scheduler.System; from then on the task that `chat_completions` spawns
-- performs its actions one at a time, or panics, and any other task, waiter or the reconciliation may
-- act between two of them.
pub mod Jobs
pub mod Unwinding
pub mod Preparing
pub mod Tails
pub mod Invariant
pub mod Refinement
pub mod Safety
pub mod Progress
pub mod Steps
pub mod Served
pub mod Coherence
mod Samples
mod Examples
use aivyx_broker.Prelude.{ℕ, ◌≡◌, Option, List, [], ◌∷◌, Text, ok, update}
use aivyx_broker.Channels.{open_ended, sent}
use aivyx_broker.Json.{Json}
use aivyx_broker.Scheduler
use aivyx_broker.Scheduler.{SlotHint, Admission}
use aivyx_broker.Scheduler.System.{
  Stage, locking, waiting, holding, timed_out, gone, System, attempt, finish, reconcile, leave,
  init,
}
use aivyx_broker.Server.Upstream.{Action, mark_resident, clear_resident, release, Outside}
use aivyx_broker.Server.Relay.{Client}
use aivyx_broker.Server.Relay.Unwinding.{unwound}
use aivyx_broker.Server.Chat.{chat_completions, hint_of}

-- A request, what llama-server and the cache answer to its task, and what its client does.
pub record Request (J : Json) : Type 0 where
  pub body : Json.Value J
  pub outside : Outside J
  pub client : Client

pub record World : Type 1 where
  pub json : Json
  pub parse_hint : Json.Value json → Option SlotHint
  pub llama_server_url : Text
  pub request : ℕ → Request json

module _ (w : World) where
  abbrev pub hint : ℕ → Option SlotHint
  hint i = hint_of w.json w.parse_hint (Request.body (w.request i))

  -- The actions that the task of request `i` performs once it is admitted.
  unfoldable pub job_of : ℕ → Admission → List (Action w.json)
  unfolding chat_completions
  job_of i a =
      let r = w.request i in
      (chat_completions w.json w.parse_hint r.body (λ _. ok a) r.outside w.llama_server_url
        r.client).0

  -- The scheduler with its requests, and what is left of each task.
  pub record Broker : Type 0 where
    pub scheduler : System
    pub job : ℕ → List (Action w.json)

  abbrev pub started : ℕ → Stage → List (Action w.json)
  started i (holding a) = job_of i a
  started i _ = []

  -- A round of `admit`: on an admission the task starts.
  unfoldable pub admit : Broker → ℕ → Broker
  unfolding attempt job_of
  admit b i =
      let s = attempt hint b.scheduler i in
      record { scheduler = s; job = update b.job i (started i (s.stage i)) }

  -- What an action of task `i` does to the scheduler.
  unfoldable pub perform : System → ℕ → Action w.json → System
  unfolding finish Scheduler.mark_resident Scheduler.clear_resident
  perform s i (mark_resident slot_id model prefix) = record s {
    inner = Scheduler.mark_resident s.inner slot_id model prefix;
  }
  perform s i (clear_resident slot_id) = record s {
    inner = Scheduler.clear_resident s.inner slot_id;
  }
  perform s i (release slot_id) = finish s i slot_id
  perform s i _ = s

  unfoldable pub act : Broker → ℕ → Action w.json → List (Action w.json) → Broker
  unfolding perform
  act b i action rest = record {
    scheduler = perform b.scheduler i action;
    job = update b.job i rest;
  }

  -- The task of request `i` panics between two of its actions: what is left of it is to unwind.
  abbrev pub panic : Broker → ℕ → Broker
  panic b i = record b { job = update b.job i (unwound w.json (b.job i)) }

  abbrev pub with_scheduler : Broker → System → Broker
  with_scheduler b s = record b { scheduler = s }

  abbrev pub init_broker : ℕ → List ℕ → Broker
  init_broker num_slots processing = record { scheduler = init num_slots processing; job = λ i. [] }

  pub data Step (b : Broker) : Broker → Type 0 where
    admits : (i : ℕ) → b.scheduler.stage i ≡ locking → Step b (admit b i)
    wakes :
        (i c : ℕ)
        → b.scheduler.stage i ≡ waiting c
        → b.scheduler.channel c ≡ sent
        → Step b
            (with_scheduler b (record b.scheduler { stage = update b.scheduler.stage i locking }))
    expires :
        (i c : ℕ)
        → b.scheduler.stage i ≡ waiting c
        → b.scheduler.channel c ≡ open_ended
        → Step b (with_scheduler b (leave b.scheduler i c timed_out))
    hangs_up :
        (i c : ℕ)
        → b.scheduler.stage i ≡ waiting c
        → Step b (with_scheduler b (leave b.scheduler i c gone))
    acts :
        (i : ℕ) (action : Action w.json) (rest : List (Action w.json))
        → b.job i ≡ action ∷ rest
        → Step b (act b i action rest)
    reconciles : (slot_id : ℕ) → Step b (with_scheduler b (reconcile b.scheduler slot_id))
    panics : (i : ℕ) → Step b (panic b i)

  pub data Reach (num_slots : ℕ) (processing : List ℕ) : Broker → Type 0 where
    start : Reach num_slots processing (init_broker num_slots processing)
    later : {b c : Broker} → Reach num_slots processing b → Step b c → Reach num_slots processing c
