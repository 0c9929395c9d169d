-- ===== src/Broker/Examples.antt =====
-- src/scheduler.rs with src/server.rs: the theorems on the composition at concrete inputs.
use aivyx_broker.Prelude.{
  ℕ, ◌≡◌, refl, Option, none, some, [], ◌∷◌, codes, arith, modify, filter, find, enumerate_from,
  min_by_key, get_elem?,
}
use aivyx_broker.Json.Tree.{Tree, tree_json, number, object_of, get}
use aivyx_broker.Scheduler.{
  SlotHint, Admission, SlotState, new, claim, try_admit_locked, admit_locked,
}
use aivyx_broker.Scheduler.System
use aivyx_broker.Channels.{open_ended}
use aivyx_broker.Scheduler.System.{locking, waiting, holding, attempt}
use aivyx_broker.Scheduler.System.Waiting.{wants}
use aivyx_broker.Server.Upstream.{post}
use aivyx_broker.Broker.{World, Broker, admit, init_broker, admits, Reach, start, later, hint}
use aivyx_broker.Broker.Jobs.{Told}
use aivyx_broker.Broker.Refinement.{Refines, broker-Refines}
use aivyx_broker.Broker.Safety.{post-Told}
use aivyx_broker.Broker.Served.{Served, waiter-Served, any_waiter-Served}
use aivyx_broker.Broker.Progress.{Ended, task_ends}
use aivyx_broker.Broker.Samples.{
  request, cached, world, granted_slot, broker0, broker1, reached1, stage1, sent_body, url,
  afterwards, marked, broker2, broker3, job_after, reached3,
}

broker-Refines_example :
    System.Reach (hint world) 1 [] broker0.scheduler × Refines world broker0 broker1
broker-Refines_example = broker-Refines world (omega arith) start (admits 0 refl)

post-Told_example :
    (a : Admission) × (s : SlotState) × (broker3.scheduler.stage 0 ≡ holding a)
    × (get_elem? broker3.scheduler.inner.slots a.slot_id ≡ some s)
    × Told (hint world 0) s.resident_prefix s.resident_model
post-Told_example =
    post-Told (omega arith) reached3 0 url sent_body afterwards
      (job_after broker2 marked (post url sent_body ∷ afterwards))

task_ends_example : (c : Broker world) × Ended {w = world} 0 0 broker1 c
task_ends_example = task_ends (omega arith) reached1 0 granted_slot stage1

-- Both requests insist on slot 0: request 0 is given it, and request 1 waits on channel 0.
abbrev parse_preference : Tree → Option SlotHint
parse_preference (number k) =
    some (record { prefix_hash = "p"; preferred_slot = some k; model = none })
parse_preference _ = none

abbrev contended : World
contended = record {
  json = tree_json;
  parse_hint = parse_preference;
  llama_server_url = codes "http://localhost:8080";
  request = λ i. record (request cached) { body = object_of (("aivyx_slot_hint", number 0) ∷ []) };
}

abbrev one_holds : Broker contended
one_holds = admit contended (init_broker contended 1 []) 0

abbrev one_waits : Broker contended
one_waits = admit contended one_holds 1

one_holds_stage : one_holds.scheduler.stage 1 ≡ locking
unfolding admit attempt try_admit_locked admit_locked new modify filter enumerate_from min_by_key
    claim find get
one_holds_stage = refl

one_waits_reached : Reach contended 1 [] one_waits
one_waits_reached = later (later start (admits 0 refl)) (admits 1 one_holds_stage)

one_waits_stage :
    (one_waits.scheduler.stage 1 ≡ waiting 0) × (one_waits.scheduler.channel 0 ≡ open_ended)
unfolding admit attempt try_admit_locked admit_locked new modify filter enumerate_from min_by_key
    claim find get
one_waits_stage = (refl, refl)

insists : wants 1 (hint contended 1) ≡ some 0
unfolding get
insists = refl

waiter-Served_example : Served {w = contended} 1 one_waits 1
waiter-Served_example =
    waiter-Served 1 (omega arith) 1 0 one_waits_reached one_waits_stage.0 one_waits_stage.1 0
      insists

-- In `world` nobody insists on a slot, and request 1 waits behind request 0.
abbrev queued : Broker world
queued = admit world broker1 1

queued_stage :
    (broker1.scheduler.stage 1 ≡ locking)
    × (queued.scheduler.stage 1 ≡ waiting 0)
    × (queued.scheduler.channel 0 ≡ open_ended)
unfolding admit attempt try_admit_locked admit_locked new modify filter enumerate_from min_by_key
    claim find get
queued_stage = (refl, refl, refl)

nobody_insists : (j : ℕ) → wants 1 (hint world j) ≡ none
unfolding get
nobody_insists j = refl

any_waiter-Served_example : Served {w = world} 1 queued 1
any_waiter-Served_example =
    any_waiter-Served 1 (omega arith) 1 0 (later reached1 (admits 1 queued_stage.0)) queued_stage.1
      queued_stage.2 (omega arith) nobody_insists
