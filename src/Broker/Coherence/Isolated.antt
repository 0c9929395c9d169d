-- ===== src/Broker/Coherence/Isolated.antt =====
-- src/scheduler.rs with src/server.rs: the theorem on tasks and their slots at a concrete broker.
use aivyx_broker.Prelude.{
  ℕ, ◌≡◌, ◌≢◌, refl, [], arith, modify, filter, find, enumerate_from, min_by_key,
}
use aivyx_broker.Json.Tree.{tree_json, tree_laws, get}
use aivyx_broker.Scheduler.{new, claim, try_admit_locked, admit_locked}
use aivyx_broker.Scheduler.System.{locking, attempt}
use aivyx_broker.Server.Upstream.{send_upstream, prepare, warm_or_restore}
use aivyx_broker.Server.Relay.{forward, relay, relay_response}
use aivyx_broker.Server.Chat.{chat_completions}
use aivyx_broker.Broker.{Broker, init_broker, job_of, admit, admits, Reach, start, later}
use aivyx_broker.Broker.Jobs.{Aloof}
use aivyx_broker.Broker.Samples.{world}
use aivyx_broker.Broker.Coherence.Isolation.{WorksOn, one_task_per_slot}

-- Requests 0 and 1 are admitted to the two slots.
abbrev one : Broker world
one = admit world (init_broker world 2 []) 0

abbrev two : Broker world
two = admit world one 1

locks1 : one.scheduler.stage 1 ≡ locking
unfolding admit attempt try_admit_locked admit_locked new modify filter enumerate_from min_by_key
    claim find get
locks1 = refl

reached : Reach world 2 [] two
reached = later (later start (admits 0 refl)) (admits 1 locks1)

more0 : ¬ Aloof tree_json (two.job 0)
unfolding admit attempt try_admit_locked admit_locked new modify filter enumerate_from min_by_key
    claim find get job_of chat_completions forward relay_response relay send_upstream prepare
    warm_or_restore
more0 q = q

more1 : ¬ Aloof tree_json (two.job 1)
unfolding admit attempt try_admit_locked admit_locked new modify filter enumerate_from min_by_key
    claim find get job_of chat_completions forward relay_response relay send_upstream prepare
    warm_or_restore
more1 q = q

one_task_per_slot_example :
    (k m : ℕ) × (k ≢ m) × WorksOn world tree_laws two 0 k × WorksOn world tree_laws two 1 m
one_task_per_slot_example =
    one_task_per_slot world tree_laws (omega arith) reached 0 1 (λ e. omega (arith, e)) more0 more1
