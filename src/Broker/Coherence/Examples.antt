-- ===== src/Broker/Coherence/Examples.antt =====
-- src/scheduler.rs with src/server.rs: the theorems on what the slots hold at concrete inputs.
use aivyx_broker.Prelude.{
  ◌≡◌, ◌⊎◌, true, refl, false, none, some, List, [], ◌∷◌, ◌++◌, arith, modify, get_elem?, filter,
  find, enumerate_from, min_by_key,
}
use aivyx_broker.Json.Tree.{tree_json, tree_laws, get}
use aivyx_broker.Scheduler.{
  SlotState, Admission, new, claim, try_admit_locked, admit_locked, release, wake_waiters_for,
}
use aivyx_broker.Scheduler.System.{holding, attempt, finish}
use aivyx_broker.Server.Upstream.{
  CacheKey, cache_key, saved_meta, warm_up, save, send_upstream, prepare, warm_or_restore, warm,
  Action, warm_up_body, post,
}
use aivyx_broker.Broker.{World, Broker, init_broker, job_of, act, admit, admits, acts}
use aivyx_broker.Broker.Samples.{
  world, cached, uncached, world_of, broker1, broker2, broker3, job1, job_after, restored, marked,
  url, sent_body, afterwards,
}
use aivyx_broker.Broker.Coherence.{
  LlamaServer, Slots, Run, start, later, serve, effect, warm_up_request, Asks,
}
use aivyx_broker.Broker.Coherence.Safety.{idle-Holds, post-Holds, save-Holds}
use aivyx_broker.Server.Relay.{forward, relay, relay_response}
use aivyx_broker.Server.Chat.{chat_completions}
use aivyx_broker.Broker.Coherence.Samples.{llama, documented, the_hint}

-- One action of the task of request 0.
acted :
    {w : World} (l : LlamaServer w) {b : Broker w} {t : Slots w l}
    → Run w l 1 [] b t
    → (action : Action w.json) (rest : List (Action w.json)) → b.job 0 ≡ action ∷ rest
    → Run w l 1 [] (act w b 0 action rest) (serve w l 0 action (b.scheduler.stage 0) t)
unfolding effect
acted l r action rest e = later r (acts 0 action rest e)

abbrev empty : Slots world (llama cached)
empty = record { state = λ k. none; spoiled = λ k. false }

-- Request 0 is admitted, restores its prefix, and records it.
abbrev at_post : Slots world (llama cached)
at_post =
    serve world (llama cached) 0 marked (broker2.scheduler.stage 0)
      (serve world (llama cached) 0 restored (broker1.scheduler.stage 0) empty)

run1 : Run world (llama cached) 1 [] broker1 empty
unfolding effect
run1 = later (start empty) (admits 0 refl)

run3 : Run world (llama cached) 1 [] broker3 at_post
run3 =
    acted (llama cached)
      (acted (llama cached) run1 restored (marked ∷ post url sent_body ∷ afterwards) job1) marked
      (post url sent_body ∷ afterwards)
      (job_after broker1 restored (marked ∷ post url sent_body ∷ afterwards))

post-Holds_example :
    (a : Admission) × (broker3.scheduler.stage 0 ≡ holding a)
    × Asks world 0 a.slot_id
        (record { prefix_hash = "p"; preferred_slot = none; model = some "m" })
        url
        sent_body
    × ((at_post.spoiled a.slot_id ≡ true) ⊎ (at_post.state a.slot_id ≡ some ("p", "m")))
post-Holds_example =
    post-Holds (llama cached) tree_laws (documented cached) (omega arith) run3 0
      (record { prefix_hash = "p"; preferred_slot = none; model = some "m" }) url sent_body
      afterwards (job_after broker2 marked (post url sent_body ∷ afterwards)) (the_hint cached 0)

-- The rest of the task, up to the release of its slot.
abbrev acts_all : Broker world → List (Action tree_json) → List (Action tree_json) → Broker world
acts_all b [] rest = b
acts_all b (action ∷ actions) rest = acts_all (act world b 0 action (actions ++ rest)) actions rest

abbrev serves_all :
    Broker world
    → List (Action tree_json)
    → List (Action tree_json)
    → Slots world (llama cached)
    → Slots world (llama cached)
serves_all b [] rest t = t
serves_all b (action ∷ actions) rest t =
    serves_all (act world b 0 action (actions ++ rest)) actions rest
      (serve world (llama cached) 0 action (b.scheduler.stage 0) t)

acted_all :
    (b : Broker world) (t : Slots world (llama cached)) (actions rest : List (Action tree_json))
    → Run world (llama cached) 1 [] b t
    → b.job 0 ≡ actions ++ rest
    → Run world (llama cached) 1 [] (acts_all b actions rest) (serves_all b actions rest t)
acted_all b t [] rest r e = r
acted_all b t (action ∷ actions) rest r e =
    acted_all (act world b 0 action (actions ++ rest))
      (serve world (llama cached) 0 action (b.scheduler.stage 0) t) actions rest
      (acted (llama cached) r action (actions ++ rest) e) (job_after b action (actions ++ rest))

abbrev freed : Broker world
freed = acts_all broker3 (post url sent_body ∷ afterwards) []

abbrev slots_freed : Slots world (llama cached)
slots_freed = serves_all broker3 (post url sent_body ∷ afterwards) [] at_post

run_freed : Run world (llama cached) 1 [] freed slots_freed
run_freed =
    acted_all broker3 at_post (post url sent_body ∷ afterwards) [] run3
      (job_after broker2 marked (post url sent_body ∷ afterwards))

abbrev freed_slot : SlotState
freed_slot = record {
  busy = false;
  resident_prefix = some "p";
  resident_model = some "m";
  seeded_unowned = false;
  last_used = 1;
}

freed_slots : get_elem? freed.scheduler.inner.slots 0 ≡ some freed_slot
unfolding act admit attempt try_admit_locked admit_locked new modify filter enumerate_from
    min_by_key claim find get finish release wake_waiters_for
freed_slots = refl

sound : slots_freed.spoiled 0 ≡ false
unfolding serve
sound = refl

idle-Holds_example : slots_freed.state 0 ≡ some ("p", "m")
idle-Holds_example =
    idle-Holds (llama cached) tree_laws (documented cached) (omega arith) run_freed 0 freed_slot "p"
      freed_slots refl refl sound

-- Where the cache has no prefix, the task of request 0 warms the slot up and saves it.
abbrev cold : World
cold = world_of uncached

abbrev cold1 : Broker cold
cold1 = admit cold (init_broker cold 1 []) 0

abbrev the_key : CacheKey
the_key =
    cache_key tree_json uncached url
      (record { prefix_hash = "p"; preferred_slot = none; model = some "m" })

abbrev warmed : Action tree_json
warmed = warm_up url (
    warm_up_request cold 0 (record { prefix_hash = "p"; preferred_slot = none; model = some "m" })
      0)

abbrev saving : Action tree_json
saving = save the_key 0 (saved_meta tree_json uncached url)

cold_job1 : cold1.job 0 ≡ restored ∷ warmed ∷ saving ∷ marked ∷ post url sent_body ∷ afterwards
unfolding admit attempt try_admit_locked admit_locked new modify filter enumerate_from min_by_key
    claim find job_of chat_completions forward relay_response relay send_upstream prepare
    warm_or_restore warm get warm_up_body
cold_job1 = refl

abbrev nothing_held : Slots cold (llama uncached)
nothing_held = record { state = λ k. none; spoiled = λ k. false }

cold_run1 : Run cold (llama uncached) 1 [] cold1 nothing_held
unfolding effect
cold_run1 = later (start nothing_held) (admits 0 refl)

abbrev to_save : List (Action tree_json)
to_save = saving ∷ marked ∷ post url sent_body ∷ afterwards

abbrev cold2 : Broker cold
cold2 = act cold cold1 0 restored (warmed ∷ to_save)

abbrev warm_slot : Slots cold (llama uncached)
warm_slot =
    serve cold (llama uncached) 0 warmed (cold2.scheduler.stage 0)
      (serve cold (llama uncached) 0 restored (cold1.scheduler.stage 0) nothing_held)

cold_run3 : Run cold (llama uncached) 1 [] (act cold cold2 0 warmed to_save) warm_slot
cold_run3 =
    acted (llama uncached) (acted (llama uncached) cold_run1 restored (warmed ∷ to_save) cold_job1)
      warmed to_save (job_after cold1 restored (warmed ∷ to_save))

save-Holds_example :
    (a : Admission) × ((act cold cold2 0 warmed to_save).scheduler.stage 0 ≡ holding a)
    × (0 ≡ a.slot_id)
    × (warm_slot.state 0 ≡ some ("p", "m"))
save-Holds_example =
    save-Holds (llama uncached) tree_laws (documented uncached) (omega arith) cold_run3 0 the_key 0
      (saved_meta tree_json uncached url) (marked ∷ post url sent_body ∷ afterwards)
      (job_after cold2 warmed to_save)
