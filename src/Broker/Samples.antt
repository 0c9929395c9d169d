-- ===== src/Broker/Samples.antt =====
-- src/scheduler.rs with src/server.rs: a small broker and its first steps, for the examples.
use aivyx_broker.Prelude.{
  ◌≡◌, refl, true, false, Option, none, some, List, [], ◌∷◌, Text, ok, codes, modify, filter, find,
  enumerate_from, min_by_key, update_self,
}
use aivyx_broker.Json.Tree.{Tree, tree_json, string, object_of, get}
use aivyx_broker.Scheduler.{SlotHint, Admission, new, claim, try_admit_locked, admit_locked}
use aivyx_broker.Scheduler.System.{holding, attempt}
use aivyx_broker.Server.Upstream.{
  Action, restore, mark_resident, post, send_head, read, send_chunk, close, release, cache_key,
  Outside, UpstreamResponse, prepare, warm_or_restore, send_upstream, completions_url, with_slot,
}
use aivyx_broker.Server.Relay.{accepted, forward, relay, relay_response}
use aivyx_broker.Server.Chat.{chat_completions, unhinted}
use aivyx_broker.Broker.{
  Request, World, Broker, job_of, admit, act, init_broker, admits, acts, Reach, start, later,
}

abbrev pub parse_hint : Tree → Option SlotHint
parse_hint (string s) = some (record { prefix_hash = s; preferred_slot = none; model = none })
parse_hint _ = none

abbrev pub hinted_body : Tree
hinted_body = object_of (("model", string "m") ∷ ("aivyx_slot_hint", string "p") ∷ [])

abbrev pub answer : UpstreamResponse
answer = record { status = 200; headers = []; chunks = ok (codes "one") ∷ [] }

-- Every prefix is in the cache.
abbrev pub cached : Outside tree_json
cached = record {
  restore_into_slot = λ key slot_id. ok true;
  save_from_slot = λ key slot_id meta. ok tt;
  answer_warm_up = λ u body. ok answer;
  answer = λ u body. ok answer;
}

-- No prefix is in the cache.
abbrev pub uncached : Outside tree_json
uncached = record cached { restore_into_slot = λ key slot_id. ok false }

abbrev pub request : Outside tree_json → Request tree_json
request outside = record {
  body = hinted_body;
  outside = outside;
  client = record { takes_head = true; takes = λ j. accepted };
}

-- Every request is the same.
abbrev pub world_of : Outside tree_json → World
world_of outside = record {
  json = tree_json;
  parse_hint = parse_hint;
  llama_server_url = codes "http://localhost:8080";
  request = λ i. request outside;
}

abbrev pub world : World
world = world_of cached

abbrev pub granted_slot : Admission
granted_slot = record { slot_id = 0; cache_ready = false }

abbrev pub broker0 : Broker world
broker0 = init_broker world 1 []

-- Request 0 is admitted to the only slot, and its task restores the prefix and marks the slot.
abbrev pub broker1 : Broker world
broker1 = admit world broker0 0

pub reached1 : Reach world 1 [] broker1
reached1 = later start (admits 0 refl)

pub stage1 : broker1.scheduler.stage 0 ≡ holding granted_slot
unfolding admit attempt try_admit_locked admit_locked new modify filter enumerate_from min_by_key
    claim find get
stage1 = refl

abbrev pub sent_body : Tree
sent_body =
    with_slot tree_json cached world.llama_server_url (unhinted tree_json parse_hint hinted_body) 0

abbrev pub url : Text
url = completions_url tree_json cached world.llama_server_url

abbrev pub afterwards : List (Action tree_json)
afterwards =
    send_head (ok (record { status = 200; headers = [] }))
    ∷ read
    ∷ send_chunk (ok (codes "one"))
    ∷ read
    ∷ release 0
    ∷ close
    ∷ []

abbrev pub restored : Action tree_json
restored =
    restore
      (cache_key tree_json cached url
        (record { prefix_hash = "p"; preferred_slot = none; model = some "m" }))
      0

abbrev pub marked : Action tree_json
marked = mark_resident 0 (some "m") "p"

pub job1 : broker1.job 0 ≡ restored ∷ marked ∷ post url sent_body ∷ afterwards
unfolding admit attempt try_admit_locked admit_locked new modify filter enumerate_from min_by_key
    claim find job_of chat_completions forward relay_response relay send_upstream prepare
    warm_or_restore get
job1 = refl

abbrev pub broker2 : Broker world
broker2 = act world broker1 0 restored (marked ∷ post url sent_body ∷ afterwards)

abbrev pub broker3 : Broker world
broker3 = act world broker2 0 marked (post url sent_body ∷ afterwards)

pub job_after :
    {w : World} (b : Broker w) (action : Action w.json) (rest : List (Action w.json))
    → (act w b 0 action rest).job 0 ≡ rest
unfolding act
job_after b action rest = update_self b.job 0 rest

pub reached3 : Reach world 1 [] broker3
reached3 =
    later (later reached1 (acts 0 restored (marked ∷ post url sent_body ∷ afterwards) job1)) (
      acts 0 marked (post url sent_body ∷ afterwards)
        (job_after broker1 restored (marked ∷ post url sent_body ∷ afterwards)))
