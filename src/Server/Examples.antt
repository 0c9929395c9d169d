-- ===== src/Server/Examples.antt =====
-- src/server.rs: the theorems on chat completions at concrete inputs.
use aivyx_broker.Prelude.{
  ℕ, zero, suc, ◌≡◌, ◌≢◌, ◌⊎◌, ◌≤◌, length, refl, true, false, Option, none, some, List, [], ◌∷◌,
  ◌++◌, String, Text, Result, ok, err, codes, filter, arith,
}
use aivyx_broker.Json.Tree.{Tree, tree_json, tree_laws, number, string, object_of, get}
use aivyx_broker.Scheduler.{SlotHint, Admission, SchedulerError}
use aivyx_broker.Server.Upstream.{
  Action, post, send_chunk, close, clear_resident, send_head, read, release, with_slot, Outside,
  UpstreamResponse, prepare, warm_or_restore, warm, send_upstream, completions_url,
}
use aivyx_broker.Server.Relay.{
  Sent, Client, accepted, hung_up, timed_out, forward, relay_response, relay,
}
use aivyx_broker.Server.Relay.Release.{
  is_upstream, is_release, Split, forward-Released, forward-Upstream,
}
use aivyx_broker.Server.Chat.{relayed, body_stream, chat_completions, reply_of}
use aivyx_broker.Server.Chat.Panic.{Interrupted, forward-Panic}
use aivyx_broker.Server.Relay.Unwinding.{unwound}
use aivyx_broker.Server.Chat.Channel.{
  Link, opened, sends, takes, Reach, start, later, pending, forward_channel_chunks,
}
use aivyx_broker.Server.Chat.Streams.{received-Streams}
use aivyx_broker.Server.Chat.Flow.{Steps, forward-Streams}
use aivyx_broker.Server.Chat.Delivery.{Delivered, wanted}
use aivyx_broker.Server.Chat.Outcome.{reply, chat_completions-Delivered}
use aivyx_broker.Server.Chat.Request.{Forwarded, prepared, chat_completions-Forwarded}

abbrev url : Text
url = codes "http://localhost:8080"

abbrev hinted_body : Tree
hinted_body =
    object_of (("model", string "m") ∷ ("aivyx_slot_hint", string "p") ∷ ("stream", number 1) ∷ [])

-- A hint is given by its prefix alone here.
abbrev parse_hint : Tree → Option SlotHint
parse_hint (string s) = some (record { prefix_hash = s; preferred_slot = none; model = none })
parse_hint _ = none

abbrev hint : SlotHint
hint = record { prefix_hash = "p"; preferred_slot = none; model = some "m" }

abbrev answer : UpstreamResponse
answer = record {
  status = 200;
  headers = [];
  chunks = ok (codes "one") ∷ ok (codes "two") ∷ ok (codes "three") ∷ [];
}

-- Nothing is in the cache, and warming up works.
abbrev healthy : Outside tree_json
healthy = record {
  restore_into_slot = λ key slot_id. ok false;
  save_from_slot = λ key slot_id meta. err "disk full";
  answer_warm_up = λ u body. ok answer;
  answer = λ u body. ok answer;
}

abbrev down : Outside tree_json
down = record {
  restore_into_slot = λ key slot_id. err "io";
  save_from_slot = λ key slot_id meta. ok tt;
  answer_warm_up = λ u body. err "refused";
  answer = λ u body. err "refused";
}

abbrev granted_slot : Admission
granted_slot = record { slot_id = 1; cache_ready = false }

abbrev admitted : Option SlotHint → Result Admission SchedulerError
admitted h = ok granted_slot

abbrev patient : Client
patient = record { takes_head = true; takes = λ i. accepted }

-- It stops reading after one chunk.
abbrev stalls_at : ℕ → Sent
stalls_at zero = accepted
stalls_at (suc i) = timed_out

abbrev stalled : Client
stalled = record { takes_head = true; takes = stalls_at }

abbrev absent : Client
absent = record { takes_head = false; takes = λ i. hung_up }

stalled-stays : (i : ℕ) → stalls_at i ≢ hung_up
stalled-stays zero e = cc
stalled-stays (suc i) e = cc

forward-Released_example :
    Split tree_json healthy url hinted_body
      (some hint)
      granted_slot
      (forward tree_json stalled healthy url hinted_body (some hint) granted_slot)
forward-Released_example =
    forward-Released tree_json healthy url hinted_body stalled (some hint) granted_slot

forward-Upstream_example :
    filter
      (is_upstream tree_json)
      (forward tree_json stalled healthy url hinted_body (some hint) granted_slot)
    ≡ filter
        (is_upstream tree_json)
        (forward tree_json absent healthy url hinted_body (some hint) granted_slot)
forward-Upstream_example =
    forward-Upstream tree_json healthy url hinted_body (some hint) granted_slot stalled absent

-- The task panics once it has sent one of three chunks.
abbrev sent_one : List (Action tree_json)
sent_one =
    clear_resident 1
    ∷ post (completions_url tree_json healthy url) (with_slot tree_json healthy url hinted_body 1)
    ∷ send_head (ok (record { status = 200; headers = [] }))
    ∷ read
    ∷ send_chunk (ok (codes "one"))
    ∷ []

abbrev two_left : List (Action tree_json)
two_left =
    read
    ∷ send_chunk (ok (codes "two"))
    ∷ read
    ∷ send_chunk (ok (codes "three"))
    ∷ read
    ∷ release 1
    ∷ close
    ∷ []

forward-Panic_example :
    (filter (is_release tree_json) (sent_one ++ unwound tree_json two_left) ≡ release 1 ∷ [])
    × Interrupted tree_json sent_one (reply_of tree_json (sent_one ++ unwound tree_json two_left))
unfolding forward relay_response relay send_upstream prepare
forward-Panic_example =
    forward-Panic tree_json healthy url hinted_body patient none granted_slot sent_one two_left refl

chat_completions-Delivered_example :
    (stream : List (Result Text String)) × (reply tree_json parse_hint hinted_body admitted healthy
        url stalled
      ≡ relayed (record { status = 200; headers = [] }) stream)
    × Delivered (wanted (ok (codes "one") ∷ ok (codes "two") ∷ ok (codes "three") ∷ [])) stream
unfolding send_upstream prepare warm_or_restore warm get
chat_completions-Delivered_example =
    chat_completions-Delivered tree_json parse_hint hinted_body admitted healthy url stalled
      granted_slot answer refl refl refl stalled-stays

chat_completions-Forwarded_example :
    (request : Tree) × (after : List (Action tree_json)) × ((chat_completions tree_json parse_hint
        hinted_body admitted healthy url absent).0
      ≡ (prepared tree_json tree_laws parse_hint hinted_body healthy url granted_slot).0
        ++ post (completions_url tree_json healthy url) request ∷ after)
    × Forwarded tree_json hinted_body 1 request
unfolding prepare warm_or_restore warm get
chat_completions-Forwarded_example =
    chat_completions-Forwarded tree_json tree_laws parse_hint hinted_body healthy url admitted
      absent granted_slot refl refl refl

-- A task that sends one chunk and closes; the client takes it before the channel is closed.
abbrev short_job : List (Action tree_json)
short_job = send_chunk (ok (codes "one")) ∷ close ∷ []

abbrev one_taken_link : Link tree_json
one_taken_link = record (opened tree_json short_job) {
  job = close ∷ [];
  received = ok (codes "one") ∷ [];
}

one_taken_reached : Reach tree_json short_job one_taken_link
one_taken_reached =
    later (later start (sends (ok (codes "one")) (close ∷ []) refl refl (omega arith)))
      (takes (ok (codes "one")) [] refl refl)

received-Streams_example :
    (length one_taken_link.buffer ≤ forward_channel_chunks)
    × (body_stream tree_json false short_job
        ≡ one_taken_link.received ++ pending tree_json one_taken_link)
    × ((one_taken_link.over ≡ false)
        ⊎ (one_taken_link.received ≡ body_stream tree_json false short_job))
received-Streams_example = received-Streams tree_json one_taken_reached

-- A client that stops reading after a chunk: its task gives up on it, and the body ends in an error.
abbrev forwarded : List (Action tree_json)
forwarded = forward tree_json stalled healthy url hinted_body (some hint) granted_slot

forward-Streams_example :
    (t : Link tree_json) × Steps tree_json (opened tree_json forwarded) t
    × (t.over ≡ true)
    × (t.received ≡ body_stream tree_json false forwarded)
forward-Streams_example =
    forward-Streams tree_json stalled healthy url hinted_body (some hint) granted_slot start
