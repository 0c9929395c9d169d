-- ===== src/Server/Chat/Outcome.antt =====
-- src/server.rs, chat_completions: which answer a request gets.
use aivyx_broker.Prelude.{
  ℕ, ◌≡◌, ◌≢◌, refl, true, false, Option, some, List, [], ◌∷◌, String, Text, Result, ok, err, arith,
}
use aivyx_broker.Http.{error}
use aivyx_broker.Json.{Json}
use aivyx_broker.Scheduler.{SlotHint, Admission, SchedulerError}
use aivyx_broker.Server.Upstream.{
  Outside, UpstreamResponse, send_upstream, send_head, close, release,
}
use aivyx_broker.Server.Relay.{Client, hung_up, forward, relay_response}
use aivyx_broker.Server.Chat.{
  Reply, failed, relayed, head_of, body_stream, chat_completions, hint_of, unhinted,
}
use aivyx_broker.Server.Chat.Delivery.{
  Delivered, wanted, head_of-skip, body_stream-skip, send_upstream-Unseen, relay_response-Delivered,
}

relay_response-head :
    (J : Json) (client : Client) (slot_id : ℕ) (resp : UpstreamResponse)
    → head_of J (relay_response J client slot_id resp)
      ≡ some (ok (record { status = resp.status; headers = resp.headers }))
unfolding head_of relay_response
relay_response-head J client slot_id resp = refl

module _ (J : Json) (parse_hint : Json.Value J → Option SlotHint) (body : Json.Value J)
    (admitted : Option SlotHint → Result Admission SchedulerError) (outside : Outside J)
    (llama_server_url : Text) (client : Client) where
  abbrev pub hint : Option SlotHint
  hint = hint_of J parse_hint body

  abbrev pub sent_for : Admission → Result UpstreamResponse String
  sent_for admission =
      (send_upstream J outside llama_server_url (unhinted J parse_hint body) hint admission).1

  abbrev pub reply : Reply
  reply = (chat_completions J parse_hint body admitted outside llama_server_url client).1

  -- A request that is admitted and whose preparation or sending fails gets 502 with the error.
  pub chat_completions-err :
      (admission : Admission) (e : String)
      → admitted hint ≡ ok admission
      → sent_for admission ≡ err e
      → reply ≡ failed (record { status = 502; body = error e })
  unfolding chat_completions forward
  chat_completions-err admission e a s =
      let sent =
        send_upstream J outside llama_server_url (unhinted J parse_hint body) hint admission in
      ground (
        arith,
        a,
        s,
        head_of-skip J sent.0 (send_head (err e) ∷ close ∷ release admission.slot_id ∷ []) (
            send_upstream-Unseen J outside llama_server_url (unhinted J parse_hint body) hint
              admission),
      )

  -- A client that takes the head and does not hang up gets llama-server's own status and headers,
  -- and as the body either all of llama-server's chunks (up to its first error), or some of them
  -- from the start and then an error: never a part that ends as if it were all.
  pub chat_completions-Delivered :
      (admission : Admission) (resp : UpstreamResponse)
      → admitted hint ≡ ok admission
      → sent_for admission ≡ ok resp
      → client.takes_head ≡ true
      → ((i : ℕ) → client.takes i ≢ hung_up)
      → (stream : List (Result Text String)) × (reply
          ≡ relayed (record { status = resp.status; headers = resp.headers }) stream)
        × Delivered (wanted resp.chunks) stream
  unfolding chat_completions forward
  chat_completions-Delivered admission resp a s h stays =
      let slot_id = admission.slot_id in
      let sent =
        send_upstream J outside llama_server_url (unhinted J parse_hint body) hint admission in
      let unseen =
        send_upstream-Unseen J outside llama_server_url (unhinted J parse_hint body) hint
          admission in
      (
        body_stream J false (relay_response J client slot_id resp),
        ground (
          arith,
          a,
          s,
          head_of-skip J sent.0 (relay_response J client slot_id resp) unseen,
          body_stream-skip J sent.0 (relay_response J client slot_id resp) unseen,
          relay_response-head J client slot_id resp,
        ),
        relay_response-Delivered J client stays slot_id resp h,
      )
