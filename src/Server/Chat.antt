-- ===== src/Server/Chat.antt =====
-- src/server.rs, chat_completions: the handler that the client talks to.
pub mod Delivery
pub mod Request
pub mod Outcome
pub mod Panic
pub mod Channel
pub mod Streams
pub mod Closing
pub mod Flow
use aivyx_broker.Prelude.{
  Bool, true, false, Option, none, some, List, [], ◌∷◌, String, Text, Result, ok, err,
  if◌then◌else◌, ◌>>=◌,
}
use aivyx_broker.Http.{Response, error}
use aivyx_broker.Json.{Json}
use aivyx_broker.Scheduler.{SlotHint, Admission, SchedulerError}
use aivyx_broker.Server.Upstream.{
  Action, send_head, send_chunk, abandon, close, Outside, UpstreamHead,
}
use aivyx_broker.Server.Relay.{Client, forward}

-- What the client gets: an error of the broker's own, or llama-server's status and headers with the
-- items of the body's stream.
pub data Reply : Type 0 where
  failed : Response → Reply
  relayed : UpstreamHead → List (Result Text String) → Reply

abbrev pub broken : Result Text String
broken = err "aivyx-broker stopped forwarding: the client did not read the response"

module _ (J : Json) where
  -- `head_rx.await`: the head that the task sends, if it sends one.
  unfoldable pub head_of : List (Action J) → Option (Result UpstreamHead String)
  head_of [] = none
  head_of (send_head h ∷ actions) = some h
  head_of (_ ∷ actions) = head_of actions

  -- The items of the body, `abandoned` telling whether the flag is set so far: the chunks sent, and
  -- at the end of the channel an error if the flag is set.
  unfoldable pub body_stream : Bool → List (Action J) → List (Result Text String)
  body_stream abandoned [] = []
  body_stream abandoned (send_chunk chunk ∷ actions) = chunk ∷ body_stream abandoned actions
  body_stream abandoned (abandon ∷ actions) = body_stream true actions
  body_stream abandoned (close ∷ actions) = if abandoned then broken ∷ [] else []
  body_stream abandoned (_ ∷ actions) = body_stream abandoned actions

  abbrev pub reply_of : List (Action J) → Reply
  reply_of actions = elim (head_of actions) [
    | none ↦
        failed (record { status = 502; body = error "forwarding task ended without a response" })
    | some (err e) ↦ failed (record { status = 502; body = error e })
    | some (ok head) ↦ relayed head (body_stream false actions)
  ]

  module _ (parse_hint : Json.Value J → Option SlotHint) (body : Json.Value J) where
    abbrev pub model_of : Option String
    model_of = J.get body "model" >>= λ m. J.as_str m

    -- The hint of a request and the request without it.
    abbrev pub hint_of : Option SlotHint
    hint_of = (J.remove body "aivyx_slot_hint").1 >>= parse_hint >>= λ hint.
        some (record hint { model = model_of })

    abbrev pub unhinted : Json.Value J
    unhinted = (J.remove body "aivyx_slot_hint").0

    -- The handler and its task: `admitted` is what `Scheduler::admit` answers for the hint.
    unfoldable pub chat_completions :
        (Option SlotHint → Result Admission SchedulerError)
        → Outside J
        → Text
        → Client
        → List (Action J) × Reply
    unfolding head_of body_stream forward
    chat_completions admitted outside llama_server_url client = elim (admitted hint_of) [
      | err _ ↦
          ([], failed (record { status = 503; body = error "timed out waiting for a free slot" }))
      | ok admission ↦
          let actions = forward J client outside llama_server_url unhinted hint_of admission in
          (actions, reply_of actions)
    ]
