-- ===== src/Server/Chat/Request.antt =====
-- src/server.rs: the request that llama-server is sent.
use aivyx_broker.Prelude.{
  ℕ, ◌≡◌, refl, ◌∙◌, true, false, Option, none, some, List, [], ◌∷◌, ◌++◌, String, str_eq, Text,
  Result, ok, err, arith, inl, inr, Result-cases,
}
use mathlib.Core.List.{append_assoc}
use aivyx_broker.Json.{Json, JsonLaws}
use aivyx_broker.Scheduler.{SlotHint, Admission, SchedulerError}
use aivyx_broker.Server.Upstream.{
  Action, Outside, prepare, send_upstream, post, send_head, close, release, with_slot,
  completions_url,
}
use aivyx_broker.Server.Relay.{Client, forward, relay_response}
use aivyx_broker.Server.Chat.{chat_completions, hint_of, unhinted}

-- The request as sent: the client's, without the hint, on the slot.
pub record Forwarded (J : Json) (body : Json.Value J) (slot_id : ℕ) (request : Json.Value J)
    : Type 0 where
  pub slot : J.get request "id_slot" ≡ some (J.number slot_id)
  pub hintless : J.get request "aivyx_slot_hint" ≡ none
  pub rest :
      (key : String)
      → str_eq "id_slot" key ≡ false
      → str_eq "aivyx_slot_hint" key ≡ false
      → J.get request key ≡ J.get body key

module _ (J : Json) (laws : JsonLaws J) (parse_hint : Json.Value J → Option SlotHint)
    (body : Json.Value J) (outside : Outside J) (llama_server_url : Text) where
  request-Forwarded :
      (slot_id : ℕ)
      → J.is_object body ≡ true
      → Forwarded J body slot_id
          (with_slot J outside llama_server_url (unhinted J parse_hint body) slot_id)
  request-Forwarded slot_id o = record {
    slot =
        laws.get-insert (unhinted J parse_hint body) "id_slot" (J.number slot_id)
          (laws.is_object-remove body "aivyx_slot_hint" ∙ o);
    hintless =
        laws.get-insert_other (unhinted J parse_hint body) "id_slot" "aivyx_slot_hint"
          (J.number slot_id) refl
        ∙ laws.get-remove body "aivyx_slot_hint";
    rest = λ key a b.
        laws.get-insert_other (unhinted J parse_hint body) "id_slot" key (J.number slot_id) a
        ∙ laws.get-remove_other body "aivyx_slot_hint" key b;
  }

  abbrev pub prepared : Admission → List (Action J) × Result (Unit {0}) String
  prepared admission =
      prepare J outside llama_server_url (unhinted J parse_hint body) (hint_of J parse_hint body)
        admission

  -- When a request whose body is an object is admitted and its slot prepared, llama-server is sent
  -- the client's body on the slot that was granted: `id_slot` names the slot, the hint is gone, and
  -- every other key has the client's value.
  pub chat_completions-Forwarded :
      (admitted : Option SlotHint → Result Admission SchedulerError) (client : Client)
      (admission : Admission)
      → J.is_object body ≡ true
      → admitted (hint_of J parse_hint body) ≡ ok admission
      → (prepared admission).1 ≡ ok tt
      → (request : Json.Value J) × (after : List (Action J)) × ((chat_completions J parse_hint body
            admitted outside llama_server_url client).0
          ≡ (prepared admission).0
            ++ post (completions_url J outside llama_server_url) request ∷ after)
        × Forwarded J body admission.slot_id request
  unfolding chat_completions forward send_upstream
  chat_completions-Forwarded admitted client admission o a p =
      let slot_id = admission.slot_id in
      let request = with_slot J outside llama_server_url (unhinted J parse_hint body) slot_id in
      let url = completions_url J outside llama_server_url in
      elim (Result-cases (outside.answer url request)) [
        | inl (resp, e) ↦ (
          request,
          relay_response J client slot_id resp,
          ground (
            arith,
            a,
            p,
            e,
            append_assoc (prepared admission).0 (post url request ∷ [])
                (relay_response J client slot_id resp),
          ),
          request-Forwarded slot_id o,
        )
        | inr (m, e) ↦ (
          request,
          send_head (err m) ∷ close ∷ release slot_id ∷ [],
          ground (
            arith,
            a,
            p,
            e,
            append_assoc (prepared admission).0 (post url request ∷ [])
                (send_head (err m) ∷ close ∷ release slot_id ∷ []),
          ),
          request-Forwarded slot_id o,
        )
      ]
