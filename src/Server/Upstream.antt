-- ===== src/Server/Upstream.antt =====
-- src/server.rs, send_upstream and warm_or_restore: preparing a slot and sending the request on it.
pub mod Residency
use aivyx_broker.Prelude.{
  ℕ, Bool, false, not, ◌&&◌, Option, none, some, List, [], ◌∷◌, ◌++◌, ltb, leb, if◌then◌else◌,
  ◌>>=◌, find, get_or, opt_str_eq, String, Text, codes, Result, ok, err,
}
use aivyx_broker.Json.{Json}
use aivyx_broker.LlamaClient.{trim_slashes}
use aivyx_broker.Scheduler.{SlotHint, Admission}

-- `aivyx_kvcache::CacheKey` and `CacheMeta`
pub record CacheKey : Type 0 where
  pub backend_id : String
  pub model_id : String
  pub build_hash : String
  pub prefix_hash : String

pub record CacheMeta : Type 0 where
  pub size_bytes : ℕ
  pub token_count : ℕ

-- llama-server's answer: its body is the items that the stream of chunks yields before it ends.
pub record UpstreamResponse : Type 0 where
  pub status : ℕ
  pub headers : List (String × String)
  pub chunks : List (Result Text String)

pub record UpstreamHead : Type 0 where
  pub status : ℕ
  pub headers : List (String × String)

-- What the forwarding task does, in order. `read` is one poll of llama-server's body; `close` drops
-- the sender of the client's chunks; `release` is the drop of the `ReleaseGuard`.
pub data Action (J : Json) : Type 0 where
  restore : CacheKey → ℕ → Action J
  warm_up : Text → Json.Value J → Action J
  save : CacheKey → ℕ → CacheMeta → Action J
  mark_resident : ℕ → Option String → String → Action J
  clear_resident : ℕ → Action J
  post : Text → Json.Value J → Action J
  send_head : Result UpstreamHead String → Action J
  read : Action J
  send_chunk : Result Text String → Action J
  abandon : Action J
  close : Action J
  release : ℕ → Action J

-- The answers of the KV-cache store and of llama-server.
pub record Outside (J : Json) : Type 0 where
  pub restore_into_slot : CacheKey → ℕ → Result Bool String
  pub save_from_slot : CacheKey → ℕ → CacheMeta → Result (Unit {0}) String
  pub answer_warm_up : Text → Json.Value J → Result UpstreamResponse String
  pub answer : Text → Json.Value J → Result UpstreamResponse String

-- `error_for_status`
abbrev pub error_for_status : Result UpstreamResponse String → Result UpstreamResponse String
error_for_status (err e) = err e
error_for_status (ok r) = if leb 400 r.status && ltb r.status 600 then err "status" else ok r

-- `unwrap_or_else` on the answer of a restore: an error counts as not restored.
abbrev pub was_restored : Result Bool String → Bool
was_restored (err e) = false
was_restored (ok b) = b

module _ (J : Json) (outside : Outside J) (llama_server_url : Text) where
  abbrev pub completions_url : Text
  completions_url = trim_slashes llama_server_url ++ codes "/v1/chat/completions"

  abbrev pub cache_key : SlotHint → CacheKey
  cache_key hint = record {
    backend_id = "aivyx-broker";
    model_id = get_or hint.model "";
    build_hash = "aivyx-broker";
    prefix_hash = hint.prefix_hash;
  }

  abbrev pub is_system : Json.Value J → Bool
  is_system m = opt_str_eq (J.get m "role" >>= λ r. J.as_str r) (some "system")

  -- The first message of the system role, or an empty one.
  unfoldable pub system_message : Json.Value J → Json.Value J
  unfolding find
  system_message body =
      get_or (J.get body "messages" >>= λ m. J.as_array m >>= λ arr. find is_system arr)
        (J.object (("role", J.string "system") ∷ ("content", J.string "") ∷ []))

  abbrev pub with_key : String → Option (Json.Value J) → Json.Value J → Json.Value J
  with_key key none v = v
  with_key key (some w) v = J.insert v key w

  abbrev pub model_value : Option String → Option (Json.Value J)
  model_value none = none
  model_value (some model) = some (J.string model)

  unfoldable pub warm_up_body : Json.Value J → SlotHint → ℕ → Json.Value J
  unfolding system_message
  warm_up_body body hint slot_id = with_key "model" (model_value hint.model) (
      with_key "tools" (J.get body "tools") (
        J.object (
          (
            "messages",
            J.array (
                system_message body
                ∷ J.object (("role", J.string "user") ∷ ("content", J.string "") ∷ [])
                ∷ []),
          )
          ∷ ("max_tokens", J.number 1)
          ∷ ("id_slot", J.number slot_id)
          ∷ [])))

  abbrev pub saved_meta : CacheMeta
  saved_meta = record { size_bytes = 1; token_count = 1 }

  abbrev pub mark : SlotHint → ℕ → Action J
  mark hint slot_id = mark_resident slot_id hint.model hint.prefix_hash

  -- The part of `warm_or_restore` for a prefix that was not restored. A failed save is only logged.
  unfoldable pub warm : Json.Value J → SlotHint → ℕ → List (Action J) × Result (Unit {0}) String
  unfolding warm_up_body
  warm body hint slot_id =
      let warm_up_request = warm_up_body body hint slot_id in
      elim (error_for_status (outside.answer_warm_up completions_url warm_up_request)) [
        | err e ↦ (warm_up completions_url warm_up_request ∷ [], err e)
        | ok r ↦ (
          warm_up completions_url warm_up_request
              ∷ save (cache_key hint) slot_id saved_meta
              ∷ mark hint slot_id
              ∷ [],
          ok tt,
        )
      ]

  unfoldable pub warm_or_restore :
      Json.Value J → SlotHint → ℕ → List (Action J) × Result (Unit {0}) String
  unfolding warm
  warm_or_restore body hint slot_id =
      let key = cache_key hint in
      if was_restored (outside.restore_into_slot key slot_id)
      then (restore key slot_id ∷ mark hint slot_id ∷ [], ok tt)
      else (let (actions, result) = warm body hint slot_id in
          (restore key slot_id ∷ actions, result))

  -- What `send_upstream` does before it sends the request.
  unfoldable pub prepare :
      Json.Value J → Option SlotHint → Admission → List (Action J) × Result (Unit {0}) String
  unfolding warm_or_restore
  prepare body none admission = (clear_resident admission.slot_id ∷ [], ok tt)
  prepare body (some h) admission =
      if not admission.cache_ready then warm_or_restore body h admission.slot_id else ([], ok tt)

  abbrev pub with_slot : Json.Value J → ℕ → Json.Value J
  with_slot body slot_id = J.insert body "id_slot" (J.number slot_id)

  unfoldable pub send_upstream :
      Json.Value J → Option SlotHint → Admission → List (Action J) × Result UpstreamResponse String
  unfolding prepare
  send_upstream body hint admission =
      let (actions, prepared) = prepare body hint admission in
      elim prepared [
        | err e ↦ (actions, err e)
        | ok _ ↦
            let request = with_slot body admission.slot_id in
            (actions ++ post completions_url request ∷ [], outside.answer completions_url request)
      ]
