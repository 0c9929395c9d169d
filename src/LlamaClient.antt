-- ===== src/LlamaClient.antt =====
-- src/llama_client.rs: what the broker reads from llama-server, slots and models. An answer of
-- llama-server is its status and its body, a JSON value or not; `get` says what a request gives.
pub mod Parse
pub mod Seed
mod Examples
use aivyx_broker.Prelude.{
  ℕ, Bool, true, false, ◌&&◌, ◌||◌, Option, none, some, List, [], ◌∷◌, ◌++◌, ltb, leb, ◌==◌,
  if◌then◌else◌, ◌>>=◌, collect_map, length, u32, String, str_eq, Text, codes, Result, ok, err,
}
use aivyx_broker.Json.{Json}
use aivyx_broker.Scheduler.{Inner, seed_busy}

pub data LlamaClientError : Type 0 where
  request : Text → LlamaClientError
  parse : LlamaClientError

pub record LlamaSlot : Type 0 where
  pub id : ℕ
  pub is_processing : Bool

-- One model the upstream `llama-server` knows about.
pub record LoadedModel : Type 0 where
  pub id : String
  pub loaded : Bool

-- `trim_end_matches('/')`
unfoldable pub trim_slashes : Text → Text
trim_slashes [] = []
trim_slashes (c ∷ s) = elim (trim_slashes s) [
  | [] ↦ if c == b'/' then [] else c ∷ []
  | d ∷ t ↦ c ∷ d ∷ t
]

-- The status of a model that is left out of the list, or whether it is loaded.
abbrev pub model_status : Option String → Option Bool
model_status none = some true
model_status (some s) =
    if str_eq s "loaded" || str_eq s "loading"
    then some true
    else if str_eq s "unloaded" || str_eq s "sleeping"
    then some false
    else none

pub record Reply (J : Json) : Type 0 where
  pub status : ℕ
  pub json : Option (Json.Value J)

module _ (J : Json) where
  abbrev pub parse_slot : Json.Value J → Option LlamaSlot
  parse_slot v = J.get v "id" >>= λ id. J.as_u64 id >>= λ n. J.get v "is_processing" >>= λ p.
      J.as_bool p >>= λ b. some (record { id = u32 n; is_processing = b })

  unfoldable pub parse_slots : Json.Value J → Option (List LlamaSlot)
  parse_slots json = J.as_array json >>= λ arr. collect_map parse_slot arr

  abbrev pub id_of : Json.Value J → Option String
  id_of m = J.get m "id" >>= J.as_str

  abbrev pub status_of : Json.Value J → Option String
  status_of m = (J.get m "status" >>= λ s. J.get s "value") >>= J.as_str

  -- The loop over the entries, with the models so far.
  unfoldable pub parse_entries : List (Json.Value J) → List LoadedModel → Option (List LoadedModel)
  parse_entries [] models = some models
  parse_entries (m ∷ ms) models = elim (id_of m) [
    | none ↦ none
    | some id ↦ parse_entries ms (elim (model_status (status_of m)) [
      | none ↦ models
      | some loaded ↦ models ++ record { id = id; loaded = loaded } ∷ []
    ])
  ]

  unfoldable pub parse_models : Json.Value J → Option (List LoadedModel)
  unfolding parse_entries
  parse_models json = (J.get json "data" >>= J.as_array) >>= λ ms. parse_entries ms []

  -- `error_for_status`, and then the body as JSON
  abbrev pub json_of : Result (Reply J) Text → Result (Json.Value J) LlamaClientError
  json_of (err e) = err (request e)
  json_of (ok reply) =
      if leb 400 reply.status && ltb reply.status 600
      then err (request (codes "status"))
      else elim reply.json [ none ↦ err (request (codes "decode")) | some v ↦ ok v ]

  abbrev pub parsed {ℓ} :
      {A : Type ℓ}
      → (Json.Value J → Option A)
      → Result (Json.Value J) LlamaClientError
      → Result A LlamaClientError
  parsed f (err e) = err e
  parsed f (ok v) = elim (f v) [ none ↦ err parse | some a ↦ ok a ]

  module _ (get : Text → Result (Reply J) Text) (base_url : Text) where
    unfoldable pub fetch_slots : Result (List LlamaSlot) LlamaClientError
    unfolding parse_slots trim_slashes
    fetch_slots = parsed parse_slots (json_of (get (trim_slashes base_url ++ codes "/slots")))

    unfoldable pub fetch_models : Result (List LoadedModel) LlamaClientError
    unfolding parse_models trim_slashes
    fetch_models = parsed parse_models (json_of (get (trim_slashes base_url ++ codes "/models")))

-- The loop that marks the slots in use.
unfoldable pub seed_processing : Inner → List LlamaSlot → Inner
unfolding seed_busy
seed_processing scheduler [] = scheduler
seed_processing scheduler (slot ∷ slots) =
    seed_processing (if slot.is_processing then seed_busy scheduler slot.id else scheduler) slots

unfoldable pub seed_scheduler_from_llama_server :
    (J : Json) → Inner → (Text → Result (Reply J) Text) → Text → Inner × Result ℕ LlamaClientError
unfolding seed_processing fetch_slots
seed_scheduler_from_llama_server J scheduler get base_url = elim (fetch_slots J get base_url) [
  | err e ↦ (scheduler, err e)
  | ok slots ↦ (seed_processing scheduler slots, ok (u32 (length slots)))
]
