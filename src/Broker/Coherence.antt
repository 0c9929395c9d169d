-- ===== src/Broker/Coherence.antt =====
-- src/scheduler.rs and src/server.rs over a llama-server whose slots keep what they computed: the
-- runs of the composition, with the content of the slots beside the broker's table of it.
pub mod Prompts
pub mod Requests
pub mod Jobs
pub mod Tails
pub mod Invariant
pub mod Acts
pub mod Serves
pub mod Performs
pub mod Panics
pub mod Admits
pub mod Safety
pub mod Isolation
mod Samples
mod Examples
mod Isolated
use aivyx_broker.Prelude.{
  [], ◌∷◌, ◌++◌, ◌⊎◌, ◌>>=◌, find, opt_str_eq, codes, ℕ, ◌≡◌, ◌≢◌, true, false, Bool, if◌then◌else◌,
  update, err, Option, some, List, String, Text, Result, ok, get_or,
}
use aivyx_broker.Json.{Json}
use aivyx_broker.LlamaClient.{trim_slashes}
use aivyx_broker.Scheduler.{SlotHint}
use aivyx_broker.Scheduler.System.{Stage, holding}
use aivyx_broker.Server.Upstream.{
  Action, restore, warm_up, save, mark_resident, clear_resident, post, CacheKey, CacheMeta,
  UpstreamResponse, Outside, completions_url, warm_up_body, with_slot, error_for_status,
}
use aivyx_broker.Server.Chat.{unhinted}
use aivyx_broker.Broker.{
  World, Broker, hint, Step, admits, wakes, expires, hangs_up, acts, reconciles, panics,
  init_broker,
}

-- Whether `error_for_status` refuses an answer.
abbrev pub is_refused : Result UpstreamResponse String → Bool
is_refused answer = elim (error_for_status answer) [ ok r ↦ false | err e ↦ true ]

-- The model that a request names in llama-server and in the cache.
abbrev pub model_id : Option String → String
model_id model = get_or model ""

module _ (w : World) where
  abbrev pub outside : ℕ → Outside w.json
  outside i = (w.request i).outside

  abbrev pub forwarded : ℕ → Json.Value w.json
  forwarded i = unhinted w.json w.parse_hint (w.request i).body

  abbrev pub client_body : ℕ → Json.Value w.json
  client_body i = (w.request i).body

  abbrev pub url : ℕ → Text
  url i = completions_url w.json (outside i) w.llama_server_url

  abbrev pub warm_up_request : ℕ → SlotHint → ℕ → Json.Value w.json
  warm_up_request i h k = warm_up_body w.json (outside i) w.llama_server_url (forwarded i) h k

  abbrev pub request : ℕ → ℕ → Json.Value w.json
  request i k = with_slot w.json (outside i) w.llama_server_url (forwarded i) k

  -- llama-server with the cache: what the calls made for request `i` do to its slots. In a state, a
  -- slot may hold a prefix, computed by a model.
  pub record LlamaServer : Type 1 where
    pub State : Type 0
    pub Holds : State → ℕ → String → String → Type 0
    pub after_restore : ℕ → CacheKey → ℕ → State → State
    pub after_warm_up : ℕ → Text → Json.Value w.json → State → State
    pub after_save : ℕ → CacheKey → ℕ → CacheMeta → State → State
    pub after_post : ℕ → Text → Json.Value w.json → State → State

  -- How llama-server reads a chat completion: the model that it names, and its system prompt.
  abbrev pub named_model : Json.Value w.json → Option String
  named_model v = w.json.get v "model" >>= λ m. w.json.as_str m

  abbrev pub is_from_system : Json.Value w.json → Bool
  is_from_system m = opt_str_eq (w.json.get m "role" >>= λ r. w.json.as_str r) (some "system")

  abbrev pub empty_system : Json.Value w.json
  empty_system =
      w.json.object (("role", w.json.string "system") ∷ ("content", w.json.string "") ∷ [])

  unfoldable pub system_prompt : Json.Value w.json → Json.Value w.json
  unfolding find
  system_prompt v =
      get_or (w.json.get v "messages" >>= λ m. w.json.as_array m >>= λ ms. find is_from_system ms)
        empty_system

  -- A chat completion for slot `k` with the prefix of request `i`, which is the system prompt and the
  -- tools of the client's request, for the client's model.
  pub record Asks (i k : ℕ) (h : SlotHint) (u : Text) (v : Json.Value w.json) : Type 0 where
    pub address : u ≡ trim_slashes w.llama_server_url ++ codes "/v1/chat/completions"
    pub slot : w.json.get v "id_slot" ≡ some (w.json.number k)
    pub model : named_model v ≡ h.model
    pub system : system_prompt v ≡ system_prompt (client_body i)
    pub tools : w.json.get v "tools" ≡ w.json.get (client_body i) "tools"

  -- What the broker relies on. A restore that reports success puts the prefix of its key in the slot
  -- that it names. So does an answered chat completion that names the slot and the model and has the
  -- request's system prompt and tools: it computes the prefix of these, for that model. One whose
  -- slot holds that prefix leaves it there. Saving a slot changes none. A call for one slot leaves
  -- the prefixes of the others, as does a request that is no object.
  pub record Documented (l : LlamaServer) : Type 0 where
    pub restored :
        (i k : ℕ) (key : CacheKey) (t : l.State)
        → (outside i).restore_into_slot key k ≡ ok true
        → l.Holds (l.after_restore i key k t) k key.prefix_hash key.model_id
    pub warmed :
        (i k : ℕ) (h : SlotHint) (u : Text) (v : Json.Value w.json) (t : l.State)
        → hint w i ≡ some h
        → Asks i k h u v
        → is_refused ((outside i).answer_warm_up u v) ≡ false
        → l.Holds (l.after_warm_up i u v t) k h.prefix_hash (model_id h.model)
    pub posted :
        (i k : ℕ) (h : SlotHint) (u : Text) (v : Json.Value w.json) (t : l.State)
        → hint w i ≡ some h
        → Asks i k h u v
        → l.Holds t k h.prefix_hash (model_id h.model)
        → l.Holds (l.after_post i u v t) k h.prefix_hash (model_id h.model)
    pub saved :
        (i k j : ℕ) (key : CacheKey) (meta : CacheMeta) (t : l.State) (p m : String)
        → l.Holds t j p m
        → l.Holds (l.after_save i key k meta t) j p m
    pub restored_apart :
        (i k j : ℕ) (key : CacheKey) (t : l.State) (p m : String)
        → k ≢ j
        → l.Holds t j p m
        → l.Holds (l.after_restore i key k t) j p m
    pub warmed_apart :
        (i k j : ℕ) (u : Text) (v : Json.Value w.json) (t : l.State) (p m : String)
        → w.json.get v "id_slot" ≡ some (w.json.number k)
        → k ≢ j
        → l.Holds t j p m
        → l.Holds (l.after_warm_up i u v t) j p m
    pub posted_apart :
        (i k j : ℕ) (u : Text) (v : Json.Value w.json) (t : l.State) (p m : String)
        → (w.json.get v "id_slot" ≡ some (w.json.number k)) ⊎ (w.json.is_object v ≡ false)
        → k ≢ j
        → l.Holds t j p m
        → l.Holds (l.after_post i u v t) j p m

  module _ (l : LlamaServer) where
    -- The slots of llama-server, and for each whether the broker's record of it may be out of date: it
    -- may be from a warm-up that is refused, or a panic of the task that holds the slot, up to the
    -- next record of what the slot holds.
    pub record Slots : Type 0 where
      pub state : l.State
      pub spoiled : ℕ → Bool

    abbrev pub spoil : Stage → (ℕ → Bool) → ℕ → Bool
    spoil (holding a) spoiled = update spoiled a.slot_id true
    spoil _ spoiled = spoiled

    -- What an action of task `i` in a stage does.
    unfoldable pub serve : ℕ → Action w.json → Stage → Slots → Slots
    serve i (restore key k) p t = record t { state = l.after_restore i key k t.state }
    serve i (warm_up u v) p t = record {
      state = l.after_warm_up i u v t.state;
      spoiled =
          if is_refused ((outside i).answer_warm_up u v) then spoil p t.spoiled else t.spoiled;
    }
    serve i (save key k meta) p t = record t { state = l.after_save i key k meta t.state }
    serve i (post u v) p t = record t { state = l.after_post i u v t.state }
    serve i (mark_resident k m h) p t = record t { spoiled = update t.spoiled k false }
    serve i (clear_resident k) p t = record t { spoiled = update t.spoiled k false }
    serve i _ p t = t

    unfoldable pub effect : {b c : Broker w} → Step w b c → Slots → Slots
    unfolding serve
    effect (admits i e) t = t
    effect (wakes i c e s) t = t
    effect (expires i c e s) t = t
    effect (hangs_up i c e) t = t
    effect {b} (acts i action rest e) t = serve i action (b.scheduler.stage i) t
    effect (reconciles k) t = t
    effect {b} (panics i) t = record t { spoiled = spoil (b.scheduler.stage i) t.spoiled }

    -- The states of the broker and llama-server together. At the start the broker has no records.
    pub data Run (n : ℕ) (processing : List ℕ) : Broker w → Slots → Type 0 where
      start : (t : Slots) → Run n processing (init_broker w n processing) t
      later :
          {b c : Broker w} {t : Slots}
          → Run n processing b t
          → (st : Step w b c) → Run n processing c (effect st t)
