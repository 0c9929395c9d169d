-- ===== src/Broker/Coherence/Requests.antt =====
-- src/server.rs, send_upstream and warm_or_restore: what the requests that the broker sends ask of
-- llama-server.
use aivyx_broker.Prelude.{
  ℕ, ◌≡◌, ◌⊎◌, refl, ap, sym, ◌∙◌, subst, inl, inr, true, false, Option, none, some, List, [], ◌∷◌,
  String, str_eq, ◌>>=◌, find, any, arith, Bool-cases,
}
use aivyx_broker.Json.{Json, JsonLaws}
use aivyx_broker.Scheduler.{SlotHint}
use aivyx_broker.Server.Upstream.{system_message, warm_up_body, with_key, model_value}
use aivyx_broker.Broker.{World, hint}
use aivyx_broker.Broker.Coherence.{
  outside, forwarded, client_body, url, warm_up_request, request, named_model, is_from_system,
  system_prompt, Asks,
}
use aivyx_broker.Broker.Coherence.Prompts.{same_system, system_prompt-is_from_system}

module _ (w : World) (laws : JsonLaws w.json) where
  abbrev Value : Type 0
  Value = Json.Value w.json

  -- An insertion that may be left out.
  abbrev keyed : ℕ → String → Option Value → Value → Value
  keyed i = with_key w.json (outside w i) w.llama_server_url

  keyed_lem :
      (i : ℕ) (key : String) (x : Option Value) (v : Value)
      → w.json.is_object v ≡ true
      → w.json.get v key ≡ none
      → w.json.get (keyed i key x v) key ≡ x
  keyed_lem i key none v o absent = absent
  keyed_lem i key (some y) v o absent = laws.get-insert v key y o

  keyed_other :
      (i : ℕ) (key other : String) (x : Option Value) (v : Value)
      → str_eq key other ≡ false
      → w.json.get (keyed i key x v) other ≡ w.json.get v other
  keyed_other i key other none v apart = refl
  keyed_other i key other (some y) v apart = laws.get-insert_other v key other y apart

  is_object-keyed :
      (i : ℕ) (key : String) (x : Option Value) (v : Value)
      → w.json.is_object (keyed i key x v) ≡ w.json.is_object v
  is_object-keyed i key none v = refl
  is_object-keyed i key (some y) v = laws.is_object-insert v key y

  -- A hinted request is an object, and its hint has the model that it names.
  hinted_object :
      (i : ℕ) (h : SlotHint) → hint w i ≡ some h → w.json.is_object (client_body w i) ≡ true
  hinted_object i h e = elim (Bool-cases (w.json.is_object (client_body w i))) [
    | inl o ↦ o
    | inr n ↦
        absurd (ground (arith, e, laws.remove-no_object (client_body w i) "aivyx_slot_hint" n))
  ]

  hinted_model :
      (i : ℕ) (h : SlotHint) → hint w i ≡ some h → named_model w (client_body w i) ≡ h.model
  hinted_model i h e = ground (arith, e)

  forwarded_other :
      (i : ℕ) (key : String)
      → str_eq "aivyx_slot_hint" key ≡ false
      → w.json.get (forwarded w i) key ≡ w.json.get (client_body w i) key
  forwarded_other i key apart = laws.get-remove_other (client_body w i) "aivyx_slot_hint" key apart

  module _ (i : ℕ) (h : SlotHint) (k : ℕ) where
    abbrev prompt : Value
    prompt = system_message w.json (outside w i) w.llama_server_url (forwarded w i)

    prompt_lem : prompt ≡ system_prompt w (client_body w i)
    unfolding system_message system_prompt
    prompt_lem = rw (forwarded_other i "messages" refl) refl

    abbrev user : Value
    user = w.json.object (("role", w.json.string "user") ∷ ("content", w.json.string "") ∷ [])

    abbrev messages : Value
    messages = w.json.array (prompt ∷ user ∷ [])

    abbrev numbers : List (String × Value)
    numbers = ("max_tokens", w.json.number 1) ∷ ("id_slot", w.json.number k) ∷ []

    abbrev base : Value
    base = w.json.object (("messages", messages) ∷ numbers)

    abbrev with_tools : Value
    with_tools = keyed i "tools" (w.json.get (forwarded w i) "tools") base

    warm_up_lem :
        warm_up_request w i h k
        ≡ keyed i "model" (model_value w.json (outside w i) w.llama_server_url h.model) with_tools
    unfolding warm_up_body
    warm_up_lem = refl

    base_absent :
        (key : String)
        → str_eq "messages" key ≡ false
        → str_eq "max_tokens" key ≡ false
        → str_eq "id_slot" key ≡ false
        → w.json.get base key ≡ none
    base_absent key a b c =
        laws.get-object_other "messages" key messages numbers a
        ∙ laws.get-object_other "max_tokens" key (w.json.number 1)
            (("id_slot", w.json.number k) ∷ []) b
        ∙ laws.get-object_other "id_slot" key (w.json.number k) [] c
        ∙ laws.get-object_empty key

    -- The fields of a warm-up other than the model and the tools.
    warm_up_field :
        (key : String)
        → str_eq "model" key ≡ false
        → str_eq "tools" key ≡ false
        → w.json.get (warm_up_request w i h k) key ≡ w.json.get base key
    warm_up_field key a b =
        ap (λ v. w.json.get v key) warm_up_lem
        ∙ keyed_other i "model" key (model_value w.json (outside w i) w.llama_server_url h.model)
            with_tools a
        ∙ keyed_other i "tools" key (w.json.get (forwarded w i) "tools") base b

    pub warm_up-slot : w.json.get (warm_up_request w i h k) "id_slot" ≡ some (w.json.number k)
    unfolding any
    warm_up-slot =
        warm_up_field "id_slot" refl refl
        ∙ laws.get-object_other "messages" "id_slot" messages numbers refl
        ∙ laws.get-object_other "max_tokens" "id_slot" (w.json.number 1)
            (("id_slot", w.json.number k) ∷ []) refl
        ∙ laws.get-object "id_slot" (w.json.number k) [] refl

    warm_up-tools :
        w.json.get (warm_up_request w i h k) "tools" ≡ w.json.get (client_body w i) "tools"
    warm_up-tools =
        ap (λ v. w.json.get v "tools") warm_up_lem
        ∙ keyed_other i "model" "tools"
            (model_value w.json (outside w i) w.llama_server_url h.model) with_tools refl
        ∙ keyed_lem i "tools" (w.json.get (forwarded w i) "tools") base
            (laws.is_object-object (("messages", messages) ∷ numbers))
            (base_absent "tools" refl refl refl)
        ∙ forwarded_other i "tools" refl

    read_model :
        (model : Option String)
        → (model_value w.json (outside w i) w.llama_server_url model >>= λ m. w.json.as_str m)
          ≡ model
    read_model none = refl
    read_model (some m) = laws.as_str-string m

    warm_up-model : named_model w (warm_up_request w i h k) ≡ h.model
    warm_up-model =
        let value = model_value w.json (outside w i) w.llama_server_url h.model in
        let tools = w.json.get (forwarded w i) "tools" in
        let absent : w.json.get with_tools "model" ≡ none =
          keyed_other i "tools" "model" tools base refl ∙ base_absent "model" refl refl refl in
        let o : w.json.is_object with_tools ≡ true =
          is_object-keyed i "tools" tools base
          ∙ laws.is_object-object (("messages", messages) ∷ numbers) in
        ap (λ v. named_model w v) warm_up_lem
        ∙ ap (λ x. x >>= λ m. w.json.as_str m) (keyed_lem i "model" value with_tools o absent)
        ∙ read_model h.model

    warm_up-system : system_prompt w (warm_up_request w i h k) ≡ system_prompt w (client_body w i)
    unfolding system_prompt find any
    warm_up-system =
        let there : w.json.get (warm_up_request w i h k) "messages" ≡ some messages =
          warm_up_field "messages" refl refl ∙ laws.get-object "messages" messages numbers refl in
        let first : is_from_system w prompt ≡ true =
          subst (λ x. is_from_system w x ≡ true) (sym prompt_lem)
            (system_prompt-is_from_system w laws (client_body w i)) in
        rw (there, laws.as_array-array (prompt ∷ user ∷ []), first) prompt_lem

    pub warm_up-Asks : Asks w i k h (url w i) (warm_up_request w i h k)
    warm_up-Asks = record {
      address = refl;
      slot = warm_up-slot;
      model = warm_up-model;
      system = warm_up-system;
      tools = warm_up-tools;
    }

    request_other :
        (key : String)
        → str_eq "id_slot" key ≡ false
        → str_eq "aivyx_slot_hint" key ≡ false
        → w.json.get (request w i k) key ≡ w.json.get (client_body w i) key
    request_other key a b =
        laws.get-insert_other (forwarded w i) "id_slot" key (w.json.number k) a
        ∙ forwarded_other i key b

    pub request-Asks : hint w i ≡ some h → Asks w i k h (url w i) (request w i k)
    request-Asks asked = record {
      address = refl;
      slot =
          laws.get-insert (forwarded w i) "id_slot" (w.json.number k)
            (laws.is_object-remove (client_body w i) "aivyx_slot_hint" ∙ hinted_object i h asked);
      model =
          ap (λ x. x >>= λ m. w.json.as_str m) (request_other "model" refl refl)
          ∙ hinted_model i h asked;
      system =
          same_system w laws (request w i k) (client_body w i) (request_other "messages" refl refl);
      tools = request_other "tools" refl refl;
    }

  -- A request names its slot, or is no object.
  pub request-slot :
      (i k : ℕ)
      → (w.json.get (request w i k) "id_slot" ≡ some (w.json.number k))
        ⊎ (w.json.is_object (request w i k) ≡ false)
  request-slot i k = elim (Bool-cases (w.json.is_object (forwarded w i))) [
    | inl o ↦ inl (laws.get-insert (forwarded w i) "id_slot" (w.json.number k) o)
    | inr n ↦ inr (laws.is_object-insert (forwarded w i) "id_slot" (w.json.number k) ∙ n)
  ]
