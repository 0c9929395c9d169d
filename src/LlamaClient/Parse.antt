-- ===== src/LlamaClient/Parse.antt =====
-- src/llama_client.rs: what the parsers of llama-server's answers accept, and what they return.
use aivyx_broker.Prelude.{
  ℕ, suc, ◌≡◌, ◌∙◌, ap, sym, inl, inr, zero, Bool, true, false, Option, none, some, List, [], ◌∷◌,
  ◌++◌, if◌then◌else◌, ◌>>=◌, is_some, get_elem?, collect_map, arith, Option-cases,
}
use mathlib.Core.List.{append_assoc, append-nil}
use aivyx_broker.Json.{Json}
use aivyx_broker.LlamaClient.{
  LlamaSlot, LoadedModel, parse_slot, parse_slots, parse_entries, parse_models, id_of, status_of,
  model_status,
}

collect_map-cons {ℓ κ} :
    {A : Type ℓ} {B : Type κ} (f : A → Option B) (x : A) (xs : List A) (ys : List B)
    → collect_map f (x ∷ xs) ≡ some ys
    → (y : B) × (zs : List B) × (f x ≡ some y) × (collect_map f xs ≡ some zs) × (y ∷ zs ≡ ys)
unfolding collect_map
collect_map-cons f x xs ys e = elim (Option-cases (f x)) [
  | inl n ↦ absurd (ground (arith, e, n))
  | inr (y, s) ↦ elim (Option-cases (collect_map f xs)) [
    | inl n ↦ absurd (ground (arith, e, n, s))
    | inr (zs, t) ↦ (y, zs, s, t, ground (arith, e, s, t))
  ]
]

collect_map-get {ℓ κ} :
    {A : Type ℓ} {B : Type κ} (f : A → Option B) (xs : List A) (ys : List B)
    → collect_map f xs ≡ some ys
    → (i : ℕ) → get_elem? xs i >>= f ≡ get_elem? ys i
unfolding collect_map
collect_map-get f [] ys e i = ground arith
collect_map-get f (x ∷ xs) ys e zero =
    let (y, zs, s, t, q) = collect_map-cons f x xs ys e in s ∙ ap (λ l. get_elem? l 0) q
collect_map-get f (x ∷ xs) ys e (suc i) =
    let (y, zs, s, t, q) = collect_map-cons f x xs ys e in
    collect_map-get f xs zs t i ∙ ap (λ l. get_elem? l (suc i)) q

module _ (J : Json) where
  abbrev pub named : List (Json.Value J) → Bool
  named [] = true
  named (m ∷ ms) = if is_some (id_of J m) then named ms else false

  -- The models of the entries with a name and a status that is known, in order.
  abbrev pub known_models : List (Json.Value J) → List LoadedModel
  known_models [] = []
  known_models (m ∷ ms) = elim (id_of J m) [
    | none ↦ known_models ms
    | some id ↦ elim (model_status (status_of J m)) [
      | none ↦ known_models ms
      | some loaded ↦ record { id = id; loaded = loaded } ∷ known_models ms
    ]
  ]

  parse_entries_lem :
      (ms : List (Json.Value J)) (models : List LoadedModel)
      → parse_entries J ms models ≡ (if named ms then some (models ++ known_models ms) else none)
  unfolding parse_entries
  parse_entries_lem [] models = ap some (sym (append-nil models))
  parse_entries_lem (m ∷ ms) models = elim (Option-cases (id_of J m)) [
    | inl n ↦ ground (arith, n)
    | inr (id, e) ↦ elim (Option-cases (model_status (status_of J m))) [
      | inl n ↦ ground (arith, e, n, parse_entries_lem ms models)
      | inr (loaded, t) ↦
          let new : LoadedModel = record { id = id; loaded = loaded } in
          ground (
            arith,
            e,
            t,
            parse_entries_lem ms (models ++ new ∷ []),
            append_assoc models (new ∷ []) (known_models ms),
          )
    ]
  ]

  -- The models of an answer: every entry of its data needs a name, or there is no answer at all;
  -- those with an unknown status are left out, and the others come in order, with whether they are
  -- loaded.
  pub parse_models_lem :
      (json : Json.Value J) (ms : List (Json.Value J))
      → J.get json "data" >>= J.as_array ≡ some ms
      → parse_models J json ≡ (if named ms then some (known_models ms) else none)
  unfolding parse_models
  parse_models_lem json ms e = ground (arith, e, parse_entries_lem ms [])

  -- The slots of an answer are read entry by entry: the i-th slot
  -- is what the i-th entry says.
  pub parse_slots-get :
      (json : Json.Value J) (entries : List (Json.Value J)) (slots : List LlamaSlot)
      → J.as_array json ≡ some entries
      → parse_slots J json ≡ some slots
      → (i : ℕ) → get_elem? entries i >>= parse_slot J ≡ get_elem? slots i
  unfolding parse_slots
  parse_slots-get json entries slots a e =
      collect_map-get (parse_slot J) entries slots (ground (arith, a, e))
