-- ===== src/Broker/Coherence/Prompts.antt =====
-- src/server.rs, warm_or_restore: the system prompt that llama-server reads in a request.
use aivyx_broker.Prelude.{
  ◌≡◌, refl, subst, inl, inr, Bool, true, Option, none, some, List, [], ◌∷◌, ◌>>=◌, get_or, find,
  any, arith, Bool-cases, Option-cases,
}
use aivyx_broker.Json.{Json, JsonLaws}
use aivyx_broker.Broker.{World}
use aivyx_broker.Broker.Coherence.{is_from_system, empty_system, system_prompt}

find-hit {ℓ} : {A : Type ℓ} (p : A → Bool) (xs : List A) (a : A) → find p xs ≡ some a → p a ≡ true
unfolding find
find-hit p [] a e = cc
find-hit p (x ∷ xs) a e = elim (Bool-cases (p x)) [
  | inl hit ↦ let q : x ≡ a = ground (arith, e, hit) in subst (λ y. p y ≡ true) q hit
  | inr miss ↦ find-hit p xs a (ground (arith, e, miss))
]

module _ (w : World) (laws : JsonLaws w.json) where
  abbrev Value : Type 0
  Value = Json.Value w.json

  pub same_system :
      (u v : Value)
      → w.json.get u "messages" ≡ w.json.get v "messages"
      → system_prompt w u ≡ system_prompt w v
  unfolding system_prompt
  same_system u v e = rw e refl

  empty-is_from_system : is_from_system w (empty_system w) ≡ true
  unfolding any
  empty-is_from_system =
      rw
        (
          laws.get-object "role" (w.json.string "system") (("content", w.json.string "") ∷ []) refl,
          laws.as_str-string "system",
        )
        refl

  chosen-is_from_system :
      (ms : Option (List Value))
      → is_from_system w (get_or (ms >>= λ xs. find (is_from_system w) xs) (empty_system w)) ≡ true
  chosen-is_from_system none = empty-is_from_system
  chosen-is_from_system (some xs) = elim (Option-cases (find (is_from_system w) xs)) [
    | inl n ↦ rw n empty-is_from_system
    | inr (m, e) ↦ rw e (find-hit (is_from_system w) xs m e)
  ]

  pub system_prompt-is_from_system : (v : Value) → is_from_system w (system_prompt w v) ≡ true
  unfolding system_prompt
  system_prompt-is_from_system v = elim (Option-cases (w.json.get v "messages")) [
    | inl n ↦ rw n empty-is_from_system
    | inr (m, e) ↦ rw e (chosen-is_from_system (w.json.as_array m))
  ]
