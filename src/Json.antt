-- ===== src/Json.antt =====
-- JSON values as src/server.rs and src/llama_client.rs use them: an interface, since serde_json is
-- not part of the repository. `remove` and `insert` change an object and leave any other value.
pub mod Tree
use aivyx_broker.Prelude.{
  ℕ, ◌≡◌, Bool, true, false, Option, none, some, List, [], ◌∷◌, String, str_eq, any,
}

pub record Json : Type 1 where
  pub Value : Type 0
  pub get : Value → String → Option Value
  pub as_array : Value → Option (List Value)
  pub as_str : Value → Option String
  pub as_u64 : Value → Option ℕ
  pub as_bool : Value → Option Bool
  pub remove : Value → String → Value × Option Value
  pub insert : Value → String → Value → Value
  pub is_object : Value → Bool
  pub string : String → Value
  pub number : ℕ → Value
  pub array : List Value → Value
  pub object : List (String × Value) → Value

-- What the broker relies on: objects are maps from keys to values, and a value that was built from a
-- text, a number or a list is read as what it was built from.
pub record JsonLaws (J : Json) : Type 0 where
  pub get-insert :
      (v : Json.Value J) (key : String) (w : Json.Value J)
      → J.is_object v ≡ true
      → J.get (J.insert v key w) key ≡ some w
  pub get-insert_other :
      (v : Json.Value J) (key other : String) (w : Json.Value J)
      → str_eq key other ≡ false
      → J.get (J.insert v key w) other ≡ J.get v other
  pub get-remove : (v : Json.Value J) (key : String) → J.get (J.remove v key).0 key ≡ none
  pub get-remove_other :
      (v : Json.Value J) (key other : String)
      → str_eq key other ≡ false
      → J.get (J.remove v key).0 other ≡ J.get v other
  pub is_object-remove :
      (v : Json.Value J) (key : String) → J.is_object (J.remove v key).0 ≡ J.is_object v
  pub remove-no_object :
      (v : Json.Value J) (key : String) → J.is_object v ≡ false → (J.remove v key).1 ≡ none
  pub is_object-insert :
      (v : Json.Value J) (key : String) (w : Json.Value J)
      → J.is_object (J.insert v key w) ≡ J.is_object v
  pub is_object-object :
      (fields : List (String × Json.Value J)) → J.is_object (J.object fields) ≡ true
  pub get-object :
      (key : String) (w : Json.Value J) (fields : List (String × Json.Value J))
      → any (λ f. str_eq f.0 key) fields ≡ false
      → J.get (J.object ((key, w) ∷ fields)) key ≡ some w
  pub get-object_other :
      (key other : String) (w : Json.Value J) (fields : List (String × Json.Value J))
      → str_eq key other ≡ false
      → J.get (J.object ((key, w) ∷ fields)) other ≡ J.get (J.object fields) other
  pub get-object_empty : (key : String) → J.get (J.object []) key ≡ none
  pub as_str-string : (s : String) → J.as_str (J.string s) ≡ some s
  pub as_array-array : (vs : List (Json.Value J)) → J.as_array (J.array vs) ≡ some vs
