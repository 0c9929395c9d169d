-- ===== src/Json/Tree.antt =====
-- A plain kind of JSON value, with the operations that the interface asks for: an object is a chain
-- of fields, of which the first with a key counts.
use aivyx_broker.Prelude.{
  ℕ, ◌≡◌, refl, sym, subst, Bool, true, false, Option, none, some, List, [], ◌∷◌, String, str_eq,
  str_eq_iff, if◌then◌else◌, ◌>>=◌, arith, Bool-cases, inl, inr,
}
use aivyx_broker.Json.{Json, JsonLaws}

pub data Tree : Type 0 where
  null empty_array empty_object : Tree
  boolean : Bool → Tree
  number : ℕ → Tree
  string : String → Tree
  element : Tree → Tree → Tree
  field : String → Tree → Tree → Tree

unfoldable pub get : Tree → String → Option Tree
get (field k v rest) key = if str_eq k key then some v else get rest key
get _ key = none

unfoldable pub as_array : Tree → Option (List Tree)
as_array empty_array = some []
as_array (element v rest) = as_array rest >>= λ vs. some (v ∷ vs)
as_array _ = none

abbrev pub as_str : Tree → Option String
as_str (string s) = some s
as_str _ = none

abbrev pub as_u64 : Tree → Option ℕ
as_u64 (number n) = some n
as_u64 _ = none

abbrev pub as_bool : Tree → Option Bool
as_bool (boolean b) = some b
as_bool _ = none

abbrev pub is_object : Tree → Bool
is_object empty_object = true
is_object (field k v rest) = true
is_object _ = false

-- Without the fields of a key. The end of the chain of an object is an empty object.
unfoldable pub without : Tree → String → Tree
without (field k v rest) key =
    if str_eq k key then without rest key else field k v (without rest key)
without _ key = empty_object

abbrev pub without_key : Tree → String → Tree
without_key v key = if is_object v then without v key else v

abbrev pub with_field : Tree → String → Tree → Tree
with_field v key w = if is_object v then field key w v else v

abbrev pub array_of : List Tree → Tree
array_of [] = empty_array
array_of (v ∷ vs) = element v (array_of vs)

abbrev pub object_of : List (String × Tree) → Tree
object_of [] = empty_object
object_of ((key, v) ∷ fields) = field key v (object_of fields)

abbrev pub tree_json : Json
tree_json = record {
  Value = Tree;
  get = get;
  as_array = as_array;
  as_str = as_str;
  as_u64 = as_u64;
  as_bool = as_bool;
  remove = λ v key. (without_key v key, get v key);
  insert = with_field;
  is_object = is_object;
  string = string;
  number = number;
  array = array_of;
  object = object_of;
}

str_eq_refl : (s : String) → str_eq s s ≡ true
str_eq_refl s = (str_eq_iff s s).1 refl

get-without : (v : Tree) (key : String) → get (without v key) key ≡ none
unfolding get without
get-without (field k v rest) key = ground (arith, get-without rest key)
get-without null key = refl
get-without empty_array key = refl
get-without empty_object key = refl
get-without (boolean b) key = refl
get-without (number n) key = refl
get-without (string s) key = refl
get-without (element v rest) key = refl

-- Two keys that differ are not both equal to a third.
other_key :
    (k key other : String) → str_eq key other ≡ false → str_eq k key ≡ true → str_eq k other ≡ false
other_key k key other d e = subst (λ x. str_eq x other ≡ false) (sym ((str_eq_iff k key).0 e)) d

get-without_other :
    (v : Tree) (key other : String)
    → str_eq key other ≡ false
    → get (without v key) other ≡ get v other
unfolding get without
get-without_other (field k v rest) key other d = elim (Bool-cases (str_eq k key)) [
  | inl e ↦ ground (arith, e, other_key k key other d e, get-without_other rest key other d)
  | inr n ↦ ground (arith, n, get-without_other rest key other d)
]
get-without_other null key other d = refl
get-without_other empty_array key other d = refl
get-without_other empty_object key other d = refl
get-without_other (boolean b) key other d = refl
get-without_other (number n) key other d = refl
get-without_other (string s) key other d = refl
get-without_other (element v rest) key other d = refl

pub get-no_object : (v : Tree) (key : String) → is_object v ≡ false → get v key ≡ none
unfolding get
get-no_object (field k v rest) key n = absurd cc
get-no_object null key n = refl
get-no_object empty_array key n = refl
get-no_object empty_object key n = refl
get-no_object (boolean b) key n = refl
get-no_object (number m) key n = refl
get-no_object (string s) key n = refl
get-no_object (element v rest) key n = refl

get-without_key : (v : Tree) (key : String) → get (without_key v key) key ≡ none
unfolding get
get-without_key v key = elim (Bool-cases (is_object v)) [
  | inl o ↦ ground (arith, o, get-without v key)
  | inr n ↦ ground (arith, n, get-no_object v key n)
]

get-without_key_other :
    (v : Tree) (key other : String)
    → str_eq key other ≡ false
    → get (without_key v key) other ≡ get v other
get-without_key_other v key other d = elim (Bool-cases (is_object v)) [
  | inl o ↦ ground (arith, o, get-without_other v key other d)
  | inr n ↦ ground (arith, n)
]

is_object-without : (v : Tree) (key : String) → is_object (without v key) ≡ true
unfolding without
is_object-without (field k v rest) key = ground (arith, is_object-without rest key)
is_object-without null key = refl
is_object-without empty_array key = refl
is_object-without empty_object key = refl
is_object-without (boolean b) key = refl
is_object-without (number n) key = refl
is_object-without (string s) key = refl
is_object-without (element v rest) key = refl

get-with_field_other :
    (v : Tree) (key other : String) (w : Tree)
    → str_eq key other ≡ false
    → get (with_field v key w) other ≡ get v other
unfolding get
get-with_field_other v key other w d = elim (Bool-cases (is_object v)) [
  | inl o ↦ ground (arith, o, d)
  | inr n ↦ ground (arith, n)
]

is_object-without_key : (v : Tree) (key : String) → is_object (without_key v key) ≡ is_object v
is_object-without_key v key = elim (Bool-cases (is_object v)) [
  | inl o ↦ ground (arith, o, is_object-without v key)
  | inr n ↦ ground (arith, n)
]

is_object-with_field :
    (v : Tree) (key : String) (w : Tree) → is_object (with_field v key w) ≡ is_object v
is_object-with_field v key w = elim (Bool-cases (is_object v)) [
  | inl o ↦ ground (arith, o)
  | inr n ↦ ground (arith, n)
]

is_object-object_of : (fields : List (String × Tree)) → is_object (object_of fields) ≡ true
is_object-object_of [] = refl
is_object-object_of ((key, v) ∷ fields) = refl

as_array-array_of : (vs : List Tree) → as_array (array_of vs) ≡ some vs
unfolding as_array
as_array-array_of [] = refl
as_array-array_of (v ∷ vs) = rw (as_array-array_of vs) refl

pub tree_laws : JsonLaws tree_json
unfolding get
tree_laws = record {
  get-insert = λ v key w o. ground (arith, o, str_eq_refl key);
  get-insert_other = get-with_field_other;
  get-remove = get-without_key;
  get-remove_other = get-without_key_other;
  is_object-remove = is_object-without_key;
  remove-no_object = get-no_object;
  is_object-insert = is_object-with_field;
  is_object-object = is_object-object_of;
  get-object = λ key w fields apart. ground (arith, str_eq_refl key);
  get-object_other = λ key other w fields apart. ground (arith, apart);
  get-object_empty = λ key. refl;
  as_str-string = λ s. refl;
  as_array-array = as_array-array_of;
}
