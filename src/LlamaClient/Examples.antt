-- ===== src/LlamaClient/Examples.antt =====
-- src/llama_client.rs: runs, and the theorems at concrete inputs.
use aivyx_broker.Prelude.{
  ℕ, ◌≡◌, refl, Bool, true, false, none, some, List, [], ◌∷◌, String, Text, Result, ok, codes,
  if◌then◌else◌,
}
use aivyx_broker.Json.Tree.{
  Tree, tree_json, number, boolean, string, array_of, object_of, get, as_array,
}
use aivyx_broker.LlamaClient.{LlamaSlot, Reply, parse_models}
use aivyx_broker.LlamaClient.Parse.{named, known_models, parse_models_lem}

abbrev slot_value : ℕ → Bool → Tree
slot_value id busy = object_of (("id", number id) ∷ ("is_processing", boolean busy) ∷ [])

abbrev two_slots : Tree
two_slots = array_of (slot_value 0 true ∷ slot_value 1 false ∷ [])

abbrev parsed_slots : List LlamaSlot
parsed_slots =
    record { id = 0; is_processing = true } ∷ record { id = 1; is_processing = false } ∷ []

abbrev model_value : String → List (String × Tree) → Tree
model_value id rest = object_of (("id", string id) ∷ rest)

abbrev with_status : String → List (String × Tree)
with_status s = ("status", object_of (("value", string s) ∷ [])) ∷ []

abbrev four_models : List Tree
four_models =
    model_value "a" []
    ∷ model_value "b" (with_status "sleeping")
    ∷ model_value "c" (with_status "failed")
    ∷ model_value "d" (with_status "loading")
    ∷ []

abbrev models_answer : Tree
models_answer = object_of (("data", array_of four_models) ∷ [])

skips_unknown_status :
    parse_models tree_json models_answer
    ≡ some (
        record { id = "a"; loaded = true }
        ∷ record { id = "b"; loaded = false }
        ∷ record { id = "d"; loaded = true }
        ∷ [])
unfolding parse_models get as_array
skips_unknown_status = refl

parse_models_lem_example :
    parse_models tree_json models_answer
    ≡ (if named tree_json four_models then some (known_models tree_json four_models) else none)
unfolding get as_array
parse_models_lem_example = parse_models_lem tree_json models_answer four_models refl

-- A server whose URL is given with a slash at its end.
abbrev answers : Text → Result (Reply tree_json) Text
answers url = ok (record { status = 200; json = some two_slots })

abbrev base_url : Text
base_url = codes "http://localhost:8080/"
