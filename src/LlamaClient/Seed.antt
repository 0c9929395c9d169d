-- ===== src/LlamaClient/Seed.antt =====
-- src/llama_client.rs, seed_scheduler_from_llama_server: which slots are busy after a restart.
use aivyx_broker.Prelude.{
  ℕ, ◌≡◌, refl, Bool, true, false, ◌&&◌, Option, none, some, List, [], ◌∷◌, ◌==◌, Text, Result, ok,
  any, get_elem?, get_elem?-modify, map_option, length, u32, arith,
}
use aivyx_broker.Json.{Json}
use aivyx_broker.Scheduler.{Inner, SlotState, seed_busy}
use aivyx_broker.LlamaClient.{
  LlamaSlot, Reply, fetch_slots, seed_processing, seed_scheduler_from_llama_server,
}

abbrev pub taken : SlotState → SlotState
taken s = record s { busy = true; seeded_unowned = true }

abbrev pub in_use : ℕ → List LlamaSlot → Bool
in_use i slots = any (λ slot. slot.is_processing && (slot.id == i)) slots

abbrev pub taken_if : Bool → Option SlotState → Option SlotState
taken_if true o = map_option taken o
taken_if false o = o

seed_busy-get :
    (inner : Inner) (id i : ℕ)
    → get_elem? (seed_busy inner id).slots i ≡ taken_if (id == i) (get_elem? inner.slots i)
unfolding seed_busy
seed_busy-get inner id i = ground (arith, get_elem?-modify inner.slots id i taken)

taken_twice : (b : Bool) (o : Option SlotState) → taken_if b (taken_if true o) ≡ taken_if true o
taken_twice true none = refl
taken_twice true (some s) = refl
taken_twice false o = refl

pub seed_processing-get :
    (inner : Inner) (slots : List LlamaSlot) (i : ℕ)
    → get_elem? (seed_processing inner slots).slots i
      ≡ taken_if (in_use i slots) (get_elem? inner.slots i)
unfolding seed_processing any
seed_processing-get inner [] i = refl
seed_processing-get inner (slot ∷ slots) i = ground (
  arith,
  seed_processing-get inner slots i,
  seed_processing-get (seed_busy inner slot.id) slots i,
  seed_busy-get inner slot.id i,
  taken_twice (in_use i slots) (get_elem? inner.slots i),
)

-- When llama-server's slots can be fetched, seeding the scheduler marks exactly the slots reported
-- as processing, as busy and without an owner, leaves every other slot as it was, and returns the
-- number of slots.
pub seed_scheduler-get :
    (J : Json) (inner : Inner) (get : Text → Result (Reply J) Text) (base_url : Text)
    (slots : List LlamaSlot)
    → fetch_slots J get base_url ≡ ok slots
    → (i : ℕ)
    → (get_elem? (seed_scheduler_from_llama_server J inner get base_url).0.slots i
        ≡ taken_if (in_use i slots) (get_elem? inner.slots i))
      × ((seed_scheduler_from_llama_server J inner get base_url).1 ≡ ok (u32 (length slots)))
unfolding seed_scheduler_from_llama_server
seed_scheduler-get J inner get base_url slots e i =
    (ground (arith, e, seed_processing-get inner slots i), ground (arith, e))
