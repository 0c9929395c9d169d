-- ===== src/Main/Recovery.antt =====
-- src/main.rs: a broker that restarts while llama-server generates loses no slot for good.
use aivyx_broker.Prelude.{
  ℕ, zero, suc, replicate, ◌≡◌, refl, ap, sym, ◌∙◌, Bool, true, false, not, ◌&&◌, Option, none,
  some, List, [], ◌∷◌, ◌==◌, length, u32, Text, Result, ok, any, get_elem?, get_elem?-modify,
  map_option, arith, Bool-cases, inl, inr,
}
use aivyx_broker.Json.{Json}
use aivyx_broker.LlamaClient.{LlamaSlot, Reply, fetch_slots, seed_processing}
use aivyx_broker.LlamaClient.Seed.{taken_if, in_use, seed_processing-get}
use aivyx_broker.Scheduler.{Inner, SlotState, default_slot, new, reconcile_seeded_idle}
use aivyx_broker.Scheduler.Slots.{freed_if_seeded, slots-reconcile_seeded_idle}
use aivyx_broker.Main.{BrokerConfig, start, reconcile_slots, reconcile_tick}

-- The slot is reported idle.
abbrev pub reported_idle : ℕ → List LlamaSlot → Bool
reported_idle i slots = any (λ slot. not slot.is_processing && (slot.id == i)) slots

abbrev pub freed_when : Bool → Option SlotState → Option SlotState
freed_when true o = map_option freed_if_seeded o
freed_when false o = o

freed_twice :
    (b : Bool) (o : Option SlotState) → freed_when b (freed_when true o) ≡ freed_when true o
freed_twice true none = refl
freed_twice true (some s) = ground arith
freed_twice false o = refl

module _ (receiving : ℕ → Bool) where
  reconcile-get :
      (inner : Inner) (id i : ℕ)
      → get_elem? (reconcile_seeded_idle receiving inner id).0.slots i
        ≡ freed_when (id == i) (get_elem? inner.slots i)
  reconcile-get inner id i =
      ap (λ l. get_elem? l i) (slots-reconcile_seeded_idle receiving inner id)
      ∙ ground (arith, get_elem?-modify inner.slots id i freed_if_seeded)

  reconcile_slots-get :
      (inner : Inner) (slots : List LlamaSlot) (i : ℕ)
      → get_elem? (reconcile_slots receiving inner slots).0.slots i
        ≡ freed_when (reported_idle i slots) (get_elem? inner.slots i)
  unfolding reconcile_slots any
  reconcile_slots-get inner [] i = refl
  reconcile_slots-get inner (slot ∷ slots) i = elim (Bool-cases slot.is_processing) [
    | inl p ↦ ground (arith, p, reconcile_slots-get inner slots i)
    | inr q ↦ ground (
      arith,
      q,
      reconcile_slots-get (reconcile_seeded_idle receiving inner slot.id).0 slots i,
      reconcile-get inner slot.id i,
      freed_twice (reported_idle i slots) (get_elem? inner.slots i),
    )
  ]

get_elem?-replicate :
    (n : ℕ) (a : SlotState) (i : ℕ) (s : SlotState) → get_elem? (replicate n a) i ≡ some s → s ≡ a
get_elem?-replicate zero a i s e = absurd cc
get_elem?-replicate (suc n) a zero s e = ground (arith, e)
get_elem?-replicate (suc n) a (suc i) s e = get_elem?-replicate n a i s e

-- A slot that was marked in use at the start, or was not.
started :
    (b : Bool) (o : Option SlotState) (s : SlotState)
    → ((t : SlotState) → o ≡ some t → t ≡ default_slot)
    → taken_if b o ≡ some s
    → (s.busy ≡ b) × (s.seeded_unowned ≡ b)
started true none s d e = absurd cc
started true (some t) s d e = (ground (arith, e), ground (arith, e))
started false none s d e = absurd cc
started false (some t) s d e = (ground (arith, e, d t refl), ground (arith, e, d t refl))

seeded_free :
    (o : Option SlotState) (busy b : Bool) (s : SlotState)
    → ((t : SlotState) → o ≡ some t → (t.busy ≡ busy) × (t.seeded_unowned ≡ busy))
    → (busy ≡ true → b ≡ true)
    → freed_when b o ≡ some s
    → s.busy ≡ false
seeded_free none busy true s d q e = absurd cc
seeded_free none busy false s d q e = absurd cc
seeded_free (some t) true true s d q e = ground (arith, e, d t refl)
seeded_free (some t) false true s d q e = ground (arith, e, d t refl)
seeded_free (some t) true false s d q e = absurd (cc (q refl))
seeded_free (some t) false false s d q e = ground (arith, e, d t refl)

-- At its start the broker takes a slot for busy exactly if llama-server reports it as processing;
-- and once a tick of the background task sees every slot that was busy at the start reported as
-- idle, no slot is busy, whatever else it sees. (No request is admitted in between here.)
pub start-Recovers :
    (J : Json) (get : Text → Result (Reply J) Text) (config : BrokerConfig) (inner : Inner)
    (receiving : ℕ → Bool) (slots later : List LlamaSlot)
    → fetch_slots J get config.llama_server_url ≡ ok slots
    → start J get config ≡ ok inner
    → ((i : ℕ) (s : SlotState) → get_elem? inner.slots i ≡ some s → s.busy ≡ in_use i slots)
      × (((i : ℕ) → in_use i slots ≡ true → reported_idle i later ≡ true)
          → (i : ℕ) (s : SlotState)
          → get_elem? (reconcile_tick receiving inner (ok later)).0.slots i ≡ some s
          → s.busy ≡ false)
unfolding start reconcile_tick new
start-Recovers J get config inner receiving slots later f e =
    let seeded = seed_processing (new (u32 (length slots))) slots in
    let same : seeded ≡ inner = ground (arith, e, f) in
    let fresh : (i : ℕ) (s : SlotState)
        → get_elem? inner.slots i ≡ some s
        → (s.busy ≡ in_use i slots) × (s.seeded_unowned ≡ in_use i slots) =
      λ i s q.
        started (in_use i slots) (get_elem? (new (u32 (length slots))).slots i) s
          (get_elem?-replicate (u32 (length slots)) default_slot i)
          (sym (seed_processing-get (new (u32 (length slots))) slots i)
            ∙ ap (λ x. get_elem? x.slots i) same
            ∙ q) in
    (
      (λ i s q. (fresh i s q).0),
      (λ idle i s q.
          seeded_free (get_elem? inner.slots i) (in_use i slots) (reported_idle i later) s (fresh i)
            (idle i) (sym (reconcile_slots-get receiving inner later i) ∙ q)),
    )
