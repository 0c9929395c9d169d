-- ===== src/Server/Upstream/Residency.antt =====
-- src/server.rs, send_upstream: the scheduler's table tells the truth about a slot when the request
-- reaches llama-server.
use aivyx_broker.Prelude.{
  ℕ, ◌≡◌, refl, sym, ap, subst, u64, ◌+◌, ◌∙◌, inl, inr, true, Option, none, some, List, [], ◌∷◌,
  String, Text, Result, ok, arith, get_elem?, get_elem?-modify, Bool-cases, Result-cases, ==_refl,
}
use aivyx_broker.Json.{Json}
use aivyx_broker.Scheduler
use aivyx_broker.Scheduler.{
  SlotHint, SlotState, Admission, Inner, claim, claimed, ready_for, try_admit_locked,
}
use aivyx_broker.Scheduler.Choice.{Fits, granted}
use aivyx_broker.Scheduler.Prefix.{Holds, ready-Holds}
use aivyx_broker.Server.Upstream.{
  Action, mark_resident, clear_resident, Outside, UpstreamResponse, prepare, warm_or_restore,
  error_for_status, was_restored, warm, cache_key, completions_url, warm_up_body,
}

-- The calls to the scheduler's table among the actions.
abbrev pub table_after : {J : Json} → Inner → List (Action J) → Inner
table_after inner [] = inner
table_after inner (mark_resident slot_id model prefix_hash ∷ actions) =
    table_after (Scheduler.mark_resident inner slot_id model prefix_hash) actions
table_after inner (clear_resident slot_id ∷ actions) =
    table_after (Scheduler.clear_resident inner slot_id) actions
table_after inner (_ ∷ actions) = table_after inner actions

-- What the table must say of the slot when the request is sent: the hinted prefix and model, or no
-- prefix for a request without a hint.
abbrev pub Describes : Option SlotHint → SlotState → Type 0
Describes none s = s.resident_prefix ≡ none
Describes (some h) s = Holds (some h) s

abbrev pub Described : Option SlotHint → ℕ → Inner → Type 0
Described hint slot_id inner =
    (s : SlotState) × (get_elem? inner.slots slot_id ≡ some s) × Describes hint s

clear-Described :
    (inner : Inner) (slot_id : ℕ) (s : SlotState)
    → get_elem? inner.slots slot_id ≡ some s
    → Described none slot_id (Scheduler.clear_resident inner slot_id)
unfolding Scheduler.clear_resident
clear-Described inner slot_id s e = (
  cleared s,
  ground (arith, e, ==_refl slot_id, get_elem?-modify inner.slots slot_id slot_id cleared),
  refl,
)
  where
    cleared : SlotState → SlotState
    cleared s = record s { resident_prefix = none; resident_model = none }

mark-Described :
    (inner : Inner) (slot_id : ℕ) (h : SlotHint) (s : SlotState)
    → get_elem? inner.slots slot_id ≡ some s
    → Described (some h) slot_id (Scheduler.mark_resident inner slot_id h.model h.prefix_hash)
unfolding Scheduler.mark_resident
mark-Described inner slot_id h s e = (
  marked s,
  ground (arith, e, ==_refl slot_id, get_elem?-modify inner.slots slot_id slot_id marked),
  (refl, refl),
)
  where
    marked : SlotState → SlotState
    marked s = record s { resident_prefix = some h.prefix_hash; resident_model = h.model }

claimed-Holds :
    (hint : Option SlotHint) (clock : ℕ) (s : SlotState)
    → Holds hint s
    → Holds hint (claimed clock s)
claimed-Holds none clock s h = h
claimed-Holds (some hint) clock s h = h

module _ (J : Json) (outside : Outside J) (llama_server_url : Text) (body : Json.Value J) where
  module _ (h : SlotHint) (slot_id : ℕ) where
    abbrev warm_up_answer : Result UpstreamResponse String
    warm_up_answer = error_for_status (
        outside.answer_warm_up (completions_url J outside llama_server_url)
          (warm_up_body J outside llama_server_url body h slot_id))

  warm-Described :
      (h : SlotHint) (slot_id : ℕ) (inner : Inner) (s : SlotState)
      → get_elem? inner.slots slot_id ≡ some s
      → (warm_or_restore J outside llama_server_url body h slot_id).1 ≡ ok tt
      → table_after inner (warm_or_restore J outside llama_server_url body h slot_id).0
        ≡ Scheduler.mark_resident inner slot_id h.model h.prefix_hash
  unfolding warm_or_restore warm
  warm-Described h slot_id inner s e done =
      elim (Bool-cases (
        was_restored
          (outside.restore_into_slot (cache_key J outside llama_server_url h) slot_id))) [
            | inl r ↦ ground (arith, r)
            | inr w ↦ elim (Result-cases (warm_up_answer h slot_id)) [
              | inl (resp, a) ↦ ground (arith, w, a)
              | inr (m, a) ↦ absurd (ground (arith, w, a, done))
            ]
          ]

  prepare-Described :
      (hint : Option SlotHint) (admission : Admission) (inner : Inner) (s : SlotState)
      → get_elem? inner.slots admission.slot_id ≡ some s
      → (admission.cache_ready ≡ true → Holds hint s)
      → (prepare J outside llama_server_url body hint admission).1 ≡ ok tt
      → Described hint admission.slot_id
          (table_after inner (prepare J outside llama_server_url body hint admission).0)
  unfolding prepare
  prepare-Described none admission inner s e ready done =
      clear-Described inner admission.slot_id s e
  prepare-Described (some h) admission inner s e ready done =
      elim (Bool-cases admission.cache_ready) [
        | inl r ↦ (s, ground (arith, r, e), ready r)
        | inr w ↦
            let marked : table_after inner
                  (prepare J outside llama_server_url body (some h) admission).0
                ≡ Scheduler.mark_resident inner admission.slot_id h.model h.prefix_hash =
              ground (arith, w, done, warm-Described h admission.slot_id inner s e) in
            subst (Described (some h) admission.slot_id) (sym marked)
              (mark-Described inner admission.slot_id h s e)
      ]

  -- When a request that was admitted onto a slot is sent to llama-server, the table describes the
  -- slot: for a hinted request it records the hinted prefix and the request's model, whether these
  -- were resident, restored or warmed up; for any other request it records no prefix.
  pub send_upstream-Described :
      (before : Inner) (hint : Option SlotHint) (admission : Admission) {inner : Inner}
      → Fits before
      → try_admit_locked before hint ≡ (inner, some admission)
      → (prepare J outside llama_server_url body hint admission).1 ≡ ok tt
      → Described hint admission.slot_id
          (table_after inner (prepare J outside llama_server_url body hint admission).0)
  unfolding claim
  send_upstream-Described before hint admission {inner} fits e done =
      let (s, g) = granted before hint admission fits e in
      let same : inner ≡ claim before admission.slot_id = ap (λ r. r.0) (sym e ∙ g.result) in
      let clock = u64 (before.clock + 1) in
      let found : get_elem? inner.slots admission.slot_id ≡ some (claimed clock s) =
        ap (λ i. get_elem? i.slots admission.slot_id) same
        ∙ ground (
          arith,
          g.found,
          ==_refl admission.slot_id,
          get_elem?-modify before.slots admission.slot_id admission.slot_id (claimed clock),
        ) in
      prepare-Described hint admission inner (claimed clock s) found
        (λ r. claimed-Holds hint clock s ((ready-Holds hint s).0 (sym g.ready ∙ r))) done
