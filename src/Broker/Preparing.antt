-- ===== src/Broker/Preparing.antt =====
-- src/server.rs, send_upstream: what the preparation of a slot for a hinted request does to the table,
-- and that it does not free the slot.
use aivyx_broker.Prelude.{
  ◌≡◌, refl, ap, sym, subst, inl, inr, ◌⊎◌, true, Option, some, List, [], ◌∷◌, ◌++◌, String, Text,
  Result, ok, err, arith, Bool-cases, Result-cases,
}
use aivyx_broker.Json.{Json}
use aivyx_broker.Scheduler.{SlotHint, Admission}
use aivyx_broker.Server.Upstream.{
  Action, restore, warm_up, save, Outside, UpstreamResponse, prepare, warm_or_restore, warm,
  was_restored, error_for_status, cache_key, saved_meta, completions_url, warm_up_body, mark,
}
use aivyx_broker.Broker.Jobs.{Told, Owes, Truthful}

module _ (J : Json) where
  module _ (outside : Outside J) (url : Text) (body : Json.Value J) (h : SlotHint)
      (a : Admission) where
    abbrev pub prepared : List (Action J) × Result (Unit {0}) String
    prepared = prepare J outside url body (some h) a

    abbrev pub restored : Action J
    restored = restore (cache_key J outside url h) a.slot_id

    abbrev pub warmed : Action J
    warmed = warm_up (completions_url J outside url) (warm_up_body J outside url body h a.slot_id)

    abbrev pub marked : Action J
    marked = mark J outside url h a.slot_id

    abbrev pub answer : Result UpstreamResponse String
    answer = error_for_status (
        outside.answer_warm_up (completions_url J outside url)
          (warm_up_body J outside url body h a.slot_id))

    -- The four ways to prepare a slot for a hinted request.
    pub prepare_cases :
        ((a.cache_ready ≡ true) × (prepared ≡ ([], ok tt)))
        ⊎ ((was_restored (outside.restore_into_slot (cache_key J outside url h) a.slot_id) ≡ true)
            × (prepared ≡ (restored ∷ marked ∷ [], ok tt)))
        ⊎ ((resp : UpstreamResponse) × (answer ≡ ok resp)
            × (prepared ≡ (
              restored
                  ∷ warmed
                  ∷ save (cache_key J outside url h) a.slot_id (saved_meta J outside url)
                  ∷ marked
                  ∷ [],
              ok tt,
            )))
        ⊎ ((m : String) × (answer ≡ err m) × (prepared ≡ (restored ∷ warmed ∷ [], err m)))
    unfolding prepare warm_or_restore warm
    prepare_cases = elim (Bool-cases a.cache_ready) [
      | inl r ↦ inl (r, ground arith)
      | inr n ↦
          elim (Bool-cases
            (was_restored (outside.restore_into_slot (cache_key J outside url h) a.slot_id))) [
              | inl r ↦ inr (inl (r, ground arith))
              | inr w ↦ elim (Result-cases answer) [
                | inl (resp, e) ↦ inr (inr (inl (resp, e, ground arith)))
                | inr (m, e) ↦ inr (inr (inr (m, e, ground arith)))
              ]
            ]
    ]

    pub prepared-Owes :
        (tail : List (Action J)) → Owes J a.slot_id tail → Owes J a.slot_id (prepared.0 ++ tail)
    prepared-Owes tail o = elim prepare_cases [
      | inl (_, e) ↦ subst owed (sym e) o
      | inr (inl (_, e)) ↦ subst owed (sym e) (refl, o)
      | inr (inr (inl (_, _, e))) ↦ subst owed (sym e) (refl, o)
      | inr (inr (inr (m, _, e))) ↦ subst owed (sym e) o
    ]
      where
        owed : List (Action J) × Result (Unit {0}) String → Type 0
        owed r = Owes J a.slot_id (r.0 ++ tail)

    module _ (prefix model : Option String) (tail : List (Action J)) where
      -- The table may be taken to be right where the admission said that the prefix is ready.
      pub prepared-Truthful :
          (a.cache_ready ≡ true → Told (some h) prefix model)
          → prepared.1 ≡ ok tt
          → ((p m : Option String) → Told (some h) p m → Truthful J (some h) p m tail)
          → Truthful J (some h) prefix model (prepared.0 ++ tail)
      prepared-Truthful ready done tails = elim prepare_cases [
        | inl (r, e) ↦ subst told (sym e) (tails prefix model (ready r))
        | inr (inl (_, e)) ↦ subst told (sym e) (tails (some h.prefix_hash) h.model (refl, refl))
        | inr (inr (inl (_, _, e))) ↦
            subst told (sym e) (tails (some h.prefix_hash) h.model (refl, refl))
        | inr (inr (inr (m, _, e))) ↦ absurd (cc (done, ap (λ r. r.1) e))
      ]
        where
          told : List (Action J) × Result (Unit {0}) String → Type 0
          told r = Truthful J (some h) prefix model (r.0 ++ tail)

      pub unprepared-Truthful :
          ((p m : Option String) → Truthful J (some h) p m tail)
          → Truthful J (some h) prefix model (prepared.0 ++ tail)
      unprepared-Truthful tails = elim prepare_cases [
        | inl (_, e) ↦ subst told (sym e) (tails prefix model)
        | inr (inl (_, e)) ↦ subst told (sym e) (tails (some h.prefix_hash) h.model)
        | inr (inr (inl (_, _, e))) ↦ subst told (sym e) (tails (some h.prefix_hash) h.model)
        | inr (inr (inr (m, _, e))) ↦ subst told (sym e) (tails prefix model)
      ]
        where
          told : List (Action J) × Result (Unit {0}) String → Type 0
          told r = Truthful J (some h) prefix model (r.0 ++ tail)
