-- ===== src/Broker/Coherence/Tails.antt =====
-- src/server.rs, send_upstream and forward: the whole job of a task.
use aivyx_broker.Prelude.{
  ℕ, ◌≡◌, ◌⊎◌, ◌||◌, refl, ap, sym, subst, inl, inr, Bool, true, false, Option, none, some, List,
  ◌∷◌, ◌++◌, String, Text, Result, ok, err,
}
use aivyx_broker.Json.{Json}
use aivyx_broker.Scheduler.{SlotHint, Admission}
use aivyx_broker.Server.Upstream.{
  Action, Outside, UpstreamResponse, prepare, error_for_status, completions_url, warm_up_body,
}
use aivyx_broker.Broker.Coherence.{is_refused}
use aivyx_broker.Server.Relay.{Client}
use aivyx_broker.Broker.Jobs.{Told}
use aivyx_broker.Broker.Preparing.{prepared, prepare_cases}
use aivyx_broker.Broker.Tails.{Ends, request, task, forward_cases}
use aivyx_broker.Broker.Coherence.Jobs.{
  Known, hinted, Right, Right-of_Told, Ready, known_warmed, Coheres, Coheres-Relayed,
}

-- What an admission may rely on for a request's prefix: the record is out of date, or right.
abbrev pub Promised : Option SlotHint → Bool → Known → Option String → Option String → Type 0
Promised hint spoiled known prefix model =
    (spoiled ≡ true) ⊎ (Ready hint known × Told hint prefix model)

is_refused-ok :
    (x : Result UpstreamResponse String) (resp : UpstreamResponse)
    → error_for_status x ≡ ok resp
    → is_refused x ≡ false
is_refused-ok x resp e = ap (λ y. elim y [ ok r ↦ false | err m ↦ true ]) e

is_refused-err :
    (x : Result UpstreamResponse String) (m : String)
    → error_for_status x ≡ err m
    → is_refused x ≡ true
is_refused-err x m e = ap (λ y. elim y [ ok r ↦ false | err m ↦ true ]) e

module _ (J : Json) (outside : Outside J) (url : Text) (body : Json.Value J) (client : Client) where
  tail-Coheres :
      (hint : Option SlotHint) (k : ℕ) (spoiled : Bool) (known : Known)
      (prefix model : Option String) (tail : List (Action J))
      → Ends J k hint tail
      → (spoiled ≡ true) ⊎ Right known prefix model
      → Coheres J outside url body hint k spoiled known prefix model tail
  tail-Coheres hint k spoiled known prefix model tail ends right =
      let (xs, ys, relayed, e) = ends.relays in
      subst (Coheres J outside url body hint k spoiled known prefix model) (sym e)
        (Coheres-Relayed J outside url body hint k spoiled known prefix model xs ys relayed right)

  module _ (h : SlotHint) (a : Admission) where
    -- A job that sends the hinted request once the slot is prepared.
    sent-Coheres :
        (spoiled : Bool) (known : Known) (prefix model : Option String) (tail : List (Action J))
        → Promised (some h) spoiled known prefix model
        → Ends J a.slot_id (some h) tail
        → Coheres J outside url body
            (some h)
            a.slot_id
            spoiled
            known
            prefix
            model
            (request J outside url body client a ∷ tail)
    sent-Coheres true known prefix model tail promised ends = (
      refl,
      refl,
      inl refl,
      tail-Coheres (some h) a.slot_id true none prefix model tail ends (inl refl),
    )
    sent-Coheres false known prefix model tail (inl bad) ends = absurd (cc bad)
    sent-Coheres false known prefix model tail (inr (e, told)) ends = (
      refl,
      refl,
      inr e,
      tail-Coheres (some h) a.slot_id false known prefix model tail ends
          (inr (Right-of_Told h known prefix model e told)),
    )

    abbrev raw : Result UpstreamResponse String
    raw =
        outside.answer_warm_up (completions_url J outside url)
          (warm_up_body J outside url body h a.slot_id)

    abbrev MarkedRequest : Known → List (Action J) → Type 0
    MarkedRequest known tail =
        Coheres J outside url body (some h) a.slot_id false known (some h.prefix_hash) h.model
          (request J outside url body client a ∷ tail)

    -- Before that, the slot is saved.
    abbrev SavedRequest : Known → List (Action J) → Type 0
    SavedRequest known tail =
        (a.slot_id ≡ a.slot_id) × (known ≡ some (hinted h)) × MarkedRequest known tail

    prepared-Coheres :
        (spoiled : Bool) (known : Known) (prefix model : Option String) (tail : List (Action J))
        → (a.cache_ready ≡ true → Promised (some h) spoiled known prefix model)
        → (prepare J outside url body (some h) a).1 ≡ ok tt
        → Ends J a.slot_id (some h) tail
        → Coheres J outside url body
            (some h)
            a.slot_id
            spoiled
            known
            prefix
            model
            ((prepared J outside url body h a).0 ++ (request J outside url body client a ∷ tail))
    prepared-Coheres spoiled known prefix model tail ready done ends =
        elim (prepare_cases J outside url body h a) [
          | inl (r, p) ↦
              subst goal (sym p) (sent-Coheres spoiled known prefix model tail (ready r) ends)
          | inr (inl (r, p)) ↦ subst goal (sym p) (refl, rw r sends)
          | inr (inr (inl (resp, e, p))) ↦ subst goal (sym p) (
            refl,
            (
              h,
              refl,
              refl,
              refl,
              subst (λ y. SavedRequest (known_warmed y h) tail) (sym (is_refused-ok raw resp e))
                  (refl, refl, sends),
            ),
          )
          | inr (inr (inr (n, f, p))) ↦ absurd (cc (done, ap (λ r. r.1) p))
        ]
      where
        goal : List (Action J) × Result (Unit {0}) String → Type 0
        goal r =
            Coheres J outside url body (some h) a.slot_id spoiled known prefix model
              (r.0 ++ (request J outside url body client a ∷ tail))

        sends : MarkedRequest (some (hinted h)) tail
        sends =
            sent-Coheres false (some (hinted h)) (some h.prefix_hash) h.model tail
              (inr (refl, (refl, refl))) ends

    -- A warm-up was refused, and the task ends.
    refused-Coheres :
        (m : String) (spoiled : Bool) (known : Known) (prefix model : Option String)
        (tail : List (Action J))
        → (prepare J outside url body (some h) a).1 ≡ err m
        → Ends J a.slot_id (some h) tail
        → Coheres J outside url body
            (some h)
            a.slot_id
            spoiled
            known
            prefix
            model
            ((prepared J outside url body h a).0 ++ tail)
    refused-Coheres m spoiled known prefix model tail fails ends =
        elim (prepare_cases J outside url body h a) [
          | inl (_, p) ↦ absurd (cc (fails, ap (λ r. r.1) p))
          | inr (inl (_, p)) ↦ absurd (cc (fails, ap (λ r. r.1) p))
          | inr (inr (inl (_, _, p))) ↦ absurd (cc (fails, ap (λ r. r.1) p))
          | inr (inr (inr (n, f, p))) ↦ subst goal (sym p) (
            refl,
            (
              h,
              refl,
              refl,
              refl,
              subst
                  (λ y.
                    Coheres J outside url body (some h) a.slot_id (y || spoiled) (known_warmed y h)
                      prefix model tail)
                  (sym (is_refused-err raw n f)) spoils,
            ),
          )
        ]
      where
        goal : List (Action J) × Result (Unit {0}) String → Type 0
        goal r =
            Coheres J outside url body (some h) a.slot_id spoiled known prefix model (r.0 ++ tail)

        spoils : Coheres J outside url body (some h) a.slot_id true none prefix model tail
        spoils = tail-Coheres (some h) a.slot_id true none prefix model tail ends (inl refl)

  -- A task that starts on a slot that holds the prefix, if the admission says so, coheres.
  pub forward-Coheres :
      (hint : Option SlotHint) (a : Admission) (spoiled : Bool) (known : Known)
      (prefix model : Option String)
      → (a.cache_ready ≡ true → Promised hint spoiled known prefix model)
      → Coheres J outside url body hint a.slot_id spoiled known prefix model
          (task J outside url body client hint a)
  unfolding prepare
  forward-Coheres none a spoiled known prefix model ready =
      elim (forward_cases J outside url body client none a) [
        | inl (tail, _, e, ends) ↦
            subst (Coheres J outside url body none a.slot_id spoiled known prefix model) (sym e) (
              refl,
              refl,
              inr tt,
              tail-Coheres none a.slot_id false none none none tail ends (inr tt),
            )
        | inr (tail, m, f, e, ends) ↦ absurd (cc f)
      ]
  forward-Coheres (some h) a spoiled known prefix model ready =
      elim (forward_cases J outside url body client (some h) a) [
        | inl (tail, done, e, ends) ↦
            subst (Coheres J outside url body (some h) a.slot_id spoiled known prefix model) (sym e)
              (prepared-Coheres h a spoiled known prefix model tail ready done ends)
        | inr (tail, m, f, e, ends) ↦
            subst (Coheres J outside url body (some h) a.slot_id spoiled known prefix model) (sym e)
              (refused-Coheres h a m spoiled known prefix model tail f ends)
      ]
