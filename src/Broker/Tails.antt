-- ===== src/Broker/Tails.antt =====
-- src/server.rs, forward: a whole task frees its slot once, and finds the table right when it sends
-- its request.
use aivyx_broker.Prelude.{
  ℕ, suc, ◌≡◌, refl, sym, subst, inl, inr, ◌⊎◌, Bool, true, false, Option, none, some, List, [],
  ◌∷◌, ◌++◌, String, Text, Result, ok, err, arith, Result-cases, if◌then◌else◌,
}
use mathlib.Core.List.{append_assoc, append-nil}
use aivyx_broker.Json.{Json}
use aivyx_broker.Scheduler.{SlotHint, Admission}
use aivyx_broker.Server.Upstream.{
  Action, post, send_head, close, release, Outside, UpstreamResponse, prepare, send_upstream,
  completions_url, with_slot,
}
use aivyx_broker.Server.Relay.{
  Sent, Client, accepted, hung_up, timed_out, relay, relay_response, drop_client, forward,
}
use aivyx_broker.Broker.Preparing.{prepared-Owes, prepared-Truthful, unprepared-Truthful}
use aivyx_broker.Broker.Jobs.{Told, Relayed, Aloof, Owes, Truthful, Owes-Relayed, Truthful-Relayed}

Sent-cases : (s : Sent) → (s ≡ accepted) ⊎ (s ≡ hung_up) ⊎ (s ≡ timed_out)
Sent-cases accepted = inl refl
Sent-cases hung_up = inr (inl refl)
Sent-cases timed_out = inr (inr refl)

aloof-Truthful :
    {J : Json} (hint : Option SlotHint) (p m : Option String) (job : List (Action J))
    → Relayed J job
    → Truthful J hint p m job
aloof-Truthful {J} hint p m job r =
    subst (Truthful J hint p m) (append-nil job) (Truthful-Relayed J hint p m job [] r tt)

module _ (J : Json) where
  -- A job that frees slot `k` and sends nothing to llama-server any more.
  pub record Ends (k : ℕ) (hint : Option SlotHint) (job : List (Action J)) : Type 0 where
    pub owes : Owes J k job
    pub relays : (xs ys : List (Action J)) × Relayed J xs × (job ≡ xs ++ (release k ∷ ys))
    pub truthful : (prefix model : Option String) → Truthful J hint prefix model job

  relay-Relayed :
      (client : Client) (there : Bool) (i : ℕ) (chunks : List (Result Text String))
      → Relayed J (relay J client there i chunks).0
  unfolding relay
  relay-Relayed client true i [] = (refl, tt)
  relay-Relayed client false i [] = (refl, tt)
  relay-Relayed client false i (err e ∷ chunks) = (refl, tt)
  relay-Relayed client false i (ok c ∷ chunks) = (refl, relay-Relayed client false i chunks)
  relay-Relayed client true i (err e ∷ chunks) = elim (Sent-cases (client.takes i)) [
    | inl s ↦ rw (s, relay) (refl, (refl, tt))
    | inr (inl s) ↦ rw (s, relay) (refl, (refl, tt))
    | inr (inr s) ↦ rw (s, relay) (refl, (refl, (refl, tt)))
  ]
  relay-Relayed client true i (ok c ∷ chunks) =
      let more = relay-Relayed client true (suc i) chunks in
      let drained = relay-Relayed client false i chunks in
      elim (Sent-cases (client.takes i)) [
        | inl s ↦ rw (s, relay) (refl, (refl, more))
        | inr (inl s) ↦ rw (s, relay) (refl, (refl, drained))
        | inr (inr s) ↦ rw (s, relay) (refl, (refl, (refl, drained)))
      ]

  drop_client-Relayed : (client : Client) (there : Bool) → Relayed J (drop_client J client there)
  drop_client-Relayed client true = (refl, tt)
  drop_client-Relayed client false = tt

  Relayed-append : (xs ys : List (Action J)) → Relayed J xs → Relayed J ys → Relayed J (xs ++ ys)
  Relayed-append [] ys r q = q
  Relayed-append (x ∷ xs) ys (r, rs) q = (r, Relayed-append xs ys rs q)

  drop_client-Aloof : (client : Client) (there : Bool) → Aloof J (drop_client J client there)
  drop_client-Aloof client true = tt
  drop_client-Aloof client false = tt

  module _ (client : Client) (k : ℕ) (hint : Option SlotHint) where
    relay_response-Ends : (resp : UpstreamResponse) → Ends k hint (relay_response J client k resp)
    unfolding relay_response
    relay_response-Ends resp =
        let (actions, there) = relay J client client.takes_head 0 resp.chunks in
        let dropped = drop_client J client (if client.takes_head then false else true) in
        let last = release k ∷ drop_client J client there in
        let relayed =
          Relayed-append dropped actions
            (drop_client-Relayed client (if client.takes_head then false else true))
            (relay-Relayed client client.takes_head 0 resp.chunks) in
        record {
          owes =
              Owes-Relayed J k (dropped ++ actions) last relayed
                (refl, drop_client-Aloof client there);
          relays = (
            send_head (ok (record { status = resp.status; headers = resp.headers })) ∷ dropped
                ++ actions,
            drop_client J client there,
            (refl, relayed),
            refl,
          );
          truthful = λ p m. Truthful-Relayed J hint p m (dropped ++ actions) last relayed (
              aloof-Truthful hint p m (drop_client J client there)
                (drop_client-Relayed client there));
        }

    error_tail-Ends : (m : String) → Ends k hint (send_head (err m) ∷ close ∷ release k ∷ [])
    error_tail-Ends m = record {
      owes = (refl, tt);
      relays = (send_head (err m) ∷ close ∷ [], [], (refl, (refl, tt)), refl);
      truthful = λ p q. tt;
    }

  module _ (outside : Outside J) (url : Text) (body : Json.Value J) (client : Client) where
    abbrev pub task : Option SlotHint → Admission → List (Action J)
    task hint a = forward J client outside url body hint a

    abbrev pub request : Admission → Action J
    request a = post (completions_url J outside url) (with_slot J outside url body a.slot_id)

    -- A task either sends its request, after a preparation that worked, or ends with an error.
    pub forward_cases :
        (hint : Option SlotHint) (a : Admission)
        → ((tail : List (Action J)) × ((prepare J outside url body hint a).1 ≡ ok tt)
            × (task hint a ≡ (prepare J outside url body hint a).0 ++ request a ∷ tail)
            × Ends a.slot_id hint tail)
          ⊎ ((tail : List (Action J)) × (m : String) × ((prepare J outside url body hint a).1
                ≡ err m)
              × (task hint a ≡ (prepare J outside url body hint a).0 ++ tail)
              × Ends a.slot_id hint tail)
    unfolding forward send_upstream
    forward_cases hint a = elim (Result-cases (prepare J outside url body hint a).1) [
      | inr (m, e) ↦ inr (
        send_head (err m) ∷ close ∷ release a.slot_id ∷ [],
        m,
        e,
        ground (arith, e),
        error_tail-Ends client a.slot_id hint m,
      )
      | inl (_, e) ↦
          elim (Result-cases (
            outside.answer (completions_url J outside url)
              (with_slot J outside url body a.slot_id))) [
                | inr (m, f) ↦ inl (
                  send_head (err m) ∷ close ∷ release a.slot_id ∷ [],
                  ground (arith, e),
                  ground (
                    arith,
                    e,
                    f,
                    append_assoc (prepare J outside url body hint a).0 (request a ∷ [])
                        (send_head (err m) ∷ close ∷ release a.slot_id ∷ []),
                  ),
                  error_tail-Ends client a.slot_id hint m,
                )
                | inl (resp, f) ↦ inl (
                  relay_response J client a.slot_id resp,
                  ground (arith, e),
                  ground (
                    arith,
                    e,
                    f,
                    append_assoc (prepare J outside url body hint a).0 (request a ∷ [])
                        (relay_response J client a.slot_id resp),
                  ),
                  relay_response-Ends client a.slot_id hint resp,
                )
              ]
    ]

    pub forward-Owes : (hint : Option SlotHint) (a : Admission) → Owes J a.slot_id (task hint a)
    unfolding prepare
    forward-Owes none a = elim (forward_cases none a) [
      | inl (tail, _, e, ends) ↦ subst (Owes J a.slot_id) (sym e) (refl, ends.owes)
      | inr (tail, _, _, e, ends) ↦ subst (Owes J a.slot_id) (sym e) (refl, ends.owes)
    ]
    forward-Owes (some h) a = elim (forward_cases (some h) a) [
      | inl (tail, _, e, ends) ↦
          subst (Owes J a.slot_id) (sym e)
            (prepared-Owes J outside url body h a (request a ∷ tail) ends.owes)
      | inr (tail, _, _, e, ends) ↦
          subst (Owes J a.slot_id) (sym e) (prepared-Owes J outside url body h a tail ends.owes)
    ]

    -- A task that starts where the admission was right about the prefix finds the table right.
    pub forward-Truthful :
        (hint : Option SlotHint) (a : Admission) (p m : Option String)
        → (a.cache_ready ≡ true → Told hint p m)
        → Truthful J hint p m (task hint a)
    unfolding prepare
    forward-Truthful none a p m ready = elim (forward_cases none a) [
      | inl (tail, _, e, ends) ↦ subst (Truthful J none p m) (sym e) (refl, ends.truthful none none)
      | inr (tail, _, _, e, ends) ↦ subst (Truthful J none p m) (sym e) (ends.truthful none none)
    ]
    forward-Truthful (some h) a p m ready = elim (forward_cases (some h) a) [
      | inl (tail, done, e, ends) ↦ subst (Truthful J (some h) p m) (sym e) (
          prepared-Truthful J outside url body h a p m (request a ∷ tail) ready done
            (λ q n told. (told, ends.truthful q n)))
      | inr (tail, _, _, e, ends) ↦
          subst (Truthful J (some h) p m) (sym e)
            (unprepared-Truthful J outside url body h a p m tail (λ q n. ends.truthful q n))
    ]
