-- ===== src/Server/Chat/Delivery.antt =====
-- src/server.rs: what a client that stays connected is given of llama-server's response.
use aivyx_broker.Prelude.{
  ℕ, suc, ◌≡◌, ◌≢◌, ◌⊎◌, inl, inr, refl, ap, sym, subst, Bool, true, false, Option, none, some,
  List, [], ◌∷◌, ◌++◌, String, Text, Result, ok, err, filter, arith, Result-cases,
}
use aivyx_broker.Json.{Json}
use aivyx_broker.Scheduler.{SlotHint, Admission}
use aivyx_broker.Server.Upstream.{
  Action, restore, warm_up, save, mark_resident, clear_resident, post, send_head, read, send_chunk,
  abandon, close, release, Outside, UpstreamResponse, send_upstream, prepare, warm_or_restore,
}
use aivyx_broker.Server.Relay.{
  Sent, Client, accepted, hung_up, timed_out, relay, relay_response, drop_client,
}
use aivyx_broker.Server.Relay.Release.{filter-append}
use aivyx_broker.Server.Upstream.{completions_url, with_slot}
use aivyx_broker.Server.Chat.{broken, head_of, body_stream}

-- The items that llama-server's body has for a client: all, or those up to the first error.
abbrev pub wanted : List (Result Text String) → List (Result Text String)
wanted [] = []
wanted (err e ∷ chunks) = err e ∷ []
wanted (ok c ∷ chunks) = ok c ∷ wanted chunks

-- All of it, or a part from the start and then an error of the broker's.
abbrev pub Delivered : List (Result Text String) → List (Result Text String) → Type 0
Delivered whole stream =
    (stream ≡ whole)
    ⊎ ((part rest : List (Result Text String)) × (whole ≡ part ++ rest)
        × (stream ≡ part ++ broken ∷ []))

Delivered-cons :
    (c : Result Text String) (whole stream : List (Result Text String))
    → Delivered whole stream
    → Delivered (c ∷ whole) (c ∷ stream)
Delivered-cons c whole stream (inl e) = inl (ap (◌∷◌ c) e)
Delivered-cons c whole stream (inr (part, rest, e, f)) =
    inr (c ∷ part, rest, ap (◌∷◌ c) e, ap (◌∷◌ c) f)

Sent-cases : (s : Sent) → s ≢ hung_up → (s ≡ accepted) ⊎ (s ≡ timed_out)
Sent-cases accepted h = inl refl
Sent-cases hung_up h = absurd (h refl)
Sent-cases timed_out h = inr refl

module _ (J : Json) where
  abbrev pub is_client : Action J → Bool
  is_client (send_head h) = true
  is_client (send_chunk c) = true
  is_client abandon = true
  is_client close = true
  is_client _ = false

  module _ (client : Client) (stays : (i : ℕ) → client.takes i ≢ hung_up) (slot_id : ℕ) where
    stream_of : ℕ → List (Result Text String) → List (Result Text String)
    unfolding relay body_stream
    stream_of i chunks =
        let (actions, there) = relay J client true i chunks in
        body_stream J false (actions ++ release slot_id ∷ drop_client J client there)

    stream_of-Delivered :
        (i : ℕ) (chunks : List (Result Text String))
        → Delivered (wanted chunks) (stream_of i chunks)
    unfolding stream_of relay body_stream
    stream_of-Delivered i [] = inl refl
    stream_of-Delivered i (err e ∷ chunks) = elim (Sent-cases (client.takes i) (stays i)) [
      | inl a ↦ inl (ground (arith, a))
      | inr t ↦ inr ([], err e ∷ [], refl, ground (arith, t))
    ]
    stream_of-Delivered i (ok c ∷ chunks) = elim (Sent-cases (client.takes i) (stays i)) [
      | inl a ↦ subst (Delivered (ok c ∷ wanted chunks)) (sym (ground (arith, a))) (
          Delivered-cons (ok c) (wanted chunks) (stream_of (suc i) chunks)
            (stream_of-Delivered (suc i) chunks))
      | inr t ↦ inr ([], ok c ∷ wanted chunks, refl, ground (arith, t))
    ]

    pub relay_response-Delivered :
        (resp : UpstreamResponse)
        → client.takes_head ≡ true
        → Delivered
            (wanted resp.chunks)
            (body_stream J false (relay_response J client slot_id resp))
    unfolding relay_response body_stream stream_of
    relay_response-Delivered resp h =
        subst (Delivered (wanted resp.chunks)) (ground (arith, h))
          (stream_of-Delivered 0 resp.chunks)

  pub head_of-skip :
      (xs ys : List (Action J)) → filter is_client xs ≡ [] → head_of J (xs ++ ys) ≡ head_of J ys
  unfolding head_of filter
  head_of-skip [] ys q = refl
  head_of-skip (restore k i ∷ xs) ys q = head_of-skip xs ys q
  head_of-skip (warm_up u v ∷ xs) ys q = head_of-skip xs ys q
  head_of-skip (save k i m ∷ xs) ys q = head_of-skip xs ys q
  head_of-skip (mark_resident i m h ∷ xs) ys q = head_of-skip xs ys q
  head_of-skip (clear_resident i ∷ xs) ys q = head_of-skip xs ys q
  head_of-skip (post u v ∷ xs) ys q = head_of-skip xs ys q
  head_of-skip (read ∷ xs) ys q = head_of-skip xs ys q
  head_of-skip (release i ∷ xs) ys q = head_of-skip xs ys q
  head_of-skip (send_head h ∷ xs) ys q = absurd (cc)
  head_of-skip (send_chunk c ∷ xs) ys q = absurd (cc)
  head_of-skip (abandon ∷ xs) ys q = absurd (cc)
  head_of-skip (close ∷ xs) ys q = absurd (cc)

  pub body_stream-skip :
      (xs ys : List (Action J))
      → filter is_client xs ≡ []
      → body_stream J false (xs ++ ys) ≡ body_stream J false ys
  unfolding body_stream filter
  body_stream-skip [] ys q = refl
  body_stream-skip (restore k i ∷ xs) ys q = body_stream-skip xs ys q
  body_stream-skip (warm_up u v ∷ xs) ys q = body_stream-skip xs ys q
  body_stream-skip (save k i m ∷ xs) ys q = body_stream-skip xs ys q
  body_stream-skip (mark_resident i m h ∷ xs) ys q = body_stream-skip xs ys q
  body_stream-skip (clear_resident i ∷ xs) ys q = body_stream-skip xs ys q
  body_stream-skip (post u v ∷ xs) ys q = body_stream-skip xs ys q
  body_stream-skip (read ∷ xs) ys q = body_stream-skip xs ys q
  body_stream-skip (release i ∷ xs) ys q = body_stream-skip xs ys q
  body_stream-skip (send_head h ∷ xs) ys q = absurd (cc)
  body_stream-skip (send_chunk c ∷ xs) ys q = absurd (cc)
  body_stream-skip (abandon ∷ xs) ys q = absurd (cc)
  body_stream-skip (close ∷ xs) ys q = absurd (cc)

  module _ (outside : Outside J) (llama_server_url : Text) (body : Json.Value J) where
    warm-Unseen :
        (hint : SlotHint) (slot_id : ℕ)
        → filter is_client (warm_or_restore J outside llama_server_url body hint slot_id).0 ≡ []
    unfolding warm_or_restore filter
    warm-Unseen hint slot_id = ground arith

    prepare-Unseen :
        (hint : Option SlotHint) (admission : Admission)
        → filter is_client (prepare J outside llama_server_url body hint admission).0 ≡ []
    unfolding prepare filter
    prepare-Unseen none admission = refl
    prepare-Unseen (some hint) admission = ground (arith, warm-Unseen hint admission.slot_id)

    pub send_upstream-Unseen :
        (hint : Option SlotHint) (admission : Admission)
        → filter is_client (send_upstream J outside llama_server_url body hint admission).0 ≡ []
    unfolding send_upstream filter
    send_upstream-Unseen hint admission =
        let prepared = prepare J outside llama_server_url body hint admission in
        elim (Result-cases prepared.1) [
          | inl (a, e) ↦ ground (
            arith,
            e,
            prepare-Unseen hint admission,
            filter-append J is_client prepared.0 (
                post (completions_url J outside llama_server_url)
                  (with_slot J outside llama_server_url body admission.slot_id)
                ∷ []),
          )
          | inr (a, e) ↦ ground (arith, e, prepare-Unseen hint admission)
        ]
