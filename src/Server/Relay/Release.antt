-- ===== src/Server/Relay/Release.antt =====
-- src/server.rs, forward: the slot is freed once, after all of llama-server's work.
use aivyx_broker.Prelude.{
  ℕ, suc, ◌≡◌, refl, ap, Bool, true, false, Option, none, some, List, [], ◌∷◌, ◌++◌, String, Text,
  Result, ok, err, filter, arith, Result-cases, inl, inr, if◌then◌else◌,
}
use mathlib.Core.List.{append_assoc, append-nil}
use aivyx_broker.Json.{Json}
use aivyx_broker.Scheduler.{SlotHint, Admission}
use aivyx_broker.Server.Upstream.{
  Action, restore, warm_up, save, post, send_head, read, close, release, Outside, UpstreamResponse,
  send_upstream, prepare, warm_or_restore,
}
use aivyx_broker.Server.Relay.{Client, relay, relay_response, forward, drop_client}

module _ (J : Json) where
  -- A slot's release, and the actions that are llama-server's or its cache's work on the slot.
  abbrev pub is_release : Action J → Bool
  is_release (release slot_id) = true
  is_release _ = false

  abbrev pub is_upstream : Action J → Bool
  is_upstream (restore key slot_id) = true
  is_upstream (warm_up url body) = true
  is_upstream (save key slot_id meta) = true
  is_upstream (post url body) = true
  is_upstream read = true
  is_upstream _ = false

  pub filter-append :
      (p : Action J → Bool) (xs ys : List (Action J))
      → filter p (xs ++ ys) ≡ filter p xs ++ filter p ys
  unfolding filter
  filter-append p [] ys = refl
  filter-append p (x ∷ xs) ys = ground (arith, filter-append p xs ys)

  -- llama-server's chunks are read to the end, or to the first error, whatever the client does.
  abbrev pub polls : List (Result Text String) → List (Action J)
  polls [] = read ∷ []
  polls (err e ∷ chunks) = read ∷ []
  polls (ok c ∷ chunks) = read ∷ polls chunks

  module _ (client : Client) where
    relay-Unreleased :
        (there : Bool) (i : ℕ) (chunks : List (Result Text String))
        → filter is_release (relay J client there i chunks).0 ≡ []
    unfolding relay filter
    relay-Unreleased true i [] = refl
    relay-Unreleased false i [] = refl
    relay-Unreleased false i (err e ∷ chunks) = refl
    relay-Unreleased false i (ok c ∷ chunks) = relay-Unreleased false i chunks
    relay-Unreleased true i (err e ∷ chunks) = ground arith
    relay-Unreleased true i (ok c ∷ chunks) =
        ground (arith, relay-Unreleased true (suc i) chunks, relay-Unreleased false i chunks)

    relay-Upstream :
        (there : Bool) (i : ℕ) (chunks : List (Result Text String))
        → filter is_upstream (relay J client there i chunks).0 ≡ polls chunks
    unfolding relay filter
    relay-Upstream true i [] = refl
    relay-Upstream false i [] = refl
    relay-Upstream false i (err e ∷ chunks) = refl
    relay-Upstream false i (ok c ∷ chunks) = ap (◌∷◌ read) (relay-Upstream false i chunks)
    relay-Upstream true i (err e ∷ chunks) = ground arith
    relay-Upstream true i (ok c ∷ chunks) =
        ground (arith, relay-Upstream true (suc i) chunks, relay-Upstream false i chunks)

    relay_response-split :
        (slot_id : ℕ) (resp : UpstreamResponse)
        → (before after : List (Action J)) × (relay_response J client slot_id resp
            ≡ before ++ release slot_id ∷ after)
          × (filter is_release before ≡ [])
          × (filter is_upstream before ≡ polls resp.chunks)
          × (filter is_release after ≡ [])
          × (filter is_upstream after ≡ [])
    unfolding relay_response filter
    relay_response-split slot_id resp =
        let (actions, left) = relay J client client.takes_head 0 resp.chunks in
        let dropped = drop_client J client (if client.takes_head then false else true) in
        let head = send_head (ok (record { status = resp.status; headers = resp.headers })) in
        (
          head ∷ dropped ++ actions,
          drop_client J client left,
          refl,
          ground (
            arith,
            filter-append is_release dropped actions,
            relay-Unreleased client.takes_head 0 resp.chunks,
          ),
          ground (
            arith,
            filter-append is_upstream dropped actions,
            relay-Upstream client.takes_head 0 resp.chunks,
          ),
          ground arith,
          ground arith,
        )

    relay_response-Upstream :
        (slot_id : ℕ) (resp : UpstreamResponse)
        → filter is_upstream (relay_response J client slot_id resp) ≡ polls resp.chunks
    unfolding filter
    relay_response-Upstream slot_id resp =
        let (before, after, split, r, u, r', u') = relay_response-split slot_id resp in
        ground (
          arith,
          split,
          u,
          u',
          append-nil (polls resp.chunks),
          filter-append is_upstream before (release slot_id ∷ after),
        )

  module _ (outside : Outside J) (llama_server_url : Text) (body : Json.Value J) where
    warm-Unreleased :
        (hint : SlotHint) (slot_id : ℕ)
        → filter is_release (warm_or_restore J outside llama_server_url body hint slot_id).0 ≡ []
    unfolding warm_or_restore filter
    warm-Unreleased hint slot_id = ground arith

    prepare-Unreleased :
        (hint : Option SlotHint) (admission : Admission)
        → filter is_release (prepare J outside llama_server_url body hint admission).0 ≡ []
    unfolding prepare filter
    prepare-Unreleased none admission = refl
    prepare-Unreleased (some hint) admission =
        ground (arith, warm-Unreleased hint admission.slot_id)

    send_upstream-Unreleased :
        (hint : Option SlotHint) (admission : Admission)
        → filter is_release (send_upstream J outside llama_server_url body hint admission).0 ≡ []
    unfolding send_upstream filter
    send_upstream-Unreleased none admission = refl
    send_upstream-Unreleased (some hint) admission =
        elim (Result-cases (prepare J outside llama_server_url body (some hint) admission).1) [
          | inl (a, e) ↦ ground (arith, e, prepare-Unreleased (some hint) admission)
          | inr (a, e) ↦ ground (arith, e, prepare-Unreleased (some hint) admission)
        ]

    -- All that llama-server and the cache do for a task: the preparation and the request, and, where
    -- llama-server answers, the polls of its body up to the end or the first error.
    abbrev pub all_work : List (Action J) × Result UpstreamResponse String → List (Action J)
    all_work (actions, ok resp) = filter is_upstream actions ++ polls resp.chunks
    all_work (actions, err e) = filter is_upstream actions

    abbrev pub Split : Option SlotHint → Admission → List (Action J) → Type 0
    Split hint admission actions =
        (before after : List (Action J)) × (actions ≡ before ++ release admission.slot_id ∷ after)
        × (filter is_release before ≡ [])
        × (filter is_upstream before
            ≡ all_work (send_upstream J outside llama_server_url body hint admission))
        × (filter is_release after ≡ [])
        × (filter is_upstream after ≡ [])

    -- On every path the task frees its slot exactly once. Before that it does all the work for
    -- llama-server and the KV cache: the preparation, the request, and, whatever the client does, the
    -- reading of the response to its end or its first error. After that it does none.
    pub forward-Released :
        (client : Client) (hint : Option SlotHint) (admission : Admission)
        → Split hint admission (forward J client outside llama_server_url body hint admission)
    unfolding forward filter
    forward-Released client hint admission =
        let unreleased = send_upstream-Unreleased hint admission in
        let done = (send_upstream J outside llama_server_url body hint admission).0 in
        elim (Result-cases (send_upstream J outside llama_server_url body hint admission).1) [
          | inr (a, e) ↦ (
            done ++ send_head (err a) ∷ close ∷ [],
            [],
            ground (
              arith,
              e,
              append_assoc done (send_head (err a) ∷ close ∷ []) (release admission.slot_id ∷ []),
            ),
            ground
                (arith, unreleased, filter-append is_release done (send_head (err a) ∷ close ∷ [])),
            ground (
              arith,
              e,
              filter-append is_upstream done (send_head (err a) ∷ close ∷ []),
              append-nil (filter is_upstream done),
            ),
            refl,
            refl,
          )
          | inl (resp, e) ↦
              let (before, after, split, r, u, r', u') =
                relay_response-split client admission.slot_id resp in
              (
                done ++ before,
                after,
                ground
                    (arith, e, split, append_assoc done before (release admission.slot_id ∷ after)),
                ground (arith, unreleased, r, filter-append is_release done before),
                ground (arith, e, u, filter-append is_upstream done before),
                r',
                u',
              )
        ]

    module _ (hint : Option SlotHint) (admission : Admission) where
      -- The work that llama-server and the cache are given on a slot does not depend on the client:
      -- whether it takes the response, hangs up or stops reading, the same requests are sent and
      -- llama-server's answer is read as far.
      pub forward-Upstream :
          (one other : Client)
          → filter is_upstream (forward J one outside llama_server_url body hint admission)
            ≡ filter is_upstream (forward J other outside llama_server_url body hint admission)
      unfolding forward
      forward-Upstream one other =
          let done = (send_upstream J outside llama_server_url body hint admission).0 in
          elim (Result-cases (send_upstream J outside llama_server_url body hint admission).1) [
            | inr (a, e) ↦ ground (arith, e)
            | inl (resp, e) ↦ ground (
              arith,
              e,
              relay_response-Upstream one admission.slot_id resp,
              relay_response-Upstream other admission.slot_id resp,
              filter-append is_upstream done (relay_response J one admission.slot_id resp),
              filter-append is_upstream done (relay_response J other admission.slot_id resp),
            )
          ]
