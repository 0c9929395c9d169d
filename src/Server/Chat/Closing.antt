-- ===== src/Server/Chat/Closing.antt =====
-- src/server.rs, forward: every task drops the sender of the client's chunks once, and does not use
-- it after that.
use aivyx_broker.Prelude.{
  ℕ, suc, ◌≡◌, refl, ◌∙◌, Bool, true, false, not, ◌&&◌, Option, none, some, List, [], ◌∷◌, ◌++◌,
  String, Text, Result, ok, err, arith, inl, inr, Bool-cases, Result-cases,
}
use aivyx_broker.Json.{Json}
use aivyx_broker.Scheduler.{SlotHint, Admission}
use aivyx_broker.Server.Upstream.{
  Action, restore, warm_up, save, mark_resident, clear_resident, post, send_head, read, send_chunk,
  abandon, close, release, Outside, UpstreamResponse, prepare, warm_or_restore, warm, send_upstream,
}
use aivyx_broker.Server.Relay.{Client, relay, relay_response, drop_client, forward}
use aivyx_broker.Server.Chat.Channel.{is_chunk}

module _ (J : Json) where
  -- No action of the job concerns the channel.
  abbrev pub quiet : List (Action J) → Bool
  quiet [] = true
  quiet (action ∷ job) = not (is_chunk J action) && quiet job

  -- The job drops the sender, and does not use it after that.
  abbrev pub closes_once : List (Action J) → Bool
  closes_once [] = false
  closes_once (close ∷ job) = quiet job
  closes_once (_ ∷ job) = closes_once job

  quiet-append : (xs ys : List (Action J)) → quiet xs ≡ true → quiet (xs ++ ys) ≡ quiet ys
  quiet-append [] ys q = refl
  quiet-append (action ∷ xs) ys q = ground (arith, quiet-append xs ys)

  pub closes_once-quiet :
      (xs ys : List (Action J)) → quiet xs ≡ true → closes_once (xs ++ ys) ≡ closes_once ys
  closes_once-quiet [] ys q = refl
  closes_once-quiet (restore k m ∷ xs) ys q = closes_once-quiet xs ys q
  closes_once-quiet (warm_up u v ∷ xs) ys q = closes_once-quiet xs ys q
  closes_once-quiet (save k m d ∷ xs) ys q = closes_once-quiet xs ys q
  closes_once-quiet (mark_resident k m p ∷ xs) ys q = closes_once-quiet xs ys q
  closes_once-quiet (clear_resident k ∷ xs) ys q = closes_once-quiet xs ys q
  closes_once-quiet (post u v ∷ xs) ys q = closes_once-quiet xs ys q
  closes_once-quiet (send_head h ∷ xs) ys q = closes_once-quiet xs ys q
  closes_once-quiet (read ∷ xs) ys q = closes_once-quiet xs ys q
  closes_once-quiet (release k ∷ xs) ys q = closes_once-quiet xs ys q
  closes_once-quiet (send_chunk c ∷ xs) ys q = cc
  closes_once-quiet (abandon ∷ xs) ys q = cc
  closes_once-quiet (close ∷ xs) ys q = cc

  module _ (client : Client) (k : ℕ) where
    abbrev after_loop : Bool → List (Action J)
    after_loop there = release k ∷ drop_client J client there

    -- A loop that no longer serves the client is quiet.
    relay_unserved :
        (i : ℕ) (chunks : List (Result Text String))
        → (quiet (relay J client false i chunks).0 ≡ true)
          × ((relay J client false i chunks).1 ≡ false)
    unfolding relay
    relay_unserved i [] = (refl, refl)
    relay_unserved i (err e ∷ chunks) = (refl, refl)
    relay_unserved i (ok c ∷ chunks) = relay_unserved i chunks

    relay_served :
        (i : ℕ) (chunks : List (Result Text String))
        → let (actions, there) = relay J client true i chunks in
          closes_once (actions ++ after_loop there) ≡ true
    unfolding relay
    relay_served i [] = refl
    relay_served i (err e ∷ chunks) = ground arith
    relay_served i (ok c ∷ chunks) =
        let (calm, gone) = relay_unserved i chunks in
        ground (
          arith,
          relay_served (suc i) chunks,
          calm,
          gone,
          quiet-append (relay J client false i chunks).0 (release k ∷ []),
        )

    relay_response-closes_once :
        (resp : UpstreamResponse) → closes_once (relay_response J client k resp) ≡ true
    unfolding relay_response
    relay_response-closes_once resp = elim (Bool-cases client.takes_head) [
      | inl there ↦ rw (there, relay_response) (relay_served 0 resp.chunks)
      | inr away ↦
          let (calm, gone) = relay_unserved 0 resp.chunks in
          ground (
            arith,
            away,
            calm,
            gone,
            quiet-append (relay J client false 0 resp.chunks).0 (release k ∷ []),
          )
    ]

  prepare-quiet :
      (outside : Outside J) (url : Text) (body : Json.Value J) (hint : Option SlotHint)
      (a : Admission)
      → quiet (prepare J outside url body hint a).0 ≡ true
  unfolding prepare warm_or_restore warm
  prepare-quiet outside url body none a = refl
  prepare-quiet outside url body (some h) a = ground arith

  send_upstream-quiet :
      (outside : Outside J) (url : Text) (body : Json.Value J) (hint : Option SlotHint)
      (a : Admission)
      → quiet (send_upstream J outside url body hint a).0 ≡ true
  unfolding send_upstream
  send_upstream-quiet outside url body hint a = ground (
    arith,
    prepare-quiet outside url body hint a,
    quiet-append (prepare J outside url body hint a).0,
  )

  -- Every forwarding task drops the sender once.
  pub forward-closes_once :
      (client : Client) (outside : Outside J) (url : Text) (body : Json.Value J)
      (hint : Option SlotHint) (a : Admission)
      → closes_once (forward J client outside url body hint a) ≡ true
  unfolding forward
  forward-closes_once client outside url body hint a =
      let (actions, sent) = send_upstream J outside url body hint a in
      let calm = send_upstream-quiet outside url body hint a in
      elim (Result-cases sent) [
        | inl (resp, e) ↦
            rw (e, forward)
              (closes_once-quiet actions _ calm ∙ relay_response-closes_once client a.slot_id resp)
        | inr (m, e) ↦ rw (e, forward) (closes_once-quiet actions _ calm)
      ]
