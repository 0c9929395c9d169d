-- ===== src/Server/Chat/Panic.antt =====
-- src/server.rs, forward, ReleaseGuard and chat_completions: what a client gets from a task that
-- panics.
use aivyx_broker.Prelude.{
  ◌≡◌, refl, ap, sym, ◌∙◌, inl, inr, ◌⊎◌, Bool, true, false, Option, none, some, List, [], ◌∷◌,
  ◌++◌, String, Text, Result, ok, err, filter, All, arith, Option-cases, Result-cases,
  if◌then◌else◌,
}
use mathlib.Core.List.{append-nil}
use aivyx_broker.Json.{Json}
use aivyx_broker.Http.{error}
use aivyx_broker.Scheduler.{SlotHint, Admission}
use aivyx_broker.Server.Upstream.{
  Action, restore, warm_up, save, mark_resident, clear_resident, post, send_head, read, send_chunk,
  abandon, close, release, Outside, UpstreamHead,
}
use aivyx_broker.Server.Relay.{Client, forward}
use aivyx_broker.Server.Relay.Release.{is_release, filter-append, forward-Released}
use aivyx_broker.Server.Relay.Unwinding.{is_close, unwound, unwound-release}
use aivyx_broker.Server.Chat.{Reply, failed, relayed, broken, head_of, body_stream, reply_of}

module _ (J : Json) where
  -- Drops only: the sender of the client's chunks, or the guard.
  abbrev is_drop : Action J → Bool
  is_drop close = true
  is_drop (release k) = true
  is_drop _ = false

  abbrev Drops : List (Action J) → Type 0
  Drops = All (λ x. is_drop x ≡ true)

  Drops-append : (xs ys : List (Action J)) → Drops xs → Drops ys → Drops (xs ++ ys)
  Drops-append [] ys d e = e
  Drops-append (x ∷ xs) ys (q, d) e = (q, Drops-append xs ys d e)

  closes-Drops : (xs : List (Action J)) → Drops (filter (is_close J) xs)
  unfolding filter
  closes-Drops [] = tt
  closes-Drops (restore k' m ∷ xs) = closes-Drops xs
  closes-Drops (warm_up u v ∷ xs) = closes-Drops xs
  closes-Drops (save k' m s ∷ xs) = closes-Drops xs
  closes-Drops (mark_resident i m p ∷ xs) = closes-Drops xs
  closes-Drops (clear_resident i ∷ xs) = closes-Drops xs
  closes-Drops (post u v ∷ xs) = closes-Drops xs
  closes-Drops (send_head r ∷ xs) = closes-Drops xs
  closes-Drops (read ∷ xs) = closes-Drops xs
  closes-Drops (send_chunk c ∷ xs) = closes-Drops xs
  closes-Drops (abandon ∷ xs) = closes-Drops xs
  closes-Drops (close ∷ xs) = (refl, closes-Drops xs)
  closes-Drops (release i ∷ xs) = closes-Drops xs

  releases-Drops : (xs : List (Action J)) → Drops (filter (is_release J) xs)
  unfolding filter
  releases-Drops [] = tt
  releases-Drops (restore k' m ∷ xs) = releases-Drops xs
  releases-Drops (warm_up u v ∷ xs) = releases-Drops xs
  releases-Drops (save k' m s ∷ xs) = releases-Drops xs
  releases-Drops (mark_resident i m p ∷ xs) = releases-Drops xs
  releases-Drops (clear_resident i ∷ xs) = releases-Drops xs
  releases-Drops (post u v ∷ xs) = releases-Drops xs
  releases-Drops (send_head r ∷ xs) = releases-Drops xs
  releases-Drops (read ∷ xs) = releases-Drops xs
  releases-Drops (send_chunk c ∷ xs) = releases-Drops xs
  releases-Drops (abandon ∷ xs) = releases-Drops xs
  releases-Drops (close ∷ xs) = releases-Drops xs
  releases-Drops (release i ∷ xs) = (refl, releases-Drops xs)

  unwound-Drops : (job : List (Action J)) → Drops (unwound J job)
  unfolding unwound
  unwound-Drops job =
      Drops-append (filter (is_close J) job) (filter (is_release J) job) (closes-Drops job)
        (releases-Drops job)

  head_of-Drops : (xs : List (Action J)) → Drops xs → head_of J xs ≡ none
  unfolding head_of
  head_of-Drops [] d = refl
  head_of-Drops (restore k' m ∷ xs) (q, d) = absurd (cc)
  head_of-Drops (warm_up u v ∷ xs) (q, d) = absurd (cc)
  head_of-Drops (save k' m s ∷ xs) (q, d) = absurd (cc)
  head_of-Drops (mark_resident i m p ∷ xs) (q, d) = absurd (cc)
  head_of-Drops (clear_resident i ∷ xs) (q, d) = absurd (cc)
  head_of-Drops (post u v ∷ xs) (q, d) = absurd (cc)
  head_of-Drops (send_head r ∷ xs) (q, d) = absurd (cc)
  head_of-Drops (read ∷ xs) (q, d) = absurd (cc)
  head_of-Drops (send_chunk c ∷ xs) (q, d) = absurd (cc)
  head_of-Drops (abandon ∷ xs) (q, d) = absurd (cc)
  head_of-Drops (close ∷ xs) (q, d) = head_of-Drops xs d
  head_of-Drops (release i ∷ xs) (q, d) = head_of-Drops xs d

  head_of-append : (done xs : List (Action J)) → Drops xs → head_of J (done ++ xs) ≡ head_of J done
  unfolding head_of
  head_of-append [] xs d = head_of-Drops xs d
  head_of-append (restore k' m ∷ done) xs d = head_of-append done xs d
  head_of-append (warm_up u v ∷ done) xs d = head_of-append done xs d
  head_of-append (save k' m s ∷ done) xs d = head_of-append done xs d
  head_of-append (mark_resident i m p ∷ done) xs d = head_of-append done xs d
  head_of-append (clear_resident i ∷ done) xs d = head_of-append done xs d
  head_of-append (post u v ∷ done) xs d = head_of-append done xs d
  head_of-append (send_head r ∷ done) xs d = refl
  head_of-append (read ∷ done) xs d = head_of-append done xs d
  head_of-append (send_chunk c ∷ done) xs d = head_of-append done xs d
  head_of-append (abandon ∷ done) xs d = head_of-append done xs d
  head_of-append (close ∷ done) xs d = head_of-append done xs d
  head_of-append (release i ∷ done) xs d = head_of-append done xs d

  -- How a body ends: as it stands, or with the error for a client that stopped reading.
  abbrev pub BodyEnd : List (Result Text String) → Type 0
  BodyEnd items = (items ≡ []) ⊎ (items ≡ broken ∷ [])

  body_stream-Drops :
      (abandoned : Bool) (xs : List (Action J)) → Drops xs → BodyEnd (body_stream J abandoned xs)
  unfolding body_stream
  body_stream-Drops abandoned [] d = inl refl
  body_stream-Drops abandoned (restore k' m ∷ xs) (q, d) = absurd (cc)
  body_stream-Drops abandoned (warm_up u v ∷ xs) (q, d) = absurd (cc)
  body_stream-Drops abandoned (save k' m s ∷ xs) (q, d) = absurd (cc)
  body_stream-Drops abandoned (mark_resident i m p ∷ xs) (q, d) = absurd (cc)
  body_stream-Drops abandoned (clear_resident i ∷ xs) (q, d) = absurd (cc)
  body_stream-Drops abandoned (post u v ∷ xs) (q, d) = absurd (cc)
  body_stream-Drops abandoned (send_head r ∷ xs) (q, d) = absurd (cc)
  body_stream-Drops abandoned (read ∷ xs) (q, d) = absurd (cc)
  body_stream-Drops abandoned (send_chunk c ∷ xs) (q, d) = absurd (cc)
  body_stream-Drops abandoned (abandon ∷ xs) (q, d) = absurd (cc)
  body_stream-Drops true (close ∷ xs) (q, d) = inr refl
  body_stream-Drops false (close ∷ xs) (q, d) = inl refl
  body_stream-Drops abandoned (release i ∷ xs) (q, d) = body_stream-Drops abandoned xs d

  abbrev Body-append : Bool → List (Action J) → List (Action J) → Type 0
  Body-append abandoned done xs =
      (ends : List (Result Text String)) × (body_stream J abandoned (done ++ xs)
        ≡ body_stream J abandoned done ++ ends)
      × BodyEnd ends

  body_stream-append :
      (abandoned : Bool) (done xs : List (Action J)) → Drops xs → Body-append abandoned done xs
  unfolding body_stream
  body_stream-append abandoned [] xs d =
      (body_stream J abandoned xs, refl, body_stream-Drops abandoned xs d)
  body_stream-append abandoned (restore k' m ∷ done) xs d = body_stream-append abandoned done xs d
  body_stream-append abandoned (warm_up u v ∷ done) xs d = body_stream-append abandoned done xs d
  body_stream-append abandoned (save k' m s ∷ done) xs d = body_stream-append abandoned done xs d
  body_stream-append abandoned (mark_resident i m p ∷ done) xs d =
      body_stream-append abandoned done xs d
  body_stream-append abandoned (clear_resident i ∷ done) xs d =
      body_stream-append abandoned done xs d
  body_stream-append abandoned (post u v ∷ done) xs d = body_stream-append abandoned done xs d
  body_stream-append abandoned (send_head r ∷ done) xs d = body_stream-append abandoned done xs d
  body_stream-append abandoned (read ∷ done) xs d = body_stream-append abandoned done xs d
  body_stream-append abandoned (send_chunk c ∷ done) xs d =
      let (ends, e, how) = body_stream-append abandoned done xs d in (ends, ap (◌∷◌ c) e, how)
  body_stream-append abandoned (abandon ∷ done) xs d = body_stream-append true done xs d
  body_stream-append abandoned (close ∷ done) xs d =
      ([], sym (append-nil (if abandoned then broken ∷ [] else [])), inl refl)
  body_stream-append abandoned (release i ∷ done) xs d = body_stream-append abandoned done xs d

  -- The reply of a task that did `done` and then panicked.
  abbrev pub Interrupted : List (Action J) → Reply → Type 0
  Interrupted done reply =
      ((head_of J done ≡ none)
        × (reply
            ≡ failed
                (record { status = 502; body = error "forwarding task ended without a response" })))
      ⊎ ((e : String) × (head_of J done ≡ some (err e))
          × (reply ≡ failed (record { status = 502; body = error e })))
      ⊎ ((head : UpstreamHead) × (ends : List (Result Text String)) × (head_of J done
            ≡ some (ok head))
          × (reply ≡ relayed head (body_stream J false done ++ ends))
          × BodyEnd ends)

  unwound-Interrupted :
      (done rest : List (Action J)) → Interrupted done (reply_of J (done ++ unwound J rest))
  unwound-Interrupted done rest =
      let drops = unwound-Drops rest in
      let head = head_of-append done (unwound J rest) drops in
      elim (Option-cases (head_of J done)) [
        | inl n ↦ inl (n, ground (arith, head, n))
        | inr (some_head, e) ↦ elim (Result-cases some_head) [
          | inr (m, f) ↦ inr (inl (m, e ∙ ap some f, ground (arith, head, e, f)))
          | inl (h, f) ↦
              let (ends, is, how) = body_stream-append false done (unwound J rest) drops in
              inr (inr (h, ends, e ∙ ap some f, ground (arith, head, e, f, is), how))
        ]
      ]

  -- If the task of an admitted request panics, wherever in its work that is, then its slot is released
  -- exactly once, by the task or by the unwinding. A client that has no response head by then gets a 502
  -- that says that the task ended without a response; one that has the head gets the chunks that
  -- were sent, and after them the end of the body or the error for a client that stopped reading.
  pub forward-Panic :
      (outside : Outside J) (llama_server_url : Text) (body : Json.Value J) (client : Client)
      (hint : Option SlotHint) (admission : Admission) (done rest : List (Action J))
      → forward J client outside llama_server_url body hint admission ≡ done ++ rest
      → (filter (is_release J) (done ++ unwound J rest) ≡ release admission.slot_id ∷ [])
        × Interrupted done (reply_of J (done ++ unwound J rest))
  unfolding filter
  forward-Panic outside llama_server_url body client hint admission done rest e =
      let (before, after, split, none_before, _, none_after, _) =
        forward-Released J outside llama_server_url body client hint admission in
      (
        filter-append J (is_release J) done (unwound J rest)
            ∙ ap (λ xs. filter (is_release J) done ++ xs) (unwound-release J rest)
            ∙ sym (filter-append J (is_release J) done rest)
            ∙ ap (filter (is_release J)) (sym e ∙ split)
            ∙ filter-append J (is_release J) before (release admission.slot_id ∷ after)
            ∙ rw (none_before, none_after) refl,
        unwound-Interrupted done rest,
      )
