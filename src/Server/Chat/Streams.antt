-- ===== src/Server/Chat/Streams.antt =====
-- src/server.rs: what the body of a response yields of the chunks that the task sends.
use aivyx_broker.Prelude.{
  ◌≤◌, ◌≡◌, refl, sym, ap, ◌∙◌, Bool, true, false, List, [], ◌∷◌, ◌++◌, arith, length,
  length-append, if◌then◌else◌, inl, inr, ◌⊎◌, Bool-cases,
}
use mathlib.Core.List.{append_assoc, append-nil}
use aivyx_broker.Json.{Json}
use aivyx_broker.Server.Upstream.{
  Action, restore, warm_up, save, mark_resident, clear_resident, post, send_head, read, send_chunk,
  abandon, close, release,
}
use aivyx_broker.Server.Chat.{body_stream}
use aivyx_broker.Server.Chat.Channel.{
  Link, opened, is_chunk, last_item, Step, sends, abandons, closes, works, takes, ends, Reach,
  start, later, unread, pending, forward_channel_chunks,
}

module _ (J : Json) where
  pub record Inv (job : List (Action J)) (s : Link J) : Type 0 where
    pub bounded : length s.buffer ≤ forward_channel_chunks
    pub whole : body_stream J false job ≡ s.received ++ pending J s
    pub ended : s.over ≡ true → (s.closed ≡ true) × (s.buffer ≡ [])

  body_stream-skips :
      (abandoned : Bool) (action : Action J) (rest : List (Action J))
      → is_chunk J action ≡ false
      → body_stream J abandoned (action ∷ rest) ≡ body_stream J abandoned rest
  unfolding body_stream
  body_stream-skips abandoned (restore k m) rest e = refl
  body_stream-skips abandoned (warm_up u v) rest e = refl
  body_stream-skips abandoned (save k m d) rest e = refl
  body_stream-skips abandoned (mark_resident k m p) rest e = refl
  body_stream-skips abandoned (clear_resident k) rest e = refl
  body_stream-skips abandoned (post u v) rest e = refl
  body_stream-skips abandoned (send_head h) rest e = refl
  body_stream-skips abandoned read rest e = refl
  body_stream-skips abandoned (release k) rest e = refl
  body_stream-skips abandoned (send_chunk c) rest e = cc
  body_stream-skips abandoned abandon rest e = cc
  body_stream-skips abandoned close rest e = cc

  pub open_if_unclosed :
      {job : List (Action J)} {s : Link J} → Inv job s → s.closed ≡ false → s.over ≡ false
  open_if_unclosed {s = s} inv open_yet = elim (Bool-cases s.over) [
    | inl over ↦ absurd (cc ((inv.ended over).0, open_yet))
    | inr not_over ↦ not_over
  ]

  pending_open :
      (s : Link J) (actions : List (Action J))
      → s.job ≡ actions
      → s.closed ≡ false
      → s.over ≡ false
      → pending J s ≡ s.buffer ++ body_stream J s.abandoned actions
  pending_open s actions e c o = rw (o, c, e) refl

  Step-pending :
      {job : List (Action J)} {s t : Link J}
      → Step J s t
      → Inv job s
      → s.received ++ pending J s ≡ t.received ++ pending J t
  unfolding body_stream
  Step-pending {s = s} (sends c rest e c' room) inv =
      let o = open_if_unclosed inv c' in
      ap (λ l. s.received ++ l)
        (pending_open s (send_chunk c ∷ rest) e c' o
          ∙ sym (append_assoc s.buffer (c ∷ []) (body_stream J s.abandoned rest))
          ∙ sym
              (pending_open (record s { job = rest; buffer = s.buffer ++ c ∷ [] }) rest refl c' o))
  Step-pending {s = s} (abandons rest e c') inv =
      let o = open_if_unclosed inv c' in
      ap (λ l. s.received ++ l)
        (pending_open s (abandon ∷ rest) e c' o
          ∙ sym (pending_open (record s { job = rest; abandoned = true }) rest refl c' o))
  Step-pending {s = s} (closes rest e c') inv =
      let o = open_if_unclosed inv c' in
      ap (λ l. s.received ++ l) (pending_open s (close ∷ rest) e c' o ∙ rw o refl)
  Step-pending {s = s} (works action rest e quiet) inv =
      ap
        (λ b.
          s.received
          ++ (if s.over
              then []
              else (s.buffer ++ (if s.closed then last_item J s.abandoned else b))))
        (ap (body_stream J s.abandoned) e ∙ body_stream-skips s.abandoned action rest quiet)
  Step-pending {s = s} (takes c rest e o) inv = rw (o, e) (sym (append_assoc s.received (c ∷ []) _))
  Step-pending {s = s} (ends e c' o) inv = rw (o, e, c') (sym (append-nil _))

  Step-bounded :
      {s t : Link J}
      → Step J s t
      → length s.buffer ≤ forward_channel_chunks
      → length t.buffer ≤ forward_channel_chunks
  Step-bounded {s} (sends c rest e c' room) b = ground (arith, length-append s.buffer (c ∷ []))
  Step-bounded (abandons rest e c') b = b
  Step-bounded (closes rest e c') b = b
  Step-bounded (works action rest e quiet) b = b
  Step-bounded (takes c rest e o) b = ground (arith, e)
  Step-bounded (ends e c' o) b = b

  Step-ended :
      {job : List (Action J)} {s t : Link J}
      → Step J s t
      → Inv job s
      → t.over ≡ true
      → (t.closed ≡ true) × (t.buffer ≡ [])
  Step-ended (sends c rest e c' room) inv over = absurd (cc ((inv.ended over).0, c'))
  Step-ended (abandons rest e c') inv over = inv.ended over
  Step-ended (closes rest e c') inv over = absurd (cc ((inv.ended over).0, c'))
  Step-ended (works action rest e quiet) inv over = inv.ended over
  Step-ended (takes c rest e o) inv over = absurd (cc (o, over))
  Step-ended (ends e c' o) inv over = (c', e)

  pub Step-Inv : {job : List (Action J)} {s t : Link J} → Step J s t → Inv job s → Inv job t
  Step-Inv {s = s} st inv = record {
    bounded = Step-bounded st inv.bounded;
    whole = inv.whole ∙ Step-pending st inv;
    ended = Step-ended st inv;
  }

  init-Inv : (job : List (Action J)) → Inv job (opened J job)
  init-Inv job = record { bounded = omega arith; whole = refl; ended = λ over. cc }

  pub Reach-Inv : {job : List (Action J)} {s : Link J} → Reach J job s → Inv job s
  Reach-Inv {job} start = init-Inv job
  Reach-Inv (later r st) = Step-Inv st (Reach-Inv r)

  pub over_received :
      {job : List (Action J)} {s : Link J}
      → Inv job s
      → s.over ≡ true
      → s.received ≡ body_stream J false job
  over_received {s = s} inv over = sym (
      inv.whole
      ∙ ap (λ b. s.received ++ (if b then [] else unread J s)) over
      ∙ append-nil s.received)

  -- However the task and the client's side interleave, the channel never holds more than
  -- `FORWARD_CHANNEL_CHUNKS` chunks; what the body has yielded so far is the start of what the task's
  -- actions make up, in their order; and once the body has ended, it is all of that.
  pub received-Streams :
      {job : List (Action J)} {s : Link J}
      → Reach J job s
      → (length s.buffer ≤ forward_channel_chunks)
        × (body_stream J false job ≡ s.received ++ pending J s)
        × ((s.over ≡ false) ⊎ (s.received ≡ body_stream J false job))
  received-Streams {s = s} r =
      let inv = Reach-Inv r in
      (
        inv.bounded,
        inv.whole,
        elim (Bool-cases s.over) [
          | inl over ↦ inr (over_received inv over)
          | inr not_over ↦ inl not_over
        ],
      )
