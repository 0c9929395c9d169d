-- ===== src/Server/Chat/Flow.antt =====
-- src/server.rs, forward and chat_completions: the channel between the task and the body never gets
-- stuck, so that a client that reads on is given the end of the body.
use aivyx_broker.Prelude.{
  ℕ, zero, suc, ◌+◌, ◌*◌, ◌≤◌, ◌<◌, ◌≡◌, refl, true, false, Option, List, [], ◌∷◌, ◌++◌, String,
  Text, Result, arith, length, length-append, if◌then◌else◌, inl, inr, ◌⊎◌, Bool-cases,
}
use aivyx_broker.Json.{Json}
use aivyx_broker.Scheduler.{SlotHint, Admission}
use aivyx_broker.Server.Upstream.{
  Action, restore, warm_up, save, mark_resident, clear_resident, post, send_head, read, send_chunk,
  abandon, close, release, Outside,
}
use aivyx_broker.Server.Relay.{Client, forward}
use aivyx_broker.Server.Chat.{body_stream}
use aivyx_broker.Server.Chat.Closing.{quiet, closes_once, closes_once-quiet, forward-closes_once}
use aivyx_broker.Server.Chat.Channel.{
  Link, is_chunk, Step, sends, abandons, closes, works, takes, ends, Reach, start, later,
  forward_channel_chunks, last_item,
}
use aivyx_broker.Server.Chat.Streams.{Inv, Step-Inv, Reach-Inv, over_received}

module _ (J : Json) where
  -- The task will drop the sender if it has not done so, and otherwise leaves the channel alone.
  abbrev pub Flows : Link J → Type 0
  Flows s = (if s.closed then quiet J s.job else closes_once J s.job) ≡ true

  -- What is left to do: two steps for a chunk of the task, one for a buffered one, and the end.
  abbrev left_to_do : Link J → ℕ
  left_to_do s = length s.job * 2 + length s.buffer + (if s.over then 0 else 1)

  abbrev Moves : Link J → Type 0
  Moves s = (t : Link J) × Step J s t × Flows t × (left_to_do t < left_to_do s)

  -- Taking a chunk that is buffered.
  takes_one :
      (s : Link J) (c : Result Text String) (rest : List (Result Text String))
      → Flows s
      → s.buffer ≡ c ∷ rest
      → s.over ≡ false
      → Moves s
  takes_one s c rest f e o = (
    record s { buffer = rest; received = s.received ++ c ∷ [] },
    takes c rest e o,
    f,
    ground (arith, e, o),
  )

  works_one :
      (s : Link J) (action : Action J) (rest : List (Action J))
      → s.job ≡ action ∷ rest
      → is_chunk J action ≡ false
      → (if s.closed then quiet J rest else closes_once J rest) ≡ true
      → Moves s
  works_one s action rest e calm f =
      (record s { job = rest }, works action rest e calm, f, ground (arith, e))

  buffer_cases :
      (buffer : List (Result Text String))
      → (buffer ≡ [])
        ⊎ ((c : Result Text String) × (rest : List (Result Text String)) × (buffer ≡ c ∷ rest))
  buffer_cases [] = inl refl
  buffer_cases (c ∷ rest) = inr (c, rest, refl)

  closed-Moves :
      (s : Link J) (job : List (Action J))
      → s.job ≡ job
      → quiet J job ≡ true
      → s.closed ≡ true
      → s.over ≡ false
      → Moves s
  closed-Moves s [] e q closed open_yet = elim (buffer_cases s.buffer) [
    | inl empty ↦ (
      record s { received = s.received ++ last_item J s.abandoned; over = true },
      ends empty closed open_yet,
      ground (arith, e, closed),
      ground (arith, open_yet),
    )
    | inr (c, rest, b) ↦ takes_one s c rest (ground (arith, e, closed)) b open_yet
  ]
  closed-Moves s (action ∷ rest) e q closed open_yet =
      works_one s action rest e (ground arith) (ground (arith, closed))

  sends_one :
      (s : Link J) (c : Result Text String) (job : List (Action J))
      → s.job ≡ send_chunk c ∷ job
      → closes_once J job ≡ true
      → s.closed ≡ false
      → s.over ≡ false
      → length s.buffer ≤ forward_channel_chunks
      → Moves s
  sends_one s c job e q unclosed open_yet fits = elim (buffer_cases s.buffer) [
    | inr (d, rest, b) ↦ takes_one s d rest (ground (arith, e, unclosed)) b open_yet
    | inl empty ↦ (
      record s { job = job; buffer = s.buffer ++ c ∷ [] },
      sends c job e unclosed (ground (arith, empty)),
      ground (arith, unclosed),
      ground (arith, e, length-append s.buffer (c ∷ [])),
    )
  ]

  unclosed-Moves :
      (s : Link J) (job : List (Action J))
      → s.job ≡ job
      → closes_once J job ≡ true
      → s.closed ≡ false
      → s.over ≡ false
      → length s.buffer ≤ forward_channel_chunks
      → Moves s
  unclosed-Moves s [] e q u o b = cc
  unclosed-Moves s (send_chunk c ∷ job) e q u o b = sends_one s c job e q u o b
  unclosed-Moves s (abandon ∷ job) e q u o b = (
    record s { job = job; abandoned = true },
    abandons job e u,
    ground (arith, u),
    ground (arith, e),
  )
  unclosed-Moves s (close ∷ job) e q u o b =
      (record s { job = job; closed = true }, closes job e u, ground arith, ground (arith, e))
  unclosed-Moves s (restore k m ∷ job) e q u o b =
      works_one s (restore k m) job e refl (ground (arith, u))
  unclosed-Moves s (warm_up v x ∷ job) e q u o b =
      works_one s (warm_up v x) job e refl (ground (arith, u))
  unclosed-Moves s (save k m d ∷ job) e q u o b =
      works_one s (save k m d) job e refl (ground (arith, u))
  unclosed-Moves s (mark_resident k m p ∷ job) e q u o b =
      works_one s (mark_resident k m p) job e refl (ground (arith, u))
  unclosed-Moves s (clear_resident k ∷ job) e q u o b =
      works_one s (clear_resident k) job e refl (ground (arith, u))
  unclosed-Moves s (post v x ∷ job) e q u o b =
      works_one s (post v x) job e refl (ground (arith, u))
  unclosed-Moves s (send_head h ∷ job) e q u o b =
      works_one s (send_head h) job e refl (ground (arith, u))
  unclosed-Moves s (read ∷ job) e q u o b = works_one s read job e refl (ground (arith, u))
  unclosed-Moves s (release k ∷ job) e q u o b =
      works_one s (release k) job e refl (ground (arith, u))

  moves : {job : List (Action J)} (s : Link J) → Inv J job s → Flows s → s.over ≡ false → Moves s
  moves s inv f o = elim (Bool-cases s.closed) [
    | inl closed ↦ closed-Moves s s.job refl (ground (arith, closed, f)) closed o
    | inr unclosed ↦
        unclosed-Moves s s.job refl (ground (arith, unclosed, f)) unclosed o inv.bounded
  ]

  -- Any number of steps.
  pub data Steps : Link J → Link J → Type 0 where
    here : {s : Link J} → Steps s s
    on : {s t u : Link J} → Step J s t → Steps t u → Steps s u

  completes :
      {job : List (Action J)} (bound : ℕ) (s : Link J)
      → Inv J job s
      → Flows s
      → left_to_do s ≤ bound
      → (t : Link J) × Steps s t × (t.over ≡ true) × Inv J job t
  completes {job} zero s inv f less = elim (Bool-cases s.over) [
    | inl over ↦ (s, here, over, inv)
    | inr not_over ↦ absurd (ground (arith, not_over))
  ]
  completes {job} (suc bound) s inv f less = elim (Bool-cases s.over) [
    | inl over ↦ (s, here, over, inv)
    | inr not_over ↦
        let (t, st, f', shorter) = moves s inv f not_over in
        let (u, steps, over, inv') =
          completes bound t (Step-Inv J st inv) f' (omega (arith, shorter, less)) in
        (u, on st steps, over, inv')
  ]

  Step-Flows : {s t : Link J} → Step J s t → Flows s → Flows t
  Step-Flows {s} (sends c rest e u room) f = ground (arith, e, u, f)
  Step-Flows {s} (abandons rest e u) f = ground (arith, e, u, f)
  Step-Flows {s} (closes rest e u) f = ground (arith, e, u, f)
  Step-Flows {s} (works action rest e calm) f =
      ground (arith, e, f, calm, closes_once-quiet J (action ∷ []) rest)
  Step-Flows (takes c rest e o) f = f
  Step-Flows (ends e c o) f = f

  Reach-Flows :
      {job : List (Action J)} {s : Link J} → closes_once J job ≡ true → Reach J job s → Flows s
  Reach-Flows q start = q
  Reach-Flows q (later r st) = Step-Flows st (Reach-Flows q r)

  -- Wherever the channel of a forwarding task stands, the task and a client that reads on have steps
  -- to take until the body ends, and then the body has yielded all that the task's actions make up:
  -- the two never wait for each other.
  pub forward-Streams :
      (client : Client) (outside : Outside J) (url : Text) (body : Json.Value J)
      (hint : Option SlotHint) (a : Admission) {s : Link J}
      → Reach J (forward J client outside url body hint a) s
      → (t : Link J) × Steps s t
        × (t.over ≡ true)
        × (t.received ≡ body_stream J false (forward J client outside url body hint a))
  forward-Streams client outside url body hint a {s} r =
      let flows = Reach-Flows (forward-closes_once J client outside url body hint a) r in
      let (t, steps, over, inv) = completes (left_to_do s) s (Reach-Inv J r) flows (omega arith) in
      (t, steps, over, over_received J inv over)
