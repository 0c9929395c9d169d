-- ===== src/Server/Chat/Channel.antt =====
-- src/server.rs, chat_completions and forward: the bounded channel between the task and the body of
-- the response. The task and the client's side take steps in any order.
use aivyx_broker.Prelude.{
  ℕ, ◌<◌, ◌≡◌, Bool, true, false, List, [], ◌∷◌, ◌++◌, String, Text, Result, length, if◌then◌else◌,
}
use aivyx_broker.Json.{Json}
use aivyx_broker.Server.Upstream.{Action, send_chunk, abandon, close}
use aivyx_broker.Server.Chat.{broken, body_stream}

-- `FORWARD_CHANNEL_CHUNKS`
abbrev pub forward_channel_chunks : ℕ
forward_channel_chunks = 16

module _ (J : Json) where
  -- What the task has still to do, the channel's buffer, the flag, whether the sender is dropped, the
  -- items that the body has yielded, and whether it has ended.
  pub record Link : Type 0 where
    pub job : List (Action J)
    pub buffer : List (Result Text String)
    pub abandoned : Bool
    pub closed : Bool
    pub received : List (Result Text String)
    pub over : Bool

  abbrev pub opened : List (Action J) → Link
  opened job = record {
    job = job;
    buffer = [];
    abandoned = false;
    closed = false;
    received = [];
    over = false;
  }

  -- The action concerns the channel.
  abbrev pub is_chunk : Action J → Bool
  is_chunk (send_chunk c) = true
  is_chunk abandon = true
  is_chunk close = true
  is_chunk _ = false

  abbrev pub last_item : Bool → List (Result Text String)
  last_item abandoned = if abandoned then broken ∷ [] else []

  -- A send waits for room in the buffer. The body ends when the channel is empty and its sender
  -- dropped, with an error if the flag is set by then.
  pub data Step (s : Link) : Link → Type 0 where
    sends :
        (c : Result Text String) (rest : List (Action J))
        → s.job ≡ send_chunk c ∷ rest
        → s.closed ≡ false
        → length s.buffer < forward_channel_chunks
        → Step s (record s { job = rest; buffer = s.buffer ++ c ∷ [] })
    abandons :
        (rest : List (Action J))
        → s.job ≡ abandon ∷ rest
        → s.closed ≡ false
        → Step s (record s { job = rest; abandoned = true })
    closes :
        (rest : List (Action J))
        → s.job ≡ close ∷ rest
        → s.closed ≡ false
        → Step s (record s { job = rest; closed = true })
    works :
        (action : Action J) (rest : List (Action J))
        → s.job ≡ action ∷ rest
        → is_chunk action ≡ false
        → Step s (record s { job = rest })
    takes :
        (c : Result Text String) (rest : List (Result Text String))
        → s.buffer ≡ c ∷ rest
        → s.over ≡ false
        → Step s (record s { buffer = rest; received = s.received ++ c ∷ [] })
    ends :
        s.buffer ≡ []
        → s.closed ≡ true
        → s.over ≡ false
        → Step s (record s { received = s.received ++ last_item s.abandoned; over = true })

  pub data Reach (job : List (Action J)) : Link → Type 0 where
    start : Reach job (opened job)
    later : {s t : Link} → Reach job s → Step s t → Reach job t

  -- What the body has still to yield.
  abbrev pub unread : Link → List (Result Text String)
  unread s =
      s.buffer ++ (if s.closed then last_item s.abandoned else body_stream J s.abandoned s.job)

  abbrev pub pending : Link → List (Result Text String)
  pending s = if s.over then [] else unread s
