-- ===== src/Server/VramCache/Flight.antt =====
-- src/server.rs, VramCache: how many probe threads there are, over calls and threads that return.
use aivyx_broker.Prelude.{
  ◌-◌, ◌<◌, ◌⊎◌, ◌∙◌, none, some, filter_option, Option-cases, ltb→lt, ℕ, suc, ◌+◌, ◌≤◌, ◌≡◌, refl,
  ap, sym, subst, Bool, true, false, Option, arith, inl, inr, if◌then◌else◌,
}
use aivyx_broker.Gpu.{Vram}
use aivyx_broker.Server.VramCache.{
  VramReading, is_recent, reading_of, vram_timeout_backoff, VramCache, Outcome, returned, outlasted,
  default, still_out, get, get_stale, drop_in_flight,
}
use aivyx_broker.Server.VramCache.Reuse.{Bounded, get-Bounded, get_cases, filter_option-some}

-- The cache, and the number of threads of earlier calls that still run a probe.
pub record System : Type 0 where
  pub cache : VramCache
  pub threads : ℕ

abbrev pub left_behind : Bool → Outcome → ℕ
left_behind true (outlasted elapsed) = 1
left_behind _ _ = 0

abbrev pub call : System → ℕ → Outcome → System
call s now outcome =
    let (cache, answer, started) = get s.cache now outcome in
    record { cache = cache; threads = s.threads + left_behind started outcome }

-- A call runs to its end, or its client leaves while its probe runs, which then goes on; and a
-- thread left behind returns.
pub data Step : System → System → Type 0 where
  called : (s : System) (now : ℕ) (outcome : Outcome) → Step s (call s now outcome)
  cancelled :
      (s : System)
      → s.cache.in_flight ≡ false
      → Step s (record { cache = record s.cache { in_flight = true }; threads = suc s.threads })
  thread_returned :
      (cache : VramCache) (threads : ℕ)
      → Step
          (record { cache = cache; threads = suc threads })
          (record { cache = drop_in_flight cache; threads = threads })

abbrev pub init : System
init = record { cache = default; threads = 0 }

pub data Reach : System → Type 0 where
  start : Reach init
  step : {s t : System} → Reach s → Step s t → Reach t

-- The flag is set exactly while a thread is out.
abbrev Flagged : System → Type 0
Flagged s = s.threads ≡ (if s.cache.in_flight then 1 else 0)

call-Flagged : (s : System) (now : ℕ) (outcome : Outcome) → Flagged s → Flagged (call s now outcome)
unfolding get get_stale
call-Flagged s now outcome f = elim (get_cases s.cache now outcome) [
  | inl (r, _, _, e) ↦ subst after (sym e) (ground (arith, f, none_left outcome))
  | inr (inl e) ↦ subst after (sym e) (ground (arith, f, none_left outcome))
  | inr (inr (idle, e)) ↦ subst after (sym e) (ground (arith, f, idle, one_left outcome))
]
  where
    after : VramCache × Option Vram × Bool → Type 0
    after (cache, answer, started) =
        s.threads + left_behind started outcome ≡ (if cache.in_flight then 1 else 0)

    none_left : (outcome : Outcome) → left_behind false outcome ≡ 0
    none_left outcome = refl

    one_left : (outcome : Outcome) → left_behind true outcome ≡ (if still_out outcome then 1 else 0)
    one_left (returned elapsed joined) = refl
    one_left (outlasted elapsed) = refl

drop-Flagged :
    (cache : VramCache) (threads : ℕ)
    → Flagged (record { cache = cache; threads = suc threads })
    → Flagged (record { cache = drop_in_flight cache; threads = threads })
drop-Flagged cache threads f = ground (arith, f)

reach-Flagged : {s : System} → Reach s → Flagged s
reach-Flagged start = refl
reach-Flagged (step r (called s now outcome)) = call-Flagged s now outcome (reach-Flagged r)
reach-Flagged (step r (cancelled s idle)) = ground (arith, reach-Flagged r, idle)
reach-Flagged (step r (thread_returned cache threads)) =
    drop-Flagged cache threads (reach-Flagged r)

-- In every reachable state at most one thread of an earlier call still probes the GPU, and a call
-- that starts a probe does so when there is none.
pub single_flight :
    (s : System)
    → Reach s
    → (s.threads ≤ 1)
      × ((now : ℕ) (outcome : Outcome) → (get s.cache now outcome).2 ≡ true → s.threads ≡ 0)
unfolding get get_stale
single_flight s r =
    let f = reach-Flagged r in
    (
      ground (arith, f),
      (λ now outcome started. elim (get_cases s.cache now outcome) [
        | inl (r, _, _, e) ↦ absurd (cc (ap (λ x. x.2) e, started))
        | inr (inl e) ↦ absurd (cc (ap (λ x. x.2) e, started))
        | inr (inr (idle, e)) ↦ ground (arith, f, idle)
      ]),
    )

reach-Bounded : {s : System} → Reach s → Bounded s.cache
reach-Bounded start = λ r e. cc
reach-Bounded (step r (called s now outcome)) = get-Bounded s.cache now outcome (reach-Bounded r)
reach-Bounded (step r (cancelled s idle)) = reach-Bounded r
reach-Bounded (step r (thread_returned cache threads)) = reach-Bounded r

-- Where a memory size that `get` answers comes from: a probe started by this call, which returned
-- before its deadline, or a reading taken less than 30 seconds ago.
abbrev pub Sourced : VramCache → ℕ → Outcome → Vram → Type 0
Sourced cache now outcome v =
    ((elapsed : ℕ) × (outcome ≡ returned elapsed (some (some v))))
    ⊎ ((r : VramReading) × (cache.last ≡ some r) × (r.vram ≡ some v) × (now - r.taken < 30000))

reading_of-returned :
    (now : ℕ) (outcome : Outcome) (v : Vram)
    → (reading_of now outcome).vram ≡ some v
    → (elapsed : ℕ) × (outcome ≡ returned elapsed (some (some v)))
reading_of-returned now (returned elapsed none) v e = absurd (ground (arith, e))
reading_of-returned now (returned elapsed (some none)) v e = absurd (ground (arith, e))
reading_of-returned now (returned elapsed (some (some u))) v e = (elapsed, ground (arith, e))
reading_of-returned now (outlasted elapsed) v e = absurd (ground (arith, e))

-- In every state that calls, calls that are dropped and threads that return can lead to from the
-- empty cache: a memory size that is answered is what a probe started by this call returned in time,
-- or that of a reading taken less than 30 seconds before the call: a reading older than that is
-- never served.
pub get-Sourced :
    (s : System)
    → Reach s
    → (now : ℕ) (outcome : Outcome) (v : Vram) → (get s.cache now outcome).1 ≡ some v
    → Sourced s.cache now outcome v
get-Sourced s reach now outcome v e = elim (get_cases s.cache now outcome) [
  | inl (r, l, f, q) ↦ inr (
    r,
    l,
    sym (ap (λ x. x.1) q) ∙ e,
    omega (arith, reach-Bounded reach r l, ltb→lt (now - r.taken) r.fresh_for f),
  )
  | inr (inl q) ↦ elim (Option-cases (filter_option (is_recent now) s.cache.last)) [
    | inl n ↦ absurd (ground (arith, e, q, n))
    | inr (r, m) ↦
        let (l, f) = filter_option-some (is_recent now) s.cache.last r m in
        inr (r, l, ground (arith, e, q, m), ltb→lt (now - r.taken) vram_timeout_backoff f)
  ]
  | inr (inr (_, q)) ↦ inl (reading_of-returned now outcome v (sym (ap (λ x. x.1) q) ∙ e))
]
