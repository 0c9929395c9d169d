-- ===== src/Gpu/Deadline.antt =====
-- src/gpu.rs, run_with_deadline: a command that is polled until it ends, or killed. Times are in
-- milliseconds of one monotonic clock.
use aivyx_broker.Prelude.{
  ℕ, zero, suc, ◌+◌, ◌*◌, ◌/◌, ◌≤◌, ◌<◌, ◌≡◌, refl, Bool, true, false, Option, none, some, ltb,
  if◌then◌else◌, ◌>>=◌, Text, arith, Bool-cases, ◌⊎◌, inl, inr, ap, sym, subst, ◌∙◌, ℕ-cases,
  ltb→lt,
}

abbrev pub nvidia_smi_timeout : ℕ
nvidia_smi_timeout = 2000

abbrev pub poll_interval : ℕ
poll_interval = 20

-- The answer of `try_wait`: the command has exited, with success or not, still runs, or its state
-- cannot be told.
pub data Wait : Type 0 where
  exited : Bool → Wait
  running unknown : Wait

-- How the loop ends.
pub data Polled : Type 0 where
  ended : Bool → Polled
  killed : Polled

-- The answers of the i-th poll, and the time at which the loop compares it with the deadline.
module _ (try_wait : ℕ → Wait) (now : ℕ → ℕ) (deadline : ℕ) where
  -- The loop from the i-th poll on, for at most as many polls as the fuel.
  unfoldable pub poll : ℕ → ℕ → Option Polled
  poll zero i = none
  poll (suc fuel) i =
      let rest = poll fuel (suc i) in
      elim (try_wait i) [
        | exited success ↦ some (ended success)
        | unknown ↦ some killed
        | running ↦ if ltb (now i) deadline then rest else some killed
      ]

-- What is left of the command: its output, if the loop ended by its success and the output can be
-- read.
abbrev pub output_of : Option Text → Polled → Option Text
output_of stdout (ended true) = stdout
output_of stdout (ended false) = none
output_of stdout killed = none

abbrev pub enough_polls : ℕ → ℕ
enough_polls timeout = timeout / poll_interval + 2

-- `run_with_deadline` for a command that starts at `started`, if it can be started: the answer, or
-- none if the polls do not suffice.
unfoldable pub run_with_deadline :
    Bool → (ℕ → Wait) → (ℕ → ℕ) → ℕ → ℕ → Option Text → Option (Option Text)
unfolding poll
run_with_deadline false try_wait now started timeout stdout = some none
run_with_deadline true try_wait now started timeout stdout =
    poll try_wait now (started + timeout) (enough_polls timeout) 0 >>= λ polled.
    some (output_of stdout polled)

module _ (try_wait : ℕ → Wait) (now : ℕ → ℕ) (started timeout : ℕ) where
  -- Each poll but the first comes after a sleep of the poll interval.
  abbrev pub Sleeps : Type 0
  Sleeps = (i : ℕ) → started + poll_interval * i ≤ now i

  -- What the j-th poll, where the loop ends, has found.
  pub data Last (j : ℕ) : Polled → Type 0 where
    at_exit : (success : Bool) → try_wait j ≡ exited success → Last j (ended success)
    at_error : try_wait j ≡ unknown → Last j killed
    at_deadline : try_wait j ≡ running → started + timeout ≤ now j → Last j killed

  -- From the i-th poll on, the command runs before the deadline until the j-th poll ends the loop.
  pub record Ends (i : ℕ) (p : Polled) : Type 0 where
    pub last : ℕ
    pub later : i ≤ last
    pub until : (k : ℕ) → i ≤ k → k < last → (try_wait k ≡ running) × (now k < started + timeout)
    pub why : Last last p

  abbrev pub here : (i : ℕ) (p : Polled) → Last i p → Ends i p
  here i p w = record {
    last = i;
    later = omega arith;
    until = λ k a b. absurd (omega arith);
    why = w;
  }

  abbrev pub further :
      (i : ℕ) (p : Polled)
      → try_wait i ≡ running
      → now i < started + timeout
      → Ends (suc i) p
      → Ends i p
  further i p r b e = record {
    last = e.last;
    later = omega (arith, e.later);
    until = λ k a c. elim (ℕ-cases k i) [
      | inl q ↦ (ap try_wait q ∙ r, subst (λ x. now x < started + timeout) (sym q) b)
      | inr n ↦ e.until k (omega (arith, n)) c
    ];
    why = e.why;
  }

  Wait-cases : (w : Wait) → ((b : Bool) × (w ≡ exited b)) ⊎ (w ≡ unknown) ⊎ (w ≡ running)
  Wait-cases (exited b) = inl (b, refl)
  Wait-cases unknown = inr (inl refl)
  Wait-cases running = inr (inr refl)

  poll-Ends :
      Sleeps
      → (fuel i : ℕ) → timeout + poll_interval ≤ poll_interval * (fuel + i)
      → 0 < fuel
      → (p : Polled) × (poll try_wait now (started + timeout) fuel i ≡ some p) × Ends i p
  unfolding poll
  poll-Ends sleeps zero i enough more = absurd (omega arith)
  poll-Ends sleeps (suc fuel) i enough more = elim (Wait-cases (try_wait i)) [
    | inl (b, e) ↦ (ended b, ground (arith, e), here i (ended b) (at_exit b e))
    | inr (inl e) ↦ (killed, ground (arith, e), here i killed (at_error e))
    | inr (inr e) ↦ elim (Bool-cases (ltb (now i) (started + timeout))) [
      | inr late ↦
          (killed, ground (arith, e, late), here i killed (at_deadline e (ground (arith, late))))
      | inl early ↦
          let before : now i < started + timeout = ltb→lt (now i) (started + timeout) early in
          let (p, q, ends) =
            poll-Ends sleeps fuel (suc i) (omega (arith, enough))
              (omega (arith, enough, before, sleeps i)) in
          (p, ground (arith, e, early, q), further i p e before ends)
    ]
  ]

  -- The loop ends within its polls, whatever the command does: the command's exit, an error, or the
  -- first poll past the deadline ends it, with the command running before the deadline until then;
  -- and there is an output only if the command exited with success.
  pub run_with_deadline-Ends :
      (stdout : Option Text)
      → Sleeps
      → (p : Polled) × (run_with_deadline true try_wait now started timeout stdout
          ≡ some (output_of stdout p))
        × Ends 0 p
  unfolding run_with_deadline
  run_with_deadline-Ends stdout sleeps =
      let (p, e, ends) = poll-Ends sleeps (enough_polls timeout) 0 (omega arith) (omega arith) in
      (p, ground (arith, e), ends)
