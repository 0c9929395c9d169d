-- ===== src/Channels/Deadline.antt =====
-- The loop that src/scheduler.rs (`admit`) and src/gpu_lock.rs (`acquire`) share: an attempt under the
-- lock, and a wait on a new channel for at most what is left until a deadline that was set once.
use aivyx_broker.Prelude.{
  ℕ, zero, suc, ◌+◌, ◌≤◌, ◌<◌, ◌≡◌, refl, ap, sym, subst, ◌∙◌, ◌⊎◌, inl, inr, Option, none, some,
  leb, if◌then◌else◌, Option-cases, arith, Bool-cases, ℕ-cases,
}

-- What becomes of the channel of a round: a signal some time after the channel was made, the sender
-- dropped some time after, or nothing.
pub data Wake : Type 0 where
  signalled dropped : (delay : ℕ) → Wake
  silent : Wake

pub data Waited : Type 0 where
  again expired : (now : ℕ) → Waited

-- `tokio::time::timeout_at(deadline, rx).await` at a time: the channel is looked at before the
-- deadline, and both a dropped sender and the deadline end the wait with an error.
unfoldable pub timeout_at : ℕ → ℕ → Wake → Waited
timeout_at deadline now wake =
    let limit = if leb now deadline then deadline else now in
    elim wake [
      | signalled delay ↦ if leb (now + delay) limit then again (now + delay) else expired limit
      | dropped delay ↦ expired (if leb (now + delay) limit then now + delay else limit)
      | silent ↦ expired limit
    ]

Wake-cases : (w : Wake) → ((d : ℕ) × (w ≡ signalled d)) ⊎ ((d : ℕ) × (w ≡ dropped d)) ⊎ (w ≡ silent)
Wake-cases (signalled d) = inl (d, refl)
Wake-cases (dropped d) = inr (inl (d, refl))
Wake-cases silent = inr (inr refl)

-- How a call ends, and when.
pub data Outcome {ℓ} (A : Type ℓ) : Type ℓ where
  granted : A → (now : ℕ) → Outcome A
  timed_out : (now : ℕ) → Outcome A
  out_of_fuel : Outcome A

-- The loop, for what the attempt of a round at a time answers and what wakes the round. The time
-- under the lock is not counted.
module _ {ℓ} {A : Type ℓ} (attempt : ℕ → ℕ → Option A) (wake : ℕ → Wake) where
  unfoldable pub rounds : (fuel deadline round now : ℕ) → Outcome A
  unfolding timeout_at
  rounds zero deadline round now = out_of_fuel
  rounds (suc fuel) deadline round now = elim (attempt round now) [
    | some a ↦ granted a now
    | none ↦ elim (timeout_at deadline now (wake round)) [
      | again later ↦ rounds fuel deadline (suc round) later
      | expired later ↦ timed_out later
    ]
  ]

  -- With one round more than the timeout has ticks.
  unfoldable pub retry : (timeout now : ℕ) → Outcome A
  unfolding rounds
  retry timeout now = rounds (suc timeout) (now + timeout) 0 now

  -- Signals take time.
  abbrev pub Ticks : Type 0
  Ticks = (round delay : ℕ) → wake round ≡ signalled delay → 1 ≤ delay

  abbrev delay_of : Wake → ℕ
  delay_of (signalled delay) = delay
  delay_of (dropped delay) = delay
  delay_of silent = 0

  -- When the `k`-th round from a round at a time begins, if it does, and what its attempt answers.
  abbrev pub time : (round now k : ℕ) → ℕ
  time round now zero = now
  time round now (suc k) = time (suc round) (now + delay_of (wake round)) k

  abbrev pub tried : (round now k : ℕ) → Option A
  tried round now zero = attempt round now
  tried round now (suc k) = tried (suc round) (now + delay_of (wake round)) k

  -- How the call ends in its last round: with what the attempt gave, at the deadline, or when the
  -- sender of the round's channel was dropped.
  abbrev pub Last : (deadline round now last : ℕ) → Outcome A → Type ℓ
  Last deadline round now last outcome =
      ((a : A) × (tried round now last ≡ some a) × (outcome ≡ granted a (time round now last)))
      ⊎ ((tried round now last ≡ none) × (outcome ≡ timed_out deadline))
      ⊎ ((delay : ℕ) × (tried round now last ≡ none)
          × (wake (round + last) ≡ dropped delay)
          × (time round now last + delay ≤ deadline)
          × (outcome ≡ timed_out (time round now last + delay)))

  pub record Ends (deadline round now : ℕ) (outcome : Outcome A) : Type ℓ where
    pub last : ℕ
    pub in_time : time round now last ≤ deadline
    pub earlier : (j : ℕ) → j < last → tried round now j ≡ none
    pub ended : Last deadline round now last outcome

  later-Ends :
      (deadline round now : ℕ) {outcome : Outcome A}
      → attempt round now ≡ none
      → Ends deadline (suc round) (now + delay_of (wake round)) outcome
      → Ends deadline round now outcome
  later-Ends deadline round now fails ends = record {
    last = suc ends.last;
    in_time = ends.in_time;
    earlier = λ j h. before j h;
    ended = elim ends.ended [
      | inl done ↦ inl done
      | inr (inl late) ↦ inr (inl late)
      | inr (inr (delay, n, e, le, is)) ↦ inr (inr (delay, n, ap wake shift ∙ e, le, is))
    ];
  }
    where
      shift : round + suc ends.last ≡ suc round + ends.last
      shift = omega arith

      before : (j : ℕ) → j < suc ends.last → tried round now j ≡ none
      before zero h = fails
      before (suc j) h = ends.earlier j (omega arith)

  first-Ends :
      (deadline round now : ℕ) {outcome : Outcome A}
      → now ≤ deadline
      → Last deadline round now 0 outcome
      → Ends deadline round now outcome
  first-Ends deadline round now le ended = record {
    last = 0;
    in_time = le;
    earlier = λ j h. absurd (omega arith);
    ended = ended;
  }

  rounds-Ends :
      (fuel deadline round now : ℕ)
      → Ticks
      → now ≤ deadline
      → deadline < now + fuel
      → Ends deadline round now (rounds fuel deadline round now)
  unfolding rounds timeout_at
  rounds-Ends zero deadline round now ticks le enough = absurd (omega arith)
  rounds-Ends (suc fuel) deadline round now ticks le enough =
      elim (Option-cases (attempt round now)) [
        | inr (a, e) ↦ first-Ends deadline round now le (inl (a, e, ground (arith, e)))
        | inl n ↦ elim (Wake-cases (wake round)) [
          | inl (delay, e) ↦ elim (Bool-cases (leb (now + delay) deadline)) [
            | inl soon ↦
                let on : Ends deadline (suc round) (now + delay)
                    (rounds fuel deadline (suc round) (now + delay)) =
                  rounds-Ends fuel deadline (suc round) (now + delay) ticks (ground (arith, soon))
                    (omega (arith, ticks round delay e)) in
                subst (Ends deadline round now) (ground (arith, n, e, soon)) (
                  later-Ends deadline round now n (
                    subst
                      (λ w.
                        Ends deadline (suc round) (now + delay_of w)
                          (rounds fuel deadline (suc round) (now + delay)))
                      (sym e) on))
            | inr late ↦
                first-Ends deadline round now le (inr (inl (n, ground (arith, n, e, late))))
          ]
          | inr (inl (delay, e)) ↦ elim (Bool-cases (leb (now + delay) deadline)) [
            | inl soon ↦ first-Ends deadline round now le (
                inr (
                  inr (
                    delay,
                    n,
                    subst (λ x. wake x ≡ dropped delay) (omega arith) e,
                    ground (arith, soon),
                    ground (arith, n, e, soon),
                  )))
            | inr late ↦
                first-Ends deadline round now le (inr (inl (n, ground (arith, n, e, late))))
          ]
          | inr (inr e) ↦ first-Ends deadline round now le (inr (inl (n, ground (arith, n, e))))
        ]
      ]

  tried_lem : (round now k : ℕ) → tried round now k ≡ attempt (round + k) (time round now k)
  tried_lem round now zero = ap (λ x. attempt x now) (omega arith)
  tried_lem round now (suc k) =
      tried_lem (suc round) (now + delay_of (wake round)) k
      ∙ ap (λ x. attempt x (time round now (suc k))) (omega arith)

  -- Where signals take time, the loop ends by its deadline, however often it is woken: in one round
  -- more than the timeout has ticks, the fuel does not run out.
  pub retry-Ends : (timeout now : ℕ) → Ticks → Ends (now + timeout) 0 now (retry timeout now)
  unfolding retry
  retry-Ends timeout now ticks =
      rounds-Ends (suc timeout) (now + timeout) 0 now ticks (omega arith) (omega arith)

  pub tried_at : (now k : ℕ) {x : Option A} → tried 0 now k ≡ x → attempt k (time 0 now k) ≡ x
  tried_at now k e = ap (λ j. attempt j (time 0 now k)) (omega arith) ∙ sym (tried_lem 0 now k) ∙ e

  -- What a failed attempt tells of its round holds of the rounds before the last, and of the last if
  -- it failed too.
  module _ {κ} (P : ℕ → Type κ) (fails : (round now : ℕ) → attempt round now ≡ none → P round)
      {deadline now : ℕ} {outcome : Outcome A} (ends : Ends deadline 0 now outcome) where
    pub before_last : (j : ℕ) → j < ends.last → P j
    before_last j h = fails j (time 0 now j) (tried_at now j (ends.earlier j h))

    pub upto_last : tried 0 now ends.last ≡ none → (j : ℕ) → j < suc ends.last → P j
    upto_last e j h = elim (ℕ-cases ends.last j) [
      | inl same ↦ subst P same (fails ends.last (time 0 now ends.last) (tried_at now ends.last e))
      | inr other ↦ before_last j (omega arith)
    ]
