-- ===== src/Scheduler/Deadline.antt =====
-- src/scheduler.rs, `admit` over time: one call, with what its rounds find under the lock.
use aivyx_broker.Prelude.{
  ℕ, suc, ◌+◌, ◌≤◌, ◌<◌, ◌≡◌, refl, ap, subst, ◌⊎◌, inl, inr, Option, none, some, arith,
}
use aivyx_broker.Channels.Deadline.{
  Wake, dropped, Outcome, granted, timed_out, retry, Ticks, time, tried_at, before_last, upto_last,
  retry-Ends,
}
use aivyx_broker.Scheduler.{SlotState, SlotHint, Admission, Inner, admit_locked}
use aivyx_broker.Scheduler.Choice.{Fits, Grants, NoneFree}
use aivyx_broker.Scheduler.Slots.{admit_locked_cases}

-- The state that round `r` finds, the channel that it makes, and what becomes of the channel.
module _ (hint : Option SlotHint) (inner : ℕ → Inner) (tx : ℕ → ℕ) (wake : ℕ → Wake) where
  abbrev pub answer : ℕ → ℕ → Option Admission
  answer round now = (admit_locked (inner round) hint (tx round)).1

  unfoldable pub admit : (timeout now : ℕ) → Outcome Admission
  unfolding retry
  admit timeout now = retry answer wake timeout now

  -- In each of the first rounds, every slot that the request may take was busy.
  abbrev pub Refused : ℕ → Type 0
  Refused n = (j : ℕ) → j < n → NoneFree (inner j) hint

  -- An admission in some round, or a timeout after some round.
  abbrev pub AdmittedIn : (deadline : ℕ) → Outcome Admission → Type 0
  AdmittedIn deadline outcome =
      (round now : ℕ) × (a : Admission) × (s : SlotState) × (outcome ≡ granted a now)
      × (now ≤ deadline)
      × Grants (inner round) hint (admit_locked (inner round) hint (tx round)) a s
      × Refused round

  abbrev pub TimedOutBy : (deadline : ℕ) → Outcome Admission → Type 0
  TimedOutBy deadline outcome =
      (round now : ℕ) × (outcome ≡ timed_out now)
      × ((now ≡ deadline) ⊎ ((now ≤ deadline) × (delay : ℕ) × (wake round ≡ dropped delay)))
      × Refused (suc round)

  module _ (fits : (round : ℕ) → Fits (inner round)) where
    refused : (round now : ℕ) → answer round now ≡ none → NoneFree (inner round) hint
    refused round now e = elim (admit_locked_cases (inner round) hint (tx round) (fits round)) [
      | inl (_, busy) ↦ busy
      | inr (a, s, g) ↦ absurd (cc (e, ap (λ r. r.1) g.result))
    ]

    admitted :
        (round now : ℕ) (a : Admission)
        → answer round now ≡ some a
        → (s : SlotState) × Grants
            (inner round)
            hint
            (admit_locked (inner round) hint (tx round))
            a
            s
    admitted round now a e = elim (admit_locked_cases (inner round) hint (tx round) (fits round)) [
      | inl (q, _) ↦ absurd (cc (e, ap (λ r. r.1) q))
      | inr (b, s, g) ↦
          let is : b ≡ a = cc (e, ap (λ r. r.1) g.result) in
          (
            s,
            subst (λ x. Grants (inner round) hint (admit_locked (inner round) hint (tx round)) x s)
                is g,
          )
    ]

    module _ (timeout now : ℕ) where
      -- With at most 2^32 slots in each state that a round finds, and where a wake signal takes time:
      -- a call of `admit` returns by its deadline, however often it is woken in vain. It returns the
      -- admission of its first round that finds a slot, or it times out, at the deadline unless the
      -- sender of its channel was dropped, and then every slot that the request may take was busy in
      -- each of its rounds.
      pub admit-Ends :
          Ticks answer wake
          → AdmittedIn (now + timeout) (admit timeout now)
            ⊎ TimedOutBy (now + timeout) (admit timeout now)
      unfolding admit
      admit-Ends ticks =
          let ends = retry-Ends answer wake timeout now ticks in
          let earlier = before_last answer wake (λ j. NoneFree (inner j) hint) refused ends in
          elim ends.ended [
            | inl (a, e, is) ↦
                let (s, g) =
                  admitted ends.last (time answer wake 0 now ends.last) a
                    (tried_at answer wake now ends.last e) in
                inl
                  (ends.last, time answer wake 0 now ends.last, a, s, is, ends.in_time, g, earlier)
            | inr (inl (e, is)) ↦ inr (
              ends.last,
              now + timeout,
              is,
              inl refl,
              upto_last answer wake (λ j. NoneFree (inner j) hint) refused ends e,
            )
            | inr (inr (delay, e, drops, le, is)) ↦ inr (
              ends.last,
              time answer wake 0 now ends.last + delay,
              is,
              inr (le, delay, subst (λ x. wake x ≡ dropped delay) (omega arith) drops),
              upto_last answer wake (λ j. NoneFree (inner j) hint) refused ends e,
            )
          ]
