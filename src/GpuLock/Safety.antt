-- ===== src/GpuLock/Safety.antt =====
-- src/gpu_lock.rs: one valid lease at a time, no revival of an old one, and nobody asleep beside a
-- free lock, in every reachable state of the system.
pub mod Invariant
use aivyx_broker.Prelude.{ℕ, ◌≡◌, inl, inr, ◌≢◌, true, false, none, arith, elem, Option-cases}
use aivyx_broker.Channels.{open_ended}
use aivyx_broker.GpuLock.Release.{Valid, release_cases, reap_cases}
use aivyx_broker.GpuLock.System.{
  locking, waiting, leased, timed_out, gone, System, receivers, attempt, give_back, reap, init,
  Step, locks, wakes, expires, hangs_up, releases, reaps, Reach, start, later,
}
use aivyx_broker.GpuLock.Safety.Invariant.{
  holding_now, moves-Inv, leaves-Inv, Freed-Inv, grants-Inv, joins-Inv,
}
pub use aivyx_broker.GpuLock.Safety.Invariant.{Inv, attempt_free, attempt_held}

attempt-Inv :
    {s : System} (i lease now : ℕ)
    → s.stage i ≡ locking
    → elem lease s.issued ≡ false
    → Inv s
    → Inv (attempt s i lease now)
attempt-Inv {s} i lease now at fresh inv = elim (Option-cases s.inner.held) [
  | inl free ↦ rw (attempt_free s i lease now free) (grants-Inv inv i lease now at fresh free)
  | inr (h, held) ↦ rw (attempt_held s i lease now h held) (joins-Inv inv i h held)
]

give_back-Inv : {s : System} (lease : ℕ) → Inv s → Inv (give_back s lease)
unfolding give_back elem
give_back-Inv {s} lease inv = elim (release_cases (receivers s) s.inner lease) [
  | inl (_, _, f) ↦ Freed-Inv inv _ _ f
  | inr (_, e) ↦ rw e inv
]

reap-Inv : {s : System} (max_hold now : ℕ) → Inv s → Inv (reap max_hold s now)
unfolding reap elem
reap-Inv {s} max_hold now inv = elim (reap_cases (receivers s) s.inner max_hold now) [
  | inl (_, _, _, f) ↦ Freed-Inv inv _ _ f
  | inr (_, e) ↦ rw e inv
]

init-Inv : Inv init
init-Inv = record {
  issued_to = λ i l h. cc;
  apart = λ i j l h g. cc;
  held_issued = λ h e. cc;
  recent = λ i c h. cc;
  queued = λ i c h o. cc;
}

attempt-dead :
    (s : System) (i fresh now lease : ℕ)
    → elem fresh s.issued ≡ false
    → elem lease s.issued ≡ true
    → ¬ Valid s.inner lease
    → ¬ Valid (attempt s i fresh now).inner lease
attempt-dead s i fresh now lease unused old dead valid = elim (Option-cases s.inner.held) [
  | inl free ↦ issued_twice (rw (attempt_free s i fresh now free) at valid)
  | inr (h, held) ↦ dead (rw (attempt_held s i fresh now h held) at valid)
]
  where
    issued_twice : Valid (holding_now s i fresh now) lease → ⊥
    issued_twice (h, e, p) = ground arith

module _ {max_hold : ℕ} where
  Step-Inv : {s t : System} → Step max_hold s t → Inv s → Inv t
  Step-Inv (locks i lease now at fresh) inv = attempt-Inv i lease now at fresh inv
  Step-Inv (wakes i c e signalled) inv = moves-Inv inv i locking (λ c h. cc) (λ l h. cc)
  Step-Inv (expires i c e waits) inv = leaves-Inv inv i c timed_out (λ c h. cc) (λ l h. cc)
  Step-Inv (hangs_up i c e) inv = leaves-Inv inv i c gone (λ c h. cc) (λ l h. cc)
  Step-Inv (releases lease) inv = give_back-Inv lease inv
  Step-Inv (reaps now) inv = reap-Inv max_hold now inv

  pub Reach-Inv : {s : System} → Reach max_hold s → Inv s
  Reach-Inv start = init-Inv
  Reach-Inv (later r st) = Step-Inv st (Reach-Inv r)

  -- In every reachable state, two clients that were granted leases which are both valid are the
  -- same client.
  pub one_lease_at_a_time :
      {s : System}
      → Reach max_hold s
      → (i j l m : ℕ) → s.stage i ≡ leased l
      → s.stage j ≡ leased m
      → Valid s.inner l
      → Valid s.inner m
      → i ≡ j
  one_lease_at_a_time r i j l m a b (h, e, p) (g, f, q) =
      let same : l ≡ m = cc (e, f, p, q) in (Reach-Inv r).apart i j m (rw same at a) b

  -- In every reachable state, whoever waits and has not been woken stands in the queue, and the
  -- lock is held: its release or its reaping wakes them.
  pub waits_only_while_held :
      {s : System}
      → Reach max_hold s
      → (i c : ℕ) → s.stage i ≡ waiting c
      → s.channel c ≡ open_ended
      → (elem c s.inner.waiters ≡ true) × (s.inner.held ≢ none)
  waits_only_while_held r = (Reach-Inv r).queued

  -- A lease that was issued and no longer holds the lock never holds it again: no step of any
  -- client, of the reaper or of a late release brings it back.
  pub dead_lease_stays_dead :
      {s t : System}
      → Step max_hold s t
      → (lease : ℕ) → elem lease s.issued ≡ true
      → ¬ Valid s.inner lease
      → ¬ Valid t.inner lease
  unfolding give_back reap
  dead_lease_stays_dead {s} (locks i fresh now at unused) lease old dead valid =
      attempt-dead s i fresh now lease unused old dead valid
  dead_lease_stays_dead (wakes i c e signalled) lease old dead valid = dead valid
  dead_lease_stays_dead (expires i c e waits) lease old dead valid = dead valid
  dead_lease_stays_dead (hangs_up i c e) lease old dead valid = dead valid
  dead_lease_stays_dead {s} (releases l) lease old dead valid =
      elim (release_cases (receivers s) s.inner l) [
        | inl (_, _, f) ↦ cc (valid.1, f.free)
        | inr (_, e) ↦ dead (rw e at valid)
      ]
  dead_lease_stays_dead {s} (reaps now) lease old dead valid =
      elim (reap_cases (receivers s) s.inner max_hold now) [
        | inl (_, _, _, f) ↦ cc (valid.1, f.free)
        | inr (_, e) ↦ dead (rw e at valid)
      ]
