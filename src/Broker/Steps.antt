-- ===== src/Broker/Steps.antt =====
-- The composition: runs of many steps, and a slot that somebody waits for becoming free.
use aivyx_broker.Prelude.{
  ℕ, ◌^◌, ◌≤◌, ◌≡◌, ◌≢◌, refl, sym, subst, inl, inr, ◌⊎◌, true, false, List, get_elem?-modify,
  modify, arith, ==_refl,
}
use aivyx_broker.Channels.{Channel, open_ended, sent, closed, is_receiving, signal}
use aivyx_broker.Scheduler.{SlotState}
use aivyx_broker.Scheduler.Slots.{freed_if_seeded, slots-reconcile_seeded_idle}
use aivyx_broker.Scheduler.System.{System, holding, waiting, receivers, reconcile, finish}
use aivyx_broker.Scheduler.System.Holding
use aivyx_broker.Scheduler.System.Holding.{busy_at, seeded_at}
use aivyx_broker.Server.Upstream.{
  Action, restore, warm_up, save, mark_resident, clear_resident, post, send_head, read, send_chunk,
  abandon, close, release,
}
use aivyx_broker.Broker.{
  World, Broker, act, perform, with_scheduler, Step, acts, reconciles, Reach, later,
}
use aivyx_broker.Broker.Refinement.{Reach-Sound}
use aivyx_broker.Broker.Progress.{Runs, done, next, task_ends}

-- Request `i` waits on channel `c`, whose receiver still exists.
abbrev pub Waits : System → ℕ → ℕ → Type 0
Waits s i c = (s.stage i ≡ waiting c) × (is_receiving (s.channel c) ≡ true)

signal-receiving :
    (woken : List ℕ) (channel : ℕ → Channel) (c : ℕ)
    → is_receiving (channel c) ≡ true
    → is_receiving (signal woken channel c) ≡ true
signal-receiving woken channel c r = ground arith

pub receiving_cases :
    (channel : Channel) → is_receiving channel ≡ true → (channel ≡ open_ended) ⊎ (channel ≡ sent)
receiving_cases open_ended r = inl refl
receiving_cases sent r = inr refl
receiving_cases closed r = cc

reconciled_free :
    (slots : List SlotState) (p : ℕ)
    → seeded_at slots p ≡ true
    → busy_at (modify slots p freed_if_seeded) p ≡ false
reconciled_free slots p seeded =
    ground (arith, ==_refl p, get_elem?-modify slots p p freed_if_seeded)

-- Another task's action leaves a waiter waiting.
perform-Waits :
    (w : World) (s : System) (i j c : ℕ) (action : Action w.json)
    → j ≢ i
    → Waits s i c
    → Waits (perform w s j action) i c
unfolding perform finish
perform-Waits w s i j c (release k) other (waits, receives) =
    (ground arith, signal-receiving _ s.channel c receives)
perform-Waits w s i j c (mark_resident k m p) other waits = waits
perform-Waits w s i j c (clear_resident k) other waits = waits
perform-Waits w s i j c (restore k m) other waits = waits
perform-Waits w s i j c (warm_up u v) other waits = waits
perform-Waits w s i j c (save k m d) other waits = waits
perform-Waits w s i j c (post u v) other waits = waits
perform-Waits w s i j c (send_head d) other waits = waits
perform-Waits w s i j c read other waits = waits
perform-Waits w s i j c (send_chunk d) other waits = waits
perform-Waits w s i j c abandon other waits = waits
perform-Waits w s i j c close other waits = waits

module _ {w : World} where
  -- Any number of steps.
  pub data Steps : Broker w → Broker w → Type 0 where
    here : {b : Broker w} → Steps b b
    on : {b c d : Broker w} → Step w b c → Steps c d → Steps b d

  pub Steps-append : {b c d : Broker w} → Steps b c → Steps c d → Steps b d
  Steps-append here more = more
  Steps-append (on st steps) more = on st (Steps-append steps more)

  pub Steps-Reach :
      {n : ℕ} {processing : List ℕ} {b c : Broker w}
      → Steps b c
      → Reach w n processing b
      → Reach w n processing c
  Steps-Reach here r = r
  Steps-Reach (on st steps) r = Steps-Reach steps (later r st)

  Runs-Steps : (j : ℕ) {b c : Broker w} → Runs j b c → Steps b c
  Runs-Steps j done = here
  Runs-Steps j (next action rest e runs) = on (acts j action rest e) (Runs-Steps j runs)

  Runs-Waits :
      (i j c : ℕ) {b d : Broker w}
      → Runs j b d
      → j ≢ i
      → Waits b.scheduler i c
      → Waits d.scheduler i c
  unfolding act
  Runs-Waits i j c done other waits = waits
  Runs-Waits i j c {b} (next action rest e runs) other waits =
      Runs-Waits i j c runs other (perform-Waits w b.scheduler i j c action other waits)

  -- A busy slot can be freed while a waiter waits: whoever holds it can finish, and one that was
  -- found busy at the start can be reconciled.
  pub vacates :
      {n : ℕ} {processing : List ℕ} (b : Broker w) (i c p : ℕ)
      → n ≤ 2 ^ 32
      → Reach w n processing b
      → Waits b.scheduler i c
      → busy_at b.scheduler.inner.slots p ≡ true
      → (d : Broker w) × Steps b d
        × Waits d.scheduler i c
        × (busy_at d.scheduler.inner.slots p ≡ false)
  unfolding reconcile
  vacates b i c p small r (waits, receives) busy =
      elim ((Holding.Reach-Inv small (Reach-Sound w small r).reach).accounted p busy) [
        | inl seeded ↦ (
          with_scheduler w b (reconcile b.scheduler p),
          on (reconciles p) here,
          (waits, signal-receiving _ b.scheduler.channel c receives),
          subst (λ l. busy_at l p ≡ false)
              (sym (slots-reconcile_seeded_idle (receivers b.scheduler) b.scheduler.inner p))
              (reconciled_free b.scheduler.inner.slots p seeded),
        )
        | inr (j, a, h, e) ↦
            let (d, ended) = task_ends small r j a h in
            (
              d,
              Runs-Steps j ended.runs,
              Runs-Waits i j c ended.runs
                  (λ same. cc (subst (λ x. b.scheduler.stage x ≡ holding a) same h, waits))
                  (waits, receives),
              subst (λ k. busy_at d.scheduler.inner.slots k ≡ false) e ended.free,
            )
      ]
