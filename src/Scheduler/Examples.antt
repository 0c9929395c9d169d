-- ===== src/Scheduler/Examples.antt =====
-- Runs of src/scheduler.rs on small brokers, and the theorems at concrete inputs.
use aivyx_broker.Prelude.{
  ℕ, zero, suc, ◌≡◌, refl, ◌⊎◌, Bool, true, false, Option, none, some, [], arith, modify, filter,
  enumerate_from, find, min_by_key, elem,
}
use aivyx_broker.Scheduler.{
  SlotHint, Admission, default_slot, new, claim, try_admit_locked, admit_locked,
}
use aivyx_broker.Scheduler.Choice.{Decides, try_admit_locked-Decides}
use aivyx_broker.Scheduler.Wake.{queue}
use aivyx_broker.Channels.{open_ended}
use aivyx_broker.Scheduler.System.{
  locking, waiting, holding, gone, System, attempt, finish, reconcile, leave, Step, locks, init,
  Reach, start, later,
}
use aivyx_broker.Scheduler.System.Holding.{busy_at, one_holder_per_slot, no_slot_leaks}
use aivyx_broker.Scheduler.System.Waiting.{no_lost_wakeup}
use aivyx_broker.Scheduler.System.Sharing.{busy_while_anyone_waits}
use aivyx_broker.Scheduler.System.Stranding.{Contended, general_waiter_stranded}

abbrev granted_slot : ℕ → Bool → Admission
granted_slot k ready = record { slot_id = k; cache_ready = ready }

abbrev asks : Option ℕ → Option SlotHint
asks k = some (record { prefix_hash = "p"; preferred_slot = k; model = some "m" })

-- A fresh broker gives out slot 0 first.
first_admission : (try_admit_locked (new 2) none).1 ≡ some (granted_slot 0 false)
unfolding try_admit_locked new modify filter enumerate_from min_by_key claim
first_admission = refl

-- A preference beyond the last slot is no preference.
out_of_range : (try_admit_locked (new 2) (asks (some 99))).1 ≡ some (granted_slot 0 false)
unfolding try_admit_locked new modify filter enumerate_from min_by_key claim find
out_of_range = refl

try_admit_locked-Decides_example :
    Decides (new 2) (asks (some 1)) (try_admit_locked (new 2) (asks (some 1)))
unfolding new
try_admit_locked-Decides_example = try_admit_locked-Decides (new 2) (asks (some 1)) (omega arith)

-- One slot, held by request 0; request 1 waits for it, and request 2 for any slot.
abbrev hints : ℕ → Option SlotHint
hints zero = none
hints (suc zero) = asks (some 0)
hints (suc (suc i)) = none

abbrev one_held : System
one_held = attempt hints (init 1 []) 0

abbrev one_waits : System
one_waits = attempt hints one_held 1

abbrev two_wait : System
two_wait = attempt hints one_waits 2

one_held_reached : Reach hints 1 [] one_held
one_held_reached = later start (locks 0 refl)

one_held_stage : (one_held.stage 0 ≡ holding (granted_slot 0 false)) × (one_held.stage 1 ≡ locking)
unfolding attempt try_admit_locked admit_locked new modify filter enumerate_from min_by_key claim
    find
one_held_stage = (refl, refl)

one_waits_stage :
    (one_waits.stage 1 ≡ waiting 0)
    × (one_waits.channel 0 ≡ open_ended)
    × (one_waits.stage 2 ≡ locking)
unfolding attempt try_admit_locked admit_locked new modify filter enumerate_from min_by_key claim
    find
one_waits_stage = (refl, refl, refl)

one_waits_reached : Reach hints 1 [] one_waits
one_waits_reached = later one_held_reached (locks 1 one_held_stage.1)

one_holder_per_slot_example : (◌≡◌ {A = ℕ} 0 0) × (busy_at one_held.inner.slots 0 ≡ true)
one_holder_per_slot_example =
    one_holder_per_slot (omega arith) one_held_reached 0 0 (granted_slot 0 false)
      (granted_slot 0 false) one_held_stage.0 one_held_stage.0 refl

no_slot_leaks_example :
    ((i : ℕ) × (a : Admission) × (one_held.stage i ≡ holding a)
      × (busy_at (finish one_held i a.slot_id).inner.slots 0 ≡ false))
    ⊎ (busy_at (reconcile one_held 0).inner.slots 0 ≡ false)
unfolding attempt try_admit_locked admit_locked new modify filter enumerate_from min_by_key claim
no_slot_leaks_example = no_slot_leaks (omega arith) one_held_reached 0 refl

no_lost_wakeup_example :
    (elem 0 (queue one_waits.inner 0) ≡ true) × (busy_at one_waits.inner.slots 0 ≡ true)
no_lost_wakeup_example =
    no_lost_wakeup (omega arith) one_waits_reached 1 0 0 one_waits_stage.0 one_waits_stage.1 refl

-- The two steps are those of `general_waiter_stranded`: after them slot 0 is idle and request 2
-- sleeps on.
two_wait-Contended :
    Contended two_wait 0 1 2 0 1
      (granted_slot 0 false)
      (record default_slot { busy = true; last_used = 1 })
unfolding attempt try_admit_locked admit_locked new modify filter enumerate_from min_by_key claim
    find elem
two_wait-Contended = record {
  holds = refl;
  exists = refl;
  specific = refl;
  specific_open = refl;
  specific_queued = refl;
  general = refl;
  general_open = refl;
  general_unqueued = refl;
}

general_waiter_stranded_example :
    let s' = finish two_wait 0 0 in
    let s'' = leave s' 1 0 gone in
    Step hints two_wait s'
    × Step hints s' s''
    × (busy_at s''.inner.slots 0 ≡ false)
    × (s''.stage 2 ≡ waiting 1)
    × (s''.channel 1 ≡ open_ended)
general_waiter_stranded_example =
    general_waiter_stranded hints two_wait 0 1 2 0 1 (granted_slot 0 false)
      (record default_slot { busy = true; last_used = 1 }) two_wait-Contended

abbrev no_hints : ℕ → Option SlotHint
no_hints i = none

abbrev queued : System
queued = attempt no_hints (attempt no_hints (init 1 []) 0) 1

queued_stage :
    ((attempt no_hints (init 1 []) 0).stage 1 ≡ locking)
    × (queued.stage 1 ≡ waiting 0)
    × (queued.channel 0 ≡ open_ended)
unfolding attempt try_admit_locked admit_locked new modify filter enumerate_from min_by_key claim
queued_stage = (refl, refl, refl)

busy_while_anyone_waits_example : busy_at queued.inner.slots 0 ≡ true
busy_while_anyone_waits_example =
    busy_while_anyone_waits {hint = no_hints} {n = 1} (λ i. refl) {processing = []} (omega arith)
      (later (later start (locks 0 refl)) (locks 1 queued_stage.0)) 1 0 queued_stage.1
      queued_stage.2 0 (omega arith)
