-- ===== src/Scheduler/Runs.antt =====
-- Runs of src/scheduler.rs on the slot table, and the theorems on residency and deadlines at
-- concrete inputs.
use aivyx_broker.Prelude.{
  ℕ, zero, suc, ◌⊎◌, ◌≡◌, refl, Bool, true, false, none, some, [], ◌∷◌, arith, modify, filter,
  enumerate_from, min_by_key,
}
use aivyx_broker.Scheduler.{
  SlotHint, Admission, Inner, new, seed_busy, mark_resident, claim, try_admit_locked, snapshot,
  admit_locked,
}
use aivyx_broker.Channels.Deadline.{Wake, signalled, Ticks, granted, retry, rounds, timeout_at}
use aivyx_broker.Scheduler.Choice.{Fits}
use aivyx_broker.Scheduler.Deadline.{answer, admit, AdmittedIn, TimedOutBy, admit-Ends}

abbrev at_slot : ℕ → Bool → Admission
at_slot k ready = record { slot_id = k; cache_ready = ready }

abbrev hint_m : SlotHint
hint_m = record { prefix_hash = "p"; preferred_slot = none; model = some "m" }

abbrev nobody : ℕ → Bool
nobody c = false

snapshot_of_two :
    snapshot (mark_resident (seed_busy (new 2) 1) 0 (some "m") "p")
    ≡ record { slot_id = 0; busy = false; resident_prefix = some "p"; resident_model = some "m" }
      ∷ record { slot_id = 1; busy = true; resident_prefix = none; resident_model = none }
      ∷ []
unfolding snapshot mark_resident seed_busy new modify enumerate_from
snapshot_of_two = refl

-- The only slot is busy; the call is woken after 3 ticks, when another request has taken the slot
-- again, and after 4 more, when it is free.
abbrev one_busy : Inner
one_busy = claim (new 1) 0

abbrev found : ℕ → Inner
found zero = one_busy
found (suc zero) = one_busy
found (suc (suc round)) = new 1

abbrev woken : ℕ → Wake
woken zero = signalled 3
woken round = signalled 4

abbrev channel : ℕ → ℕ
channel round = round

found-Fits : (round : ℕ) → Fits (found round)
unfolding claim new modify
found-Fits zero = omega arith
found-Fits (suc zero) = omega arith
found-Fits (suc (suc round)) = omega arith

woken-Ticks : Ticks (answer none found channel woken) woken
woken-Ticks zero delay e = ground (arith, e)
woken-Ticks (suc round) delay e = ground (arith, e)

admitted_late : admit none found channel woken 10 100 ≡ granted (at_slot 0 false) 107
unfolding admit retry rounds timeout_at try_admit_locked admit_locked new modify filter
    enumerate_from min_by_key claim
admitted_late = refl

admit-Ends_example :
    AdmittedIn none found channel woken 110 (admit none found channel woken 10 100)
    ⊎ TimedOutBy none found channel woken 110 (admit none found channel woken 10 100)
admit-Ends_example = admit-Ends none found channel woken found-Fits 10 100 woken-Ticks
