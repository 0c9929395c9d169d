-- ===== src/Scheduler/System/Examples.antt =====
-- src/scheduler.rs: the order of admissions on a small broker.
use aivyx_broker.Prelude.{
  ℕ, ◌≡◌, ◌≤◌, refl, false, Option, none, some, [], ◌∷◌, arith, modify, filter, enumerate_from,
  min_by_key, get_elem?,
}
use aivyx_broker.Scheduler.{
  SlotState, SlotHint, Admission, new, claim, try_admit_locked, admit_locked, release,
  wake_waiters_for, drain,
}
use aivyx_broker.Scheduler.System.{locking, holding, System, attempt, finish, locks, finishes, init}
use aivyx_broker.Scheduler.System.History.{last_admission, answer, noted, Run, start, later}
use aivyx_broker.Scheduler.System.LeastRecent.{least_recently_admitted}

-- Nobody hints; requests 0 and 1 take slots 0 and 1 of two, and free them in the other order.
abbrev unhinted : ℕ → Option SlotHint
unhinted i = none

abbrev at_slot : ℕ → Admission
at_slot k = record { slot_id = k; cache_ready = false }

abbrev one_in : System
one_in = attempt unhinted (init 2 []) 0

abbrev two_in : System
two_in = attempt unhinted one_in 1

abbrev one_out : System
one_out = finish two_in 1 1

abbrev both_out : System
both_out = finish one_out 0 0

stages :
    (one_in.stage 1 ≡ locking)
    × (two_in.stage 1 ≡ holding (at_slot 1))
    × (one_out.stage 0 ≡ holding (at_slot 0))
unfolding attempt finish try_admit_locked admit_locked new modify filter enumerate_from min_by_key
    claim release wake_waiters_for drain
stages = (refl, refl, refl)

both_out_run : Run unhinted 2 [] (1 ∷ 0 ∷ []) both_out
unfolding noted attempt try_admit_locked admit_locked new modify filter enumerate_from min_by_key
    claim
both_out_run =
    later
      (later (later (later start (locks 0 refl)) (locks 1 stages.0))
        (finishes 1 (at_slot 1) stages.1))
      (finishes 0 (at_slot 0) stages.2)

abbrev slot_1 : SlotState
slot_1 = record {
  busy = false;
  resident_prefix = none;
  resident_model = none;
  seeded_unowned = false;
  last_used = 2;
}

slot_1_found :
    (get_elem? both_out.inner.slots 1 ≡ some slot_1)
    × (answer unhinted both_out 2 ≡ some (at_slot 0))
unfolding attempt finish try_admit_locked admit_locked new modify filter enumerate_from min_by_key
    claim release wake_waiters_for drain
slot_1_found = (refl, refl)

-- The next request gets slot 0, whose admission was the first.
least_recently_admitted_example : last_admission (1 ∷ 0 ∷ []) 0 ≤ last_admission (1 ∷ 0 ∷ []) 1
least_recently_admitted_example =
    least_recently_admitted (omega arith) both_out_run (omega arith) 2 1 (at_slot 0) slot_1
      slot_1_found.1 refl refl slot_1_found.0 refl
