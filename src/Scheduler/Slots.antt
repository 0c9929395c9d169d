-- ===== src/Scheduler/Slots.antt =====
-- src/scheduler.rs: what each operation does to the slot table, with the queues left out.
use aivyx_broker.Prelude.{
  ℕ, ◌≡◌, sym, ◌∙◌, ◌⊎◌, inl, inr, Bool, false, Option, none, arith, get_elem?, modify, Bool-cases,
  Option-cases, modify-none, modify-same, modify-id, if◌then◌else◌,
}
use aivyx_broker.Scheduler.{
  SlotState, SlotHint, Admission, Inner, admit_locked, enqueue, wake_waiters_for, release,
  reconcile_seeded_idle,
}
use aivyx_broker.Scheduler.Choice.{Fits, Grants, NoneFree, try_admit_locked-Decides}

abbrev pub freed : SlotState → SlotState
freed s = record s { busy = false }

abbrev pub freed_if_seeded : SlotState → SlotState
freed_if_seeded s = if s.seeded_unowned then record s { busy = false } else s

pub slots-wake_waiters_for :
    (receiving : ℕ → Bool) (inner : Inner) (slot_id : ℕ)
    → (wake_waiters_for receiving inner slot_id).0.slots ≡ inner.slots
unfolding wake_waiters_for
slots-wake_waiters_for receiving inner slot_id = ground arith

module _ (receiving : ℕ → Bool) (inner : Inner) (slot_id : ℕ) where
  pub slots-release : (release receiving inner slot_id).0.slots ≡ modify inner.slots slot_id freed
  unfolding release
  slots-release = elim (Option-cases (get_elem? inner.slots slot_id)) [
    | inl e ↦ rw (e, release) (sym (modify-none inner.slots slot_id freed e))
    | inr (s, e) ↦ rw (e, release) (slots-wake_waiters_for receiving _ slot_id)
  ]

  pub slots-reconcile_seeded_idle :
      (reconcile_seeded_idle receiving inner slot_id).0.slots
      ≡ modify inner.slots slot_id freed_if_seeded
  unfolding reconcile_seeded_idle
  slots-reconcile_seeded_idle = elim (Option-cases (get_elem? inner.slots slot_id)) [
    | inl e ↦
        rw (e, reconcile_seeded_idle) (sym (modify-none inner.slots slot_id freed_if_seeded e))
    | inr (s, e) ↦ elim (Bool-cases s.seeded_unowned) [
      | inl seeded ↦
          rw (e, reconcile_seeded_idle, seeded)
            (slots-wake_waiters_for receiving _ slot_id
              ∙ modify-same inner.slots slot_id freed freed_if_seeded e (rw seeded))
      | inr owned ↦
          rw (e, reconcile_seeded_idle, owned)
            (sym (
              modify-same inner.slots slot_id freed_if_seeded (λ t. t) e (rw owned)
              ∙ modify-id inner.slots slot_id))
    ]
  ]

pub slots-enqueue :
    (inner : Inner) (hint : Option SlotHint) (tx : ℕ) → (enqueue inner hint tx).slots ≡ inner.slots
unfolding enqueue
slots-enqueue inner hint tx = ground arith

-- What one locked round of `admit` does: it claims an idle slot, or it changes no slot.
pub admit_locked_cases :
    (inner : Inner) (hint : Option SlotHint) (tx : ℕ)
    → Fits inner
    → ((admit_locked inner hint tx ≡ (enqueue inner hint tx, none)) × NoneFree inner hint)
      ⊎ ((a : Admission) × (s : SlotState) × Grants inner hint (admit_locked inner hint tx) a s)
unfolding admit_locked
admit_locked_cases inner hint tx fits = elim (try_admit_locked-Decides inner hint fits) [
  | inl (e, busy) ↦ inl (rw (e, admit_locked) (rw e), busy)
  | inr (a, s, g) ↦ inr (
    a,
    s,
    record {
      found = g.found;
      idle = g.idle;
      result = rw (g.result, admit_locked) (rw g.result);
      ready = g.ready;
      holds = g.holds;
      reason = g.reason;
    },
  )
]
