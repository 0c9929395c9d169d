-- ===== src/Scheduler/Wake.antt =====
-- src/scheduler.rs, `wake_waiters_for`: who is woken when a slot becomes free.
use aivyx_broker.Prelude.{
  ℕ, ◌≡◌, sym, subst, ◌∙◌, ◌⊎◌, inl, inr, ◌≢◌, Bool, true, false, ◌||◌, none, some, List, [], ◌∷◌,
  ◌++◌, arith, filter, any, get_or, get_elem?, Bool-cases, Option-cases, if◌then◌else◌,
  filter_nil_of_any, modify,
}
use mathlib.Core.List.{append_assoc, append-nil}
use aivyx_broker.Scheduler.{
  SlotState, Inner, drain, wake_waiters_for, release, reconcile_seeded_idle,
}

-- The queue of a slot.
abbrev pub queue : Inner → ℕ → List ℕ
queue inner slot_id = get_or (inner.slot_waiters slot_id) []

module _ (receiving : ℕ → Bool) where
  drain_lem :
      (q : List ℕ) (live : Bool) (woken : List ℕ)
      → drain receiving q live woken ≡ (any receiving q || live, woken ++ filter receiving q)
  unfolding drain any filter
  drain_lem [] live woken = ground (arith, append-nil woken)
  drain_lem (tx ∷ q) live woken = elim (Bool-cases (receiving tx)) [
    | inl up ↦
        rw (up, drain, any, filter)
          (drain_lem q true (woken ++ tx ∷ [])
            ∙ ground (arith, append_assoc woken (tx ∷ []) (filter receiving q)))
    | inr down ↦ rw (down, drain, any, filter) (drain_lem q live woken)
  ]

  module _ (inner : Inner) (slot_id : ℕ) where
    abbrev called : Bool
    called = any receiving (queue inner slot_id)

    -- Freeing a slot empties its own queue. If a receiver there is live, every such receiver is
    -- woken and the global queue stays as it is; otherwise the global queue is emptied and every
    -- live receiver in it is woken. The slots, the clock and the other slots' queues stay.
    pub record Wakes (r : Inner × List ℕ) : Type 0 where
      pub woken : r.1 ≡ (
          if called
          then filter receiving (queue inner slot_id)
          else filter receiving inner.global_waiters)
      pub global : r.0.global_waiters ≡ (if called then inner.global_waiters else [])
      pub own : queue r.0 slot_id ≡ []
      pub others : (j : ℕ) → slot_id ≢ j → queue r.0 j ≡ queue inner j
      pub slots : r.0.slots ≡ inner.slots
      pub clock : r.0.clock ≡ inner.clock

    drained_specific :
        drain receiving (queue inner slot_id) false []
        ≡ (called, filter receiving (queue inner slot_id))
    drained_specific = drain_lem (queue inner slot_id) false [] ∙ ground arith

    wake_waiters_for-Wakes : Wakes (wake_waiters_for receiving inner slot_id)
    unfolding wake_waiters_for
    wake_waiters_for-Wakes = record {
      woken = ground (
        arith,
        drained_specific,
        drain_lem inner.global_waiters false [],
        filter_nil_of_any receiving (queue inner slot_id),
      );
      global = ground (arith, drained_specific);
      own = ground (arith, drained_specific);
      others = λ j h. ground (arith, drained_specific);
      slots = ground arith;
      clock = ground arith;
    }

  -- The slot becomes free, and waiters are woken as above.
  abbrev pub Frees : Inner → ℕ → Inner × List ℕ → Type 0
  Frees inner slot_id =
      Wakes (record inner { slots = modify inner.slots slot_id (λ s. record s { busy = false }) })
        slot_id

  module _ (inner : Inner) (slot_id : ℕ) where
    -- `release` frees a slot that exists, wakes its waiters, and does nothing else.
    pub release_cases :
        ((release receiving inner slot_id ≡ (inner, [])) × (get_elem? inner.slots slot_id ≡ none))
        ⊎ Frees inner slot_id (release receiving inner slot_id)
    unfolding release
    release_cases = elim (Option-cases (get_elem? inner.slots slot_id)) [
      | inl e ↦ inl (rw (e, release), e)
      | inr (s, e) ↦
          inr
            (subst (Frees inner slot_id) (sym (rw (e, release))) (wake_waiters_for-Wakes _ slot_id))
    ]

    -- `reconcile_seeded_idle` does so for a slot that is still marked as seeded, and otherwise
    -- nothing.
    pub reconcile_cases :
        ((reconcile_seeded_idle receiving inner slot_id ≡ (inner, []))
          × ((s : SlotState) → get_elem? inner.slots slot_id ≡ some s → s.seeded_unowned ≡ false))
        ⊎ ((s : SlotState) × (get_elem? inner.slots slot_id ≡ some s)
            × (s.seeded_unowned ≡ true)
            × Frees inner slot_id (reconcile_seeded_idle receiving inner slot_id))
    unfolding reconcile_seeded_idle
    reconcile_cases = elim (Option-cases (get_elem? inner.slots slot_id)) [
      | inl e ↦ inl (rw (e, reconcile_seeded_idle), λ s q. cc)
      | inr (s, e) ↦ elim (Bool-cases s.seeded_unowned) [
        | inl seeded ↦ inr (
          s,
          e,
          seeded,
          subst (Frees inner slot_id) (sym (rw (e, reconcile_seeded_idle, seeded)))
              (wake_waiters_for-Wakes _ slot_id),
        )
        | inr owned ↦ inl (rw (e, reconcile_seeded_idle, owned), λ t q. ground arith)
      ]
    ]
