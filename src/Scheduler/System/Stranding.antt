-- ===== src/Scheduler/System/Stranding.antt =====
-- src/scheduler.rs, `wake_waiters_for`: a request that takes any slot can be left asleep beside an
-- idle one, when the request that was woken in its stead goes away before it retries.
use aivyx_broker.Prelude.{
  ℕ, ◌≡◌, subst, inl, inr, ◌≢◌, true, false, Option, some, arith, get_elem?, get_elem?-modify, elem,
  elem-filter, any_of_elem,
}
use aivyx_broker.Scheduler.{SlotState, SlotHint, Admission}
use aivyx_broker.Scheduler.Wake.{queue, release_cases}
use aivyx_broker.Channels.{open_ended}
use aivyx_broker.Scheduler.System.{
  waiting, holding, gone, System, receivers, finish, leave, Step, hangs_up, finishes,
}
use aivyx_broker.Scheduler.System.Holding.{busy_at}

-- A slot is held; one request is queued for it, and another one for any slot.
pub record Contended (s : System) (h i g c d : ℕ) (a : Admission) (t : SlotState) : Type 0 where
  pub holds : s.stage h ≡ holding a
  pub exists : get_elem? s.inner.slots a.slot_id ≡ some t
  pub specific : s.stage i ≡ waiting c
  pub specific_open : s.channel c ≡ open_ended
  pub specific_queued : elem c (queue s.inner a.slot_id) ≡ true
  pub general : s.stage g ≡ waiting d
  pub general_open : s.channel d ≡ open_ended
  pub general_unqueued : elem d (queue s.inner a.slot_id) ≡ false

-- Whenever one request is queued for a held slot and another for any slot, the following two
-- steps are possible: the holder ends, and the client of the queued request hangs up. After them
-- the slot is idle, and the other request still waits, unwoken.
pub general_waiter_stranded :
    (hint : ℕ → Option SlotHint) (s : System) (h i g c d : ℕ) (a : Admission) (t : SlotState)
    → Contended s h i g c d a t
    → let s' = finish s h a.slot_id in
      let s'' = leave s' i c gone in
      Step hint s s'
      × Step hint s' s''
      × (busy_at s''.inner.slots a.slot_id ≡ false)
      × (s''.stage g ≡ waiting d)
      × (s''.channel d ≡ open_ended)
unfolding finish
general_waiter_stranded hint s h i g c d a t k =
    elim (release_cases (receivers s) s.inner a.slot_id) [
      | inl (_, missing) ↦ cc (k.exists, missing)
      | inr f ↦ (
        finishes h a k.holds,
        hangs_up i c (ground arith),
        rw f.slots (
            ground (
              arith,
              get_elem?-modify s.inner.slots a.slot_id a.slot_id (λ u. record u { busy = false }),
            )),
        ground (arith, apart),
        ground (
          arith,
          apart,
          f.woken,
          any_of_elem (receivers s) c (queue s.inner a.slot_id),
          elem-filter (receivers s) d (queue s.inner a.slot_id),
        ),
      )
    ]
  where
    apart : c ≢ d
    apart e = cc (
      subst (λ x. elem x (queue s.inner a.slot_id) ≡ true) e k.specific_queued,
      k.general_unqueued,
    )
