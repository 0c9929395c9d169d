-- ===== src/Scheduler/System/Waiting/Invariant.antt =====
-- src/scheduler.rs: the invariant on who stands in which queue, and how it is kept.
use aivyx_broker.Prelude.{
  ℕ, ◌<◌, ◌≡◌, subst, ap, ◌∙◌, ◌⊎◌, inl, inr, ◌≢◌, Bool, true, false, Option, none, some, List, [],
  ◌∷◌, arith, length, get_elem?, modify, update, any, ℕ-cases, Option-cases, length-modify,
  get_of_lt-length, ltb, elem, elem-append, elem-filter, elem_last, any_of_elem, filter_option,
  ◌>>=◌,
}
use aivyx_broker.Scheduler.{SlotState, SlotHint, Inner, enqueue, usable_preference}
use aivyx_broker.Scheduler.Slots.{slots-enqueue}
use aivyx_broker.Scheduler.Wake.{queue, Frees}
use aivyx_broker.Channels.{open_ended}
use aivyx_broker.Scheduler.System.{Stage, waiting, System, receivers, after_wake, settle, leave}
use aivyx_broker.Scheduler.System.Holding.{busy_at, busy_at-modify, busy_at-modify_ne}

-- The slot that request `i` insists on, of `n` slots.
abbrev pub wants : ℕ → Option SlotHint → Option ℕ
wants n hint = filter_option (λ k. ltb k n) (hint >>= λ h. h.preferred_slot)

pub wants-lt : (n : ℕ) (hint : Option SlotHint) {p : ℕ} → wants n hint ≡ some p → p < n
wants-lt n none e = cc
wants-lt n (some h) {p} e = elim (Option-cases h.preferred_slot) [
  | inl q ↦ ground (arith, q)
  | inr (k, q) ↦ ground (arith, q)
]

-- A request whose channel is still open stands in a queue: in its slot's own if it insists on a
-- slot, which is then busy, and in the global one otherwise.
pub record Queued (hint : ℕ → Option SlotHint) (n : ℕ) (s : System) : Type 0 where
  pub size : length s.inner.slots ≡ n
  pub recent : (i c : ℕ) → s.stage i ≡ waiting c → c < s.next_channel
  pub specific :
      (i c p : ℕ)
      → s.stage i ≡ waiting c
      → s.channel c ≡ open_ended
      → wants n (hint i) ≡ some p
      → (elem c (queue s.inner p) ≡ true) × (busy_at s.inner.slots p ≡ true)
  pub general :
      (i c : ℕ)
      → s.stage i ≡ waiting c
      → s.channel c ≡ open_ended
      → wants n (hint i) ≡ none
      → elem c s.inner.global_waiters ≡ true

-- A new channel joins the queue that its request belongs to, and the queues lose nothing.
enqueue-keeps :
    (inner : Inner) (hint : Option SlotHint) (tx d k : ℕ)
    → elem d (queue inner k) ≡ true
    → elem d (queue (enqueue inner hint tx) k) ≡ true
unfolding enqueue
enqueue-keeps inner hint tx d k h = ground (arith, elem-append d (queue inner k) (tx ∷ []))

enqueue-keeps_global :
    (inner : Inner) (hint : Option SlotHint) (tx d : ℕ)
    → elem d inner.global_waiters ≡ true
    → elem d (enqueue inner hint tx).global_waiters ≡ true
unfolding enqueue
enqueue-keeps_global inner hint tx d h =
    ground (arith, elem-append d inner.global_waiters (tx ∷ []))

enqueue-joins :
    (inner : Inner) (hint : Option SlotHint) (tx p : ℕ)
    → usable_preference inner hint ≡ some p
    → elem tx (queue (enqueue inner hint tx) p) ≡ true
unfolding enqueue
enqueue-joins inner hint tx p e = rw (e, enqueue) (ground (arith, elem_last tx (queue inner p)))

enqueue-joins_global :
    (inner : Inner) (hint : Option SlotHint) (tx : ℕ)
    → usable_preference inner hint ≡ none
    → elem tx (enqueue inner hint tx).global_waiters ≡ true
unfolding enqueue
enqueue-joins_global inner hint tx e = rw (e, enqueue) (elem_last tx inner.global_waiters)

module _ {hint : ℕ → Option SlotHint} {n : ℕ} {s : System} (q : Queued hint n s) where
  open q use {size, recent, specific, general}

  pub wants_lem : (i : ℕ) → usable_preference s.inner (hint i) ≡ wants n (hint i)
  wants_lem i = ap (λ m. wants m (hint i)) size

  -- The request goes on without waiting, and no other is concerned.
  pub moves-Queued :
      (i : ℕ) (p : Stage)
      → ((c : ℕ) → p ≢ waiting c)
      → Queued hint n (record s { stage = update s.stage i p })
  moves-Queued i p now = record {
    size = size;
    recent = λ j c h. ground (arith, now c, recent j c);
    specific = λ j c k h o w. ground (arith, now c, specific j c k);
    general = λ j c h o w. ground (arith, now c, general j c);
  }

  pub leaves-Queued :
      (i c : ℕ) (p : Stage) → ((d : ℕ) → p ≢ waiting d) → Queued hint n (leave s i c p)
  leaves-Queued i c p now = record {
    size = size;
    recent = λ j d h. ground (arith, now d, recent j d);
    specific = λ j d k h o w. ground (arith, now d, specific j d k);
    general = λ j d h o w. ground (arith, now d, general j d);
  }

  -- The table changes, and busy slots stay busy.
  pub table-Queued :
      (k : ℕ) (f : SlotState → SlotState) (clock : ℕ)
      → ((t : SlotState) → t.busy ≡ true → (f t).busy ≡ true)
      → Queued hint n
          (record s { inner = record s.inner { slots = modify s.inner.slots k f; clock = clock } })
  table-Queued k f clock keeps = record {
    size = rw length-modify size;
    recent = recent;
    specific = λ j c p h o w.
        let (stands, busy) = specific j c p h o w in
        (stands, busy_at-modify s.inner.slots k f p keeps busy);
    general = general;
  }

  -- A request finds nothing free, and joins a queue on a new channel.
  pub joins-Queued :
      (i : ℕ)
      → ((k : ℕ) (t : SlotState)
          → get_elem? s.inner.slots k ≡ some t
          → (usable_preference s.inner (hint i) ≡ none)
            ⊎ (usable_preference s.inner (hint i) ≡ some k)
          → t.busy ≡ true)
      → Queued hint n (settle s i (enqueue s.inner (hint i) s.next_channel) none)
  joins-Queued i taken = record {
    size = rw slots-enqueue size;
    recent = λ j c h. ground (arith, recent j c);
    specific = λ j c p h o w. elim (ℕ-cases i j) [
      | inl same ↦
          let w' : wants n (hint i) ≡ some p = rw same w in
          let (t, e) =
            get_of_lt-length s.inner.slots p (omega (arith, size, wants-lt n (hint i) w')) in
          let joined = enqueue-joins s.inner (hint i) s.next_channel p (wants_lem i ∙ w') in
          let is_new : s.next_channel ≡ c = ground arith in
          (
            subst (λ d. elem d (queue (enqueue s.inner (hint i) s.next_channel) p) ≡ true) is_new
                joined,
            rw slots-enqueue (ground (arith, taken p t e (inr (wants_lem i ∙ w')))),
          )
      | inr other ↦
          let waits : s.stage j ≡ waiting c = ground arith in
          let (stands, busy) = specific j c p waits (ground (arith, recent j c waits)) w in
          (enqueue-keeps s.inner (hint i) s.next_channel c p stands, rw slots-enqueue busy)
    ];
    general = λ j c h o w. elim (ℕ-cases i j) [
      | inl same ↦
          let w' : wants n (hint i) ≡ none = rw same w in
          let joined = enqueue-joins_global s.inner (hint i) s.next_channel (wants_lem i ∙ w') in
          let is_new : s.next_channel ≡ c = ground arith in
          subst (λ d. elem d (enqueue s.inner (hint i) s.next_channel).global_waiters ≡ true) is_new
            joined
      | inr other ↦
          let waits : s.stage j ≡ waiting c = ground arith in
          enqueue-keeps_global s.inner (hint i) s.next_channel c
            (general j c waits (ground (arith, recent j c waits)) w)
    ];
  }

  -- A slot becomes free: all that were in its queue, or else in the global one, are woken.
  module _ (k : ℕ) (r : Inner × List ℕ) (f : Frees (receivers s) s.inner k r) where
    abbrev called : Bool
    called = any (receivers s) (queue s.inner k)

    unwoken :
        (c : ℕ)
        → (after_wake s r).channel c ≡ open_ended
        → (elem c r.1 ≡ false) × (s.channel c ≡ open_ended)
    unwoken c o = ground arith

    not_own :
        (c : ℕ) → (after_wake s r).channel c ≡ open_ended → elem c (queue s.inner k) ≡ true → ⊥
    not_own c o stands = ground (
      arith,
      unwoken c o,
      f.woken,
      any_of_elem (receivers s) c (queue s.inner k) stands,
      elem-filter (receivers s) c (queue s.inner k),
    )

    global_stays :
        (c : ℕ)
        → (after_wake s r).channel c ≡ open_ended
        → elem c s.inner.global_waiters ≡ true
        → elem c r.0.global_waiters ≡ true
    global_stays c o stands =
        ground (
          arith,
          unwoken c o,
          f.woken,
          f.global,
          elem-filter (receivers s) c s.inner.global_waiters,
        )

    pub Frees-Queued : Queued hint n (after_wake s r)
    Frees-Queued = record {
      size = rw f.slots (rw length-modify size);
      recent = recent;
      specific = λ i c p h o w.
          let (stands, busy) = specific i c p h (unwoken c o).1 w in
          elim (ℕ-cases k p) [
            | inl same ↦ absurd (not_own c o (rw same stands))
            | inr other ↦ (
              rw (f.others p other) stands,
              rw f.slots (rw (busy_at-modify_ne s.inner.slots k _ p other) busy),
            )
          ];
      general = λ i c h o w. global_stays c o (general i c h (unwoken c o).1 w);
    }
