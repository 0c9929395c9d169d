-- ===== src/GpuLock/Safety/Invariant.antt =====
-- src/gpu_lock.rs: the invariant on leases and waiters, and how it is kept.
use aivyx_broker.Prelude.{
  ℕ, ◌<◌, ◌≡◌, subst, ap, inl, inr, ◌≢◌, true, false, none, some, List, [], ◌∷◌, ◌++◌, arith,
  update, elem, elem-append, elem-filter, elem_last, ℕ-cases,
}
use aivyx_broker.Channels.{open_ended}
use aivyx_broker.GpuLock.{Held, Inner}
use aivyx_broker.GpuLock.Release.{Freed, acquire_free, acquire_held}
use aivyx_broker.GpuLock.System.{
  Stage, locking, waiting, leased, System, receivers, settle, attempt, after_wake, leave,
}

-- Leases are issued once and to one client; and whoever waits unwoken stands in the queue of a
-- lock that is held.
pub record Inv (s : System) : Type 0 where
  pub issued_to : (i l : ℕ) → s.stage i ≡ leased l → elem l s.issued ≡ true
  pub apart : (i j l : ℕ) → s.stage i ≡ leased l → s.stage j ≡ leased l → i ≡ j
  pub held_issued : (h : Held) → s.inner.held ≡ some h → elem h.lease s.issued ≡ true
  pub recent : (i c : ℕ) → s.stage i ≡ waiting c → c < s.next_channel
  pub queued :
      (i c : ℕ)
      → s.stage i ≡ waiting c
      → s.channel c ≡ open_ended
      → (elem c s.inner.waiters ≡ true) × (s.inner.held ≢ none)

module _ {s : System} (inv : Inv s) where
  open inv use {issued_to, apart, held_issued, recent, queued}

  pub moves-Inv :
      (i : ℕ) (p : Stage)
      → ((c : ℕ) → p ≢ waiting c)
      → ((l : ℕ) → p ≢ leased l)
      → Inv (record s { stage = update s.stage i p })
  moves-Inv i p off out = record {
    issued_to = λ j l h. ground (arith, out l, issued_to j l);
    apart = λ j k l h g. ground (arith, out l, apart j k l);
    held_issued = held_issued;
    recent = λ j c h. ground (arith, off c, recent j c);
    queued = λ j c h o. queued j c (ground (arith, off c)) o;
  }

  pub leaves-Inv :
      (i c : ℕ) (p : Stage)
      → ((d : ℕ) → p ≢ waiting d)
      → ((l : ℕ) → p ≢ leased l)
      → Inv (leave s i c p)
  leaves-Inv i c p off out = record {
    issued_to = λ j l h. ground (arith, out l, issued_to j l);
    apart = λ j k l h g. ground (arith, out l, apart j k l);
    held_issued = held_issued;
    recent = λ j d h. ground (arith, off d, recent j d);
    queued = λ j d h o. queued j d (ground (arith, off d)) (ground arith);
  }

  -- The lock is freed, and all live receivers are woken.
  pub Freed-Inv :
      (inner : Inner) (woken : List ℕ)
      → Freed (receivers s) s.inner inner woken
      → Inv (after_wake s inner woken)
  Freed-Inv inner woken f = record {
    issued_to = issued_to;
    apart = apart;
    held_issued = λ h e. cc (f.free, e);
    recent = recent;
    queued = λ i c h o.
        let was : s.channel c ≡ open_ended = ground arith in
        absurd (
          ground
            (arith, f.all_woken, queued i c h was, elem-filter (receivers s) c s.inner.waiters));
  }

  pub grants-Inv :
      (i lease now : ℕ)
      → s.stage i ≡ locking
      → elem lease s.issued ≡ false
      → s.inner.held ≡ none
      → Inv (
          settle s i
            (record s.inner { held = some (record { lease = lease; acquired_at = now }) })
            (some lease))
  unfolding elem
  grants-Inv i lease now at fresh free = record {
    issued_to = λ j l h. ground (arith, issued_to j l);
    apart = λ j k l h g. ground (arith, apart j k l, issued_to j l, issued_to k l);
    held_issued = λ h e. ground arith;
    recent = λ j c h. ground (arith, recent j c);
    queued = λ j c h o. absurd ((queued j c (ground arith) o).1 free);
  }

  pub joins-Inv :
      (i : ℕ) (h : Held)
      → s.inner.held ≡ some h
      → Inv (settle s i (record s.inner { waiters = s.inner.waiters ++ s.next_channel ∷ [] }) none)
  joins-Inv i h held = record {
    issued_to = λ j l g. ground (arith, issued_to j l);
    apart = λ j k l g e. ground (arith, apart j k l);
    held_issued = held_issued;
    recent = λ j c g. ground (arith, recent j c);
    queued = λ j c g o. elim (ℕ-cases i j) [
      | inl same ↦
          let is_new : s.next_channel ≡ c = ground arith in
          (
            subst (λ d. elem d (s.inner.waiters ++ s.next_channel ∷ []) ≡ true) is_new
                (elem_last s.next_channel s.inner.waiters),
            λ e. cc (held, e),
          )
      | inr other ↦
          let waits : s.stage j ≡ waiting c = ground arith in
          let (stands, busy) = queued j c waits (ground (arith, recent j c waits)) in
          (ground (arith, elem-append c s.inner.waiters (s.next_channel ∷ []), stands), busy)
    ];
  }

module _ (s : System) (i lease now : ℕ) where
  abbrev pub holding_now : Inner
  holding_now = record s.inner { held = some (record { lease = lease; acquired_at = now }) }

  pub attempt_free :
      s.inner.held ≡ none → attempt s i lease now ≡ settle s i holding_now (some lease)
  unfolding attempt
  attempt_free e = ap (λ r. settle s i r.0 r.1) (acquire_free s.inner lease now s.next_channel e)

  pub attempt_held :
      (h : Held)
      → s.inner.held ≡ some h
      → attempt s i lease now
        ≡ settle s i (record s.inner { waiters = s.inner.waiters ++ s.next_channel ∷ [] }) none
  unfolding attempt
  attempt_held h e =
      ap (λ r. settle s i r.0 r.1) (acquire_held s.inner lease now s.next_channel h e)
