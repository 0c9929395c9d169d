-- ===== src/Server/VramCache/Reuse.antt =====
-- src/server.rs, VramCache: how old an answer can be, and when the GPU is left alone.
use aivyx_broker.Prelude.{
  ℕ, ◌+◌, ◌-◌, ◌≤◌, ◌<◌, ◌≡◌, ap, sym, subst, ◌>>=◌, Bool, true, false, Option, none, some,
  filter_option, arith, Option-cases, Bool-cases, inl, inr, ◌⊎◌, lt→ltb,
}
use aivyx_broker.Server.VramCache.{
  VramReading, VramCache, Outcome, returned, outlasted, still_out, is_fresh, is_recent, reading_of,
  get, get_stale, vram_timeout_backoff,
}

-- Every reading stays fresh for the short time or for the long one.
abbrev pub Bounded : VramCache → Type 0
Bounded cache = (r : VramReading) → cache.last ≡ some r → r.fresh_for ≤ vram_timeout_backoff

reading_of-Bounded :
    (now : ℕ) (outcome : Outcome) → (reading_of now outcome).fresh_for ≤ vram_timeout_backoff
reading_of-Bounded now (returned elapsed joined) = ground arith
reading_of-Bounded now (outlasted elapsed) = omega arith

pub filter_option-some :
    (p : VramReading → Bool) (o : Option VramReading) (r : VramReading)
    → filter_option p o ≡ some r
    → (o ≡ some r) × (p r ≡ true)
filter_option-some p none r e = absurd cc
filter_option-some p (some a) r e = elim (Bool-cases (p a)) [
  | inl t ↦
      let same : a ≡ r = ground (arith, e, t) in (ap some same, subst (λ x. p x ≡ true) same t)
  | inr f ↦ absurd (ground (arith, e, f))
]

-- The three ways of a call: a fresh reading is answered, a probe that is still out keeps the call
-- from starting another, or a probe is started.
pub get_cases :
    (cache : VramCache) (now : ℕ) (outcome : Outcome)
    → ((r : VramReading) × (cache.last ≡ some r)
        × (is_fresh now r ≡ true)
        × (get cache now outcome ≡ (cache, r.vram, false)))
      ⊎ (get cache now outcome
          ≡ (cache, filter_option (is_recent now) cache.last >>= λ r. r.vram, false))
      ⊎ (cache.in_flight ≡ false)
        × (get cache now outcome ≡ (
          record { last = some (reading_of now outcome); in_flight = still_out outcome },
          (reading_of now outcome).vram,
          true,
        ))
unfolding get get_stale
get_cases cache now outcome = elim (Option-cases (filter_option (is_fresh now) cache.last)) [
  | inr (r, e) ↦
      let (found, fresh) = filter_option-some (is_fresh now) cache.last r e in
      inl (r, found, fresh, ground (arith, e))
  | inl n ↦ elim (Bool-cases cache.in_flight) [
    | inl t ↦ inr (inl (ground (arith, n, t)))
    | inr f ↦ inr (inr (f, ground (arith, n, f)))
  ]
]

pub get-Bounded :
    (cache : VramCache) (now : ℕ) (outcome : Outcome)
    → Bounded cache
    → Bounded (get cache now outcome).0
get-Bounded cache now outcome b = elim (get_cases cache now outcome) [
  | inl (r, _, _, e) ↦ subst (λ x. Bounded x.0) (sym e) b
  | inr (inl e) ↦ subst (λ x. Bounded x.0) (sym e) b
  | inr (inr (_, e)) ↦
      subst (λ x. Bounded x.0) (sym e) (λ r q. ground (arith, q, reading_of-Bounded now outcome))
]

-- After a probe outlasted its deadline, no call starts another one until the backoff time has
-- passed, even if the probe's thread has returned by then.
pub get-backoff :
    (cache : VramCache) (now elapsed later : ℕ) (outcome : Outcome) (flag : Bool)
    → (get cache now (outlasted elapsed)).2 ≡ true
    → later < now + elapsed + vram_timeout_backoff
    → (get (record (get cache now (outlasted elapsed)).0 { in_flight = flag }) later outcome).2
      ≡ false
unfolding get get_stale
get-backoff cache now elapsed later outcome flag started soon =
    elim (get_cases cache now (outlasted elapsed)) [
      | inl (r, _, _, q) ↦ absurd (cc (ap (λ x. x.2) q, started))
      | inr (inl q) ↦ absurd (cc (ap (λ x. x.2) q, started))
      | inr (inr (_, q)) ↦
          subst (λ x. (get (record x.0 { in_flight = flag }) later outcome).2 ≡ false) (sym q)
            (ground
              (arith, lt→ltb (later - (now + elapsed)) vram_timeout_backoff (omega (arith, soon))))
    ]
