-- ===== src/Broker/Unwinding.antt =====
-- src/server.rs, ReleaseGuard: a task that panics still frees its slot, and does nothing else that the
-- scheduler sees.
use aivyx_broker.Prelude.{
  ℕ, ◌≡◌, refl, ap, sym, subst, true, Option, String, List, [], ◌∷◌, ◌++◌, filter, All-map,
  All-filter, All,
}
use aivyx_broker.Json.{Json}
use aivyx_broker.Scheduler.{SlotHint}
use aivyx_broker.Server.Upstream.{
  Action, restore, warm_up, save, mark_resident, clear_resident, post, send_head, read, send_chunk,
  abandon, close, release,
}
use aivyx_broker.Server.Relay.Release.{is_release}
use aivyx_broker.Server.Relay.Unwinding.{is_close, unwound}
use aivyx_broker.Broker.Jobs.{
  is_relayed, Relayed, Aloof, Owes, Truthful, Owes-Relayed, Truthful-Relayed,
}

module _ (J : Json) where
  closes_relayed : (x : Action J) → is_close J x ≡ true → is_relayed J x ≡ true
  closes_relayed (restore k' m) e = absurd (cc)
  closes_relayed (warm_up u v) e = absurd (cc)
  closes_relayed (save k' m d) e = absurd (cc)
  closes_relayed (mark_resident i m p) e = absurd (cc)
  closes_relayed (clear_resident i) e = absurd (cc)
  closes_relayed (post u v) e = absurd (cc)
  closes_relayed (send_head d) e = absurd (cc)
  closes_relayed read e = absurd (cc)
  closes_relayed (send_chunk d) e = absurd (cc)
  closes_relayed abandon e = absurd (cc)
  closes_relayed close e = refl
  closes_relayed (release i) e = absurd (cc)

  pub closes-Relayed : (job : List (Action J)) → Relayed J (filter (is_close J) job)
  closes-Relayed job =
      All-map (λ x h. closes_relayed x h.1) (filter (is_close J) job)
        (All-filter (λ x. Unit {0}) (is_close J) job (anything job))
    where
      anything : (xs : List (Action J)) → All (λ x. Unit {0}) xs
      anything [] = tt
      anything (x ∷ xs) = (tt, anything xs)

  -- A task that owes nothing any more does the same if it panics.
  pub unwound-Aloof : (job : List (Action J)) → Aloof J job → unwound J job ≡ job
  unfolding unwound filter
  unwound-Aloof [] q = refl
  unwound-Aloof (restore k' m ∷ job) q = absurd q
  unwound-Aloof (warm_up u v ∷ job) q = absurd q
  unwound-Aloof (save k' m d ∷ job) q = absurd q
  unwound-Aloof (mark_resident i m p ∷ job) q = absurd q
  unwound-Aloof (clear_resident i ∷ job) q = absurd q
  unwound-Aloof (post u v ∷ job) q = absurd q
  unwound-Aloof (send_head d ∷ job) q = absurd q
  unwound-Aloof (read ∷ job) q = absurd q
  unwound-Aloof (send_chunk d ∷ job) q = absurd q
  unwound-Aloof (abandon ∷ job) q = absurd q
  unwound-Aloof (close ∷ job) q = ap (◌∷◌ close) (unwound-Aloof job q)
  unwound-Aloof (release i ∷ job) q = absurd q

  Aloof-release_nothing : (job : List (Action J)) → Aloof J job → filter (is_release J) job ≡ []
  unfolding filter
  Aloof-release_nothing [] q = refl
  Aloof-release_nothing (restore k' m ∷ job) q = absurd q
  Aloof-release_nothing (warm_up u v ∷ job) q = absurd q
  Aloof-release_nothing (save k' m d ∷ job) q = absurd q
  Aloof-release_nothing (mark_resident i m p ∷ job) q = absurd q
  Aloof-release_nothing (clear_resident i ∷ job) q = absurd q
  Aloof-release_nothing (post u v ∷ job) q = absurd q
  Aloof-release_nothing (send_head d ∷ job) q = absurd q
  Aloof-release_nothing (read ∷ job) q = absurd q
  Aloof-release_nothing (send_chunk d ∷ job) q = absurd q
  Aloof-release_nothing (abandon ∷ job) q = absurd q
  Aloof-release_nothing (close ∷ job) q = Aloof-release_nothing job q
  Aloof-release_nothing (release i ∷ job) q = absurd q

  Owes-release :
      (k : ℕ) (job : List (Action J)) → Owes J k job → filter (is_release J) job ≡ release k ∷ []
  unfolding filter
  Owes-release k [] o = absurd o
  Owes-release k (restore k' m ∷ job) o = Owes-release k job o
  Owes-release k (warm_up u v ∷ job) o = Owes-release k job o
  Owes-release k (save k' m d ∷ job) o = Owes-release k job o
  Owes-release k (mark_resident i m p ∷ job) (e, o) = Owes-release k job o
  Owes-release k (clear_resident i ∷ job) (e, o) = Owes-release k job o
  Owes-release k (post u v ∷ job) o = Owes-release k job o
  Owes-release k (send_head d ∷ job) o = Owes-release k job o
  Owes-release k (read ∷ job) o = Owes-release k job o
  Owes-release k (send_chunk d ∷ job) o = Owes-release k job o
  Owes-release k (abandon ∷ job) o = Owes-release k job o
  Owes-release k (close ∷ job) o = Owes-release k job o
  Owes-release k (release i ∷ job) (e, q) = rw (e, Aloof-release_nothing job q) refl

  pub unwound_lem :
      (k : ℕ) (job : List (Action J))
      → Owes J k job
      → unwound J job ≡ filter (is_close J) job ++ (release k ∷ [])
  unfolding unwound
  unwound_lem k job o = ap (λ xs. filter (is_close J) job ++ xs) (Owes-release k job o)

  pub unwound-Owes : (k : ℕ) (job : List (Action J)) → Owes J k job → Owes J k (unwound J job)
  unwound-Owes k job o =
      subst (Owes J k) (sym (unwound_lem k job o)) (
        Owes-Relayed J k (filter (is_close J) job) (release k ∷ []) (closes-Relayed job) (refl, tt))

  pub unwound-Truthful :
      (k : ℕ) (hint : Option SlotHint) (prefix model : Option String) (job : List (Action J))
      → Owes J k job
      → Truthful J hint prefix model (unwound J job)
  unwound-Truthful k hint prefix model job o =
      subst (Truthful J hint prefix model) (sym (unwound_lem k job o)) (
        Truthful-Relayed J hint prefix model (filter (is_close J) job) (release k ∷ [])
          (closes-Relayed job) tt)
