-- ===== src/Server/Relay/Unwinding.antt =====
-- src/server.rs, forward and ReleaseGuard: a task that panics.
use aivyx_broker.Prelude.{
  ◌≡◌, refl, Bool, true, false, List, [], ◌∷◌, ◌++◌, filter, inl, inr, Bool-cases,
}
use aivyx_broker.Json.{Json}
use aivyx_broker.Server.Upstream.{
  Action, restore, warm_up, save, mark_resident, clear_resident, post, send_head, read, send_chunk,
  abandon, close, release,
}
use aivyx_broker.Server.Relay.Release.{is_release, filter-append}

module _ (J : Json) where
  abbrev pub is_close : Action J → Bool
  is_close close = true
  is_close _ = false

  -- What a task that panics still does, of the actions that are left to it: unwinding drops its local
  -- variables, the sender of the client's chunks among them, and then its parameters, of which the
  -- guard is one, unless the task has dropped them itself.
  unfoldable pub unwound : List (Action J) → List (Action J)
  unwound job = filter is_close job ++ filter (is_release J) job

  filter-filter :
      (p : Action J → Bool) (xs : List (Action J)) → filter p (filter p xs) ≡ filter p xs
  unfolding filter
  filter-filter p [] = refl
  filter-filter p (x ∷ xs) = elim (Bool-cases (p x)) [
    | inl hit ↦ rw (hit, filter) (rw (hit, filter-filter p xs) refl)
    | inr miss ↦ rw (miss, filter) (filter-filter p xs)
  ]

  closes-release_nothing : (xs : List (Action J)) → filter (is_release J) (filter is_close xs) ≡ []
  unfolding filter
  closes-release_nothing [] = refl
  closes-release_nothing (restore k' m ∷ xs) = closes-release_nothing xs
  closes-release_nothing (warm_up u v ∷ xs) = closes-release_nothing xs
  closes-release_nothing (save k' m d ∷ xs) = closes-release_nothing xs
  closes-release_nothing (mark_resident i m p ∷ xs) = closes-release_nothing xs
  closes-release_nothing (clear_resident i ∷ xs) = closes-release_nothing xs
  closes-release_nothing (post u v ∷ xs) = closes-release_nothing xs
  closes-release_nothing (send_head d ∷ xs) = closes-release_nothing xs
  closes-release_nothing (read ∷ xs) = closes-release_nothing xs
  closes-release_nothing (send_chunk d ∷ xs) = closes-release_nothing xs
  closes-release_nothing (abandon ∷ xs) = closes-release_nothing xs
  closes-release_nothing (close ∷ xs) = closes-release_nothing xs
  closes-release_nothing (release i ∷ xs) = closes-release_nothing xs

  -- Unwinding releases what the task had still to release.
  pub unwound-release :
      (job : List (Action J)) → filter (is_release J) (unwound job) ≡ filter (is_release J) job
  unfolding unwound
  unwound-release job =
      rw
        (
          filter-append J (is_release J) (filter is_close job) (filter (is_release J) job),
          closes-release_nothing job,
          filter-filter (is_release J) job,
        )
        refl
