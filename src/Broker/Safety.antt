-- ===== src/Broker/Safety.antt =====
-- The composition: requests are sent with a table that is right.
use aivyx_broker.Prelude.{ℕ, ◌^◌, ◌≤◌, ◌≡◌, subst, inl, inr, some, List, ◌∷◌, Text, get_elem?}
use aivyx_broker.Json.{Json}
use aivyx_broker.Scheduler.{SlotState, Admission}
use aivyx_broker.Scheduler.System.{holding}
use aivyx_broker.Scheduler.System.Holding
use aivyx_broker.Scheduler.System.Holding.{busy_at}
use aivyx_broker.Server.Upstream.{Action, post}
use aivyx_broker.Broker.Jobs.{Told, Aloof, Truthful}
use aivyx_broker.Broker.{World, Broker, hint, Reach}
use aivyx_broker.Broker.Invariant.{Stage-cases}
use aivyx_broker.Broker.Invariant.Acts.{found_held}
use aivyx_broker.Broker.Refinement.{Reach-Sound}

module _ {w : World} {n : ℕ} {processing : List ℕ} (small : n ≤ 2 ^ 32) where
  module _ {b : Broker w} (r : Reach w n processing b) where
    held : Holding.Inv b.scheduler.inner.slots b.scheduler.stage
    held = Holding.Reach-Inv small (Reach-Sound w small r).reach

  -- In every reachable state of a broker with at most 2^32 slots in which a task is about to send its
  -- request to llama-server, the task holds a slot, and the table says of that slot what the request
  -- needs: the hinted prefix and the request's model, or no prefix for a request without a hint,
  -- whatever other tasks did since the admission.
  pub post-Told :
      {b : Broker w}
      → Reach w n processing b
      → (i : ℕ) (url : Text) (body : Json.Value w.json) (rest : List (Action w.json))
      → b.job i ≡ post url body ∷ rest
      → (a : Admission) × (s : SlotState) × (b.scheduler.stage i ≡ holding a)
        × (get_elem? b.scheduler.inner.slots a.slot_id ≡ some s)
        × Told (hint w i) s.resident_prefix s.resident_model
  post-Told {b} r i url body rest e =
      let task = (Reach-Sound w small r).tasks i in
      elim (Stage-cases (b.scheduler.stage i)) [
        | inr idle ↦ absurd (subst (Aloof w.json) e (task.aloof idle))
        | inl (a, h) ↦
            let (s, found) = found_held (held r) i a h in
            (
              a,
              s,
              h,
              found,
              (subst (Truthful w.json (hint w i) s.resident_prefix s.resident_model) e
                  (task.truthful a s h found)).0,
            )
      ]
