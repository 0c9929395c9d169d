-- ===== src/Broker/Coherence/Jobs.antt =====
-- src/server.rs, forward: what a task's slot holds as the task goes on, beside what the table says.
use aivyx_broker.Prelude.{
  ℕ, ◌≡◌, ◌⊎◌, ◌||◌, Bool, true, false, Option, none, some, List, [], ◌∷◌, ◌++◌, String, Text,
}
use aivyx_broker.Json.{Json}
use aivyx_broker.Scheduler.{SlotHint}
use aivyx_broker.Server.Upstream.{
  Action, restore, warm_up, save, mark_resident, clear_resident, post, send_head, read, send_chunk,
  abandon, close, release, CacheKey, Outside, completions_url, warm_up_body, with_slot,
  was_restored,
}
use aivyx_broker.Broker.Jobs.{Told, Relayed}
use aivyx_broker.Broker.Coherence.{model_id, is_refused}

-- The prefix, with its model, that a slot is known to hold.
abbrev pub Known : Type 0
Known = Option (String × String)

abbrev pub hinted : SlotHint → String × String
hinted h = (h.prefix_hash, model_id h.model)

-- The table's record of the slot is right.
abbrev pub Right : Known → Option String → Option String → Type 0
Right known none model = Unit {0}
Right known (some prefix) model = known ≡ some (prefix, model_id model)

-- The slot holds what the request hints at.
abbrev pub Ready : Option SlotHint → Known → Type 0
Ready none known = Unit {0}
Ready (some h) known = known ≡ some (hinted h)

abbrev pub known_restored : Bool → CacheKey → Known
known_restored true key = some (key.prefix_hash, key.model_id)
known_restored false key = none

abbrev pub known_warmed : Bool → SlotHint → Known
known_warmed true h = none
known_warmed false h = some (hinted h)

abbrev pub known_posted : Bool → Option SlotHint → Known → Known
known_posted true hint known = none
known_posted false none known = none
known_posted false (some h) known = known

pub Right-of_Told :
    (h : SlotHint) (known : Known) (prefix model : Option String)
    → known ≡ some (hinted h)
    → Told (some h) prefix model
    → Right known prefix model
Right-of_Told h known none model e told = tt
Right-of_Told h known (some p) model e (q, m) = cc (e, q, m)

module _ (J : Json) (outside : Outside J) (llama_server_url : Text) (body : Json.Value J)
    (hint : Option SlotHint) (k : ℕ) where
  -- The job of a task on slot `k` calls llama-server only for that slot, saves it only under the
  -- key of what it holds, sends a hinted request only where the slot holds the prefix, and frees the
  -- slot with a record that is right. The last two are not asked for while the slot is `spoiled`.
  abbrev pub Coheres : Bool → Known → Option String → Option String → List (Action J) → Type 0
  Coheres spoiled known prefix model [] = Unit {0}
  Coheres spoiled known prefix model (restore key slot_id ∷ job) =
      (slot_id ≡ k)
      × Coheres spoiled (known_restored (was_restored (outside.restore_into_slot key slot_id)) key)
          prefix model job
  Coheres spoiled known prefix model (warm_up u v ∷ job) =
      (h : SlotHint) × (hint ≡ some h)
      × (u ≡ completions_url J outside llama_server_url)
      × (v ≡ warm_up_body J outside llama_server_url body h k)
      × Coheres (is_refused (outside.answer_warm_up u v) || spoiled)
          (known_warmed (is_refused (outside.answer_warm_up u v)) h) prefix model job
  Coheres spoiled known prefix model (save key slot_id meta ∷ job) =
      (slot_id ≡ k)
      × (known ≡ some (key.prefix_hash, key.model_id))
      × Coheres spoiled known prefix model job
  Coheres spoiled known prefix model (mark_resident slot_id m p ∷ job) =
      Coheres false known (some p) m job
  Coheres spoiled known prefix model (clear_resident slot_id ∷ job) =
      Coheres false known none none job
  Coheres spoiled known prefix model (post u v ∷ job) =
      (u ≡ completions_url J outside llama_server_url)
      × (v ≡ with_slot J outside llama_server_url body k)
      × ((spoiled ≡ true) ⊎ Ready hint known)
      × Coheres spoiled (known_posted spoiled hint known) prefix model job
  Coheres spoiled known prefix model (release slot_id ∷ job) =
      (spoiled ≡ true) ⊎ Right known prefix model
  Coheres spoiled known prefix model (_ ∷ job) = Coheres spoiled known prefix model job

  pub Coheres-Relayed :
      (spoiled : Bool) (known : Known) (prefix model : Option String) (xs ys : List (Action J))
      → Relayed J xs
      → (spoiled ≡ true) ⊎ Right known prefix model
      → Coheres spoiled known prefix model (xs ++ (release k ∷ ys))
  Coheres-Relayed spoiled known prefix model [] ys r o = o
  Coheres-Relayed spoiled known prefix model (send_head h ∷ xs) ys (q, r) o =
      Coheres-Relayed spoiled known prefix model xs ys r o
  Coheres-Relayed spoiled known prefix model (read ∷ xs) ys (q, r) o =
      Coheres-Relayed spoiled known prefix model xs ys r o
  Coheres-Relayed spoiled known prefix model (send_chunk c ∷ xs) ys (q, r) o =
      Coheres-Relayed spoiled known prefix model xs ys r o
  Coheres-Relayed spoiled known prefix model (abandon ∷ xs) ys (q, r) o =
      Coheres-Relayed spoiled known prefix model xs ys r o
  Coheres-Relayed spoiled known prefix model (close ∷ xs) ys (q, r) o =
      Coheres-Relayed spoiled known prefix model xs ys r o
  Coheres-Relayed spoiled known prefix model (restore k' i ∷ xs) ys (q, r) o = absurd (cc)
  Coheres-Relayed spoiled known prefix model (warm_up u v ∷ xs) ys (q, r) o = absurd (cc)
  Coheres-Relayed spoiled known prefix model (save k' i m ∷ xs) ys (q, r) o = absurd (cc)
  Coheres-Relayed spoiled known prefix model (mark_resident i m h ∷ xs) ys (q, r) o = absurd (cc)
  Coheres-Relayed spoiled known prefix model (clear_resident i ∷ xs) ys (q, r) o = absurd (cc)
  Coheres-Relayed spoiled known prefix model (post u v ∷ xs) ys (q, r) o = absurd (cc)
  Coheres-Relayed spoiled known prefix model (release i ∷ xs) ys (q, r) o = absurd (cc)
