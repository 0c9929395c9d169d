-- ===== src/Broker/Jobs.antt =====
-- src/server.rs, forward: what the rest of a task still owes the scheduler, and what the scheduler's
-- table says of the task's slot as the task goes on.
use aivyx_broker.Prelude.{
  ℕ, ◌≡◌, Bool, true, false, Option, none, some, List, [], ◌∷◌, ◌++◌, String, All,
}
use aivyx_broker.Json.{Json}
use aivyx_broker.Scheduler.{SlotHint}
use aivyx_broker.Server.Upstream.{
  Action, restore, warm_up, save, mark_resident, clear_resident, post, send_head, read, send_chunk,
  abandon, close, release,
}

-- The table's record of a slot is right for a request: it names the hinted prefix and model, or no
-- prefix for a request without a hint.
abbrev pub Told : Option SlotHint → Option String → Option String → Type 0
Told none prefix model = prefix ≡ none
Told (some h) prefix model = (prefix ≡ some h.prefix_hash) × (model ≡ h.model)

module _ (J : Json) where
  -- Actions that concern the client, or llama-server's answer.
  abbrev pub is_relayed : Action J → Bool
  is_relayed (send_head h) = true
  is_relayed read = true
  is_relayed (send_chunk c) = true
  is_relayed abandon = true
  is_relayed close = true
  is_relayed _ = false

  abbrev pub Relayed : List (Action J) → Type 0
  Relayed = All (λ action. is_relayed action ≡ true)

  -- All that the job may still do is to end the client's body.
  abbrev pub Aloof : List (Action J) → Type 0
  Aloof [] = Unit {0}
  Aloof (close ∷ job) = Aloof job
  Aloof (_ ∷ job) = ⊥

  -- The job frees slot `k` once, records only what that slot holds, and only before it frees it.
  abbrev pub Owes : ℕ → List (Action J) → Type 0
  Owes k [] = ⊥
  Owes k (mark_resident slot_id model prefix ∷ job) = (slot_id ≡ k) × Owes k job
  Owes k (clear_resident slot_id ∷ job) = (slot_id ≡ k) × Owes k job
  Owes k (release slot_id ∷ job) = (slot_id ≡ k) × Aloof job
  Owes k (_ ∷ job) = Owes k job

  -- Where the table says that the slot holds a prefix of a model, and only the job changes this,
  -- each request that the job sends finds the table right.
  abbrev pub Truthful : Option SlotHint → Option String → Option String → List (Action J) → Type 0
  Truthful hint prefix model [] = Unit {0}
  Truthful hint prefix model (mark_resident slot_id m p ∷ job) = Truthful hint (some p) m job
  Truthful hint prefix model (clear_resident slot_id ∷ job) = Truthful hint none none job
  Truthful hint prefix model (post url body ∷ job) =
      Told hint prefix model × Truthful hint prefix model job
  Truthful hint prefix model (_ ∷ job) = Truthful hint prefix model job

  pub Owes-Relayed : (k : ℕ) (xs ys : List (Action J)) → Relayed xs → Owes k ys → Owes k (xs ++ ys)
  Owes-Relayed k [] ys r o = o
  Owes-Relayed k (send_head h ∷ xs) ys (q, r) o = Owes-Relayed k xs ys r o
  Owes-Relayed k (read ∷ xs) ys (q, r) o = Owes-Relayed k xs ys r o
  Owes-Relayed k (send_chunk c ∷ xs) ys (q, r) o = Owes-Relayed k xs ys r o
  Owes-Relayed k (abandon ∷ xs) ys (q, r) o = Owes-Relayed k xs ys r o
  Owes-Relayed k (close ∷ xs) ys (q, r) o = Owes-Relayed k xs ys r o
  Owes-Relayed k (restore k' i ∷ xs) ys (q, r) o = absurd (cc)
  Owes-Relayed k (warm_up u v ∷ xs) ys (q, r) o = absurd (cc)
  Owes-Relayed k (save k' i m ∷ xs) ys (q, r) o = absurd (cc)
  Owes-Relayed k (mark_resident i m h ∷ xs) ys (q, r) o = absurd (cc)
  Owes-Relayed k (clear_resident i ∷ xs) ys (q, r) o = absurd (cc)
  Owes-Relayed k (post u v ∷ xs) ys (q, r) o = absurd (cc)
  Owes-Relayed k (release i ∷ xs) ys (q, r) o = absurd (cc)

  pub Truthful-Relayed :
      (hint : Option SlotHint) (prefix model : Option String) (xs ys : List (Action J))
      → Relayed xs
      → Truthful hint prefix model ys
      → Truthful hint prefix model (xs ++ ys)
  Truthful-Relayed hint prefix model [] ys r o = o
  Truthful-Relayed hint prefix model (send_head h ∷ xs) ys (q, r) o =
      Truthful-Relayed hint prefix model xs ys r o
  Truthful-Relayed hint prefix model (read ∷ xs) ys (q, r) o =
      Truthful-Relayed hint prefix model xs ys r o
  Truthful-Relayed hint prefix model (send_chunk c ∷ xs) ys (q, r) o =
      Truthful-Relayed hint prefix model xs ys r o
  Truthful-Relayed hint prefix model (abandon ∷ xs) ys (q, r) o =
      Truthful-Relayed hint prefix model xs ys r o
  Truthful-Relayed hint prefix model (close ∷ xs) ys (q, r) o =
      Truthful-Relayed hint prefix model xs ys r o
  Truthful-Relayed hint prefix model (restore k' i ∷ xs) ys (q, r) o = absurd (cc)
  Truthful-Relayed hint prefix model (warm_up u v ∷ xs) ys (q, r) o = absurd (cc)
  Truthful-Relayed hint prefix model (save k' i m ∷ xs) ys (q, r) o = absurd (cc)
  Truthful-Relayed hint prefix model (mark_resident i m h ∷ xs) ys (q, r) o = absurd (cc)
  Truthful-Relayed hint prefix model (clear_resident i ∷ xs) ys (q, r) o = absurd (cc)
  Truthful-Relayed hint prefix model (post u v ∷ xs) ys (q, r) o = absurd (cc)
  Truthful-Relayed hint prefix model (release i ∷ xs) ys (q, r) o = absurd (cc)
