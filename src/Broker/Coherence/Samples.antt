-- ===== src/Broker/Coherence/Samples.antt =====
-- src/scheduler.rs with src/server.rs: a llama-server whose slots hold what they were last given.
use aivyx_broker.Prelude.{
  if◌then◌else◌, Bool-cases, inl, inr, ℕ, ◌≡◌, ◌≢◌, ◌⊎◌, refl, ap, ◌∙◌, Option, none, some, false,
  String, Text, update, update_self, update_ne, map_option,
}
use aivyx_broker.Json.Tree.{Tree, number, tree_json, get, is_object, get-no_object}
use aivyx_broker.Scheduler.{SlotHint}
use aivyx_broker.Server.Upstream.{was_restored, Outside}
use aivyx_broker.Broker.{hint}
use aivyx_broker.Broker.Samples.{world_of}
use aivyx_broker.Broker.Coherence.{LlamaServer, Documented, Asks, named_model, model_id}

abbrev Contents : Type 0
Contents = ℕ → Option (String × String)

-- What a chat completion leaves in the slot that it names, if it names one.
abbrev put : Option Tree → Option (String × String) → Contents → Contents
put (some (number k)) x t = update t k x
put _ x t = t

put-apart :
    (v : Tree) (x : Option (String × String)) (t : Contents) (k j : ℕ)
    {y : Option (String × String)}
    → (get v "id_slot" ≡ some (number k)) ⊎ (is_object v ≡ false)
    → k ≢ j
    → t j ≡ y
    → put (get v "id_slot") x t j ≡ y
put-apart v x t k j (inl e) apart there = rw e (update_ne t k j x apart ∙ there)
put-apart v x t k j (inr n) apart there = rw (get-no_object v "id_slot" n) there

module _ (outside : Outside tree_json) where
  -- The prefix of request `i`, computed by the model that the call names.
  abbrev computed : ℕ → Tree → Option (String × String)
  computed i v =
      map_option (λ h. (h.prefix_hash, model_id (named_model (world_of outside) v)))
        (hint (world_of outside) i)

  abbrev pub llama : LlamaServer (world_of outside)
  llama = record {
    State = Contents;
    Holds = λ t k prefix model. t k ≡ some (prefix, model);
    after_restore = λ i key k t.
        if was_restored (outside.restore_into_slot key k)
        then update t k (some (key.prefix_hash, key.model_id))
        else t;
    after_warm_up = λ i u v t. put (get v "id_slot") (computed i v) t;
    after_save = λ i key k meta t. t;
    after_post = λ i u v t. put (get v "id_slot") (computed i v) t;
  }

  pub the_hint :
      (i : ℕ)
      → hint (world_of outside) i
        ≡ some (record { prefix_hash = "p"; preferred_slot = none; model = some "m" })
  unfolding get
  the_hint i = refl

  put-Holds :
      (i k : ℕ) (h : SlotHint) (u : Text) (v : Tree) (t : Contents)
      → hint (world_of outside) i ≡ some h
      → Asks (world_of outside) i k h u v
      → put (get v "id_slot") (computed i v) t k ≡ some (h.prefix_hash, model_id h.model)
  put-Holds i k h u v t asked asks = rw asks.slot (
      update_self t k (computed i v)
      ∙ ap (map_option (λ h. (h.prefix_hash, model_id (named_model (world_of outside) v)))) asked
      ∙ ap (λ m. some (h.prefix_hash, model_id m)) asks.model)

  pub documented : Documented (world_of outside) llama
  documented = record {
    restored = λ i k key t r. rw r (update_self t k (some (key.prefix_hash, key.model_id)));
    warmed = λ i k h u v t asked asks answered. put-Holds i k h u v t asked asks;
    posted = λ i k h u v t asked asks there. put-Holds i k h u v t asked asks;
    saved = λ i k j key meta t p m there. there;
    restored_apart = λ i k j key t p m apart there.
        elim (Bool-cases (was_restored (outside.restore_into_slot key k))) [
          | inl r ↦ rw r (update_ne t k j (some (key.prefix_hash, key.model_id)) apart ∙ there)
          | inr n ↦ rw n there
        ];
    warmed_apart =
        λ i k j u v t p m slot apart there. put-apart v (computed i v) t k j (inl slot) apart there;
    posted_apart =
        λ i k j u v t p m slot apart there. put-apart v (computed i v) t k j slot apart there;
  }
