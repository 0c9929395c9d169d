-- ===== src/Broker/Coherence/Serves.antt =====
-- The composition over llama-server, each call of it: what it leaves known of the task's slot, and that
-- it spares the others.
use aivyx_broker.Prelude.{
  Result, ok, err, ◌⊎◌, ◌||◌, if◌then◌else◌, Bool, true, false, update_self, update_ne, ap, ℕ, ◌≡◌,
  ◌≢◌, refl, sym, ◌∙◌, subst, inl, inr, Option, none, some, List, ◌∷◌, String, Text, Bool-cases,
}
use aivyx_broker.Json.{Json, JsonLaws}
use aivyx_broker.Scheduler.{SlotHint, Admission}
use aivyx_broker.Scheduler.System.{Stage, holding}
use aivyx_broker.Server.Upstream.{
  Action, restore, warm_up, save, post, CacheKey, CacheMeta, was_restored,
}
use aivyx_broker.Broker.{World, hint}
use aivyx_broker.Broker.Coherence.{
  LlamaServer, Slots, Documented, serve, spoil, is_refused, model_id, outside, url, warm_up_request,
  request,
}
use aivyx_broker.Broker.Coherence.Requests.{warm_up-Asks, warm_up-slot, request-Asks, request-slot}
use aivyx_broker.Broker.Coherence.Jobs.{Known, Ready, known_restored, known_warmed, known_posted}
use aivyx_broker.Broker.Coherence.Invariant.{Known-Coheres, Retains, Knows, Knows-Retains}
use aivyx_broker.Broker.Coherence.Acts.{Coheres-at}

module _ (w : World) (l : LlamaServer w) where
  pub spoiled-own :
      (refused : Bool) (stage : Stage) (a : Admission) (spoiled : ℕ → Bool)
      → stage ≡ holding a
      → (if refused then spoil w l stage spoiled else spoiled) a.slot_id
        ≡ (refused || spoiled a.slot_id)
  spoiled-own false stage a spoiled h = refl
  spoiled-own true stage a spoiled h =
      ap (λ x. spoil w l x spoiled a.slot_id) h ∙ update_self spoiled a.slot_id true

  pub spoiled-apart :
      (refused : Bool) (stage : Stage) (a : Admission) (spoiled : ℕ → Bool) (j : ℕ)
      → stage ≡ holding a
      → a.slot_id ≢ j
      → (if refused then spoil w l stage spoiled else spoiled) j ≡ spoiled j
  spoiled-apart false stage a spoiled j h apart = refl
  spoiled-apart true stage a spoiled j h apart =
      ap (λ x. spoil w l x spoiled j) h ∙ update_ne spoiled a.slot_id j true apart

module _ (w : World) (laws : JsonLaws w.json) (l : LlamaServer w) (doc : Documented w l) where
  true-was_restored : (x : Result Bool String) → was_restored x ≡ true → x ≡ ok true
  true-was_restored (ok true) r = refl
  true-was_restored (ok false) r = cc
  true-was_restored (err e) r = cc

  -- What the slot is known to hold after a restore, a warm-up or a request.
  restored-Knows :
      (i k : ℕ) (key : CacheKey) (t : Slots w l)
      → Knows w l
          (record t { state = l.after_restore i key k t.state })
          k
          (known_restored (was_restored ((outside w i).restore_into_slot key k)) key)
  restored-Knows i k key t =
      elim (Bool-cases (was_restored ((outside w i).restore_into_slot key k))) [
        | inl r ↦ rw r (
            doc.restored i k key t.state
              (true-was_restored ((outside w i).restore_into_slot key k) r))
        | inr n ↦ rw n tt
      ]

  warmed-Knows :
      (i k : ℕ) (h : SlotHint) (t t' : Slots w l) (refused : Bool)
      → is_refused ((outside w i).answer_warm_up (url w i) (warm_up_request w i h k)) ≡ refused
      → t'.state ≡ l.after_warm_up i (url w i) (warm_up_request w i h k) t.state
      → hint w i ≡ some h
      → Knows w l t' k (known_warmed refused h)
  warmed-Knows i k h t t' true r e asked = tt
  warmed-Knows i k h t t' false r e asked =
      subst (λ x. l.Holds x k h.prefix_hash (model_id h.model)) (sym e)
        (doc.warmed i k h (url w i) (warm_up_request w i h k) t.state asked
          (warm_up-Asks w laws i h k) r)

  posted-Knows :
      (i k : ℕ) (t : Slots w l) (spoiled : Bool) (asked : Option SlotHint) (known : Known)
      → hint w i ≡ asked
      → (spoiled ≡ true) ⊎ Ready asked known
      → Knows w l t k known
      → Knows w l
          (record t { state = l.after_post i (url w i) (request w i k) t.state })
          k
          (known_posted spoiled asked known)
  posted-Knows i k t true asked known is ready knows = tt
  posted-Knows i k t false none known is ready knows = tt
  posted-Knows i k t false (some h) known is (inl bad) knows = absurd (cc bad)
  posted-Knows i k t false (some h) known is (inr ready) knows =
      subst (Knows w l (record t { state = l.after_post i (url w i) (request w i k) t.state }) k)
        (sym ready)
        (doc.posted i k h (url w i) (request w i k) t.state is (request-Asks w laws i h k is)
          (subst (Knows w l t k) ready knows))

  -- What each call of llama-server leaves known of the task's slot, and that it spares the others.
  abbrev pub Serves : ℕ → Slots w l → Stage → Action w.json → List (Action w.json) → Type 0
  Serves i t stage action rest =
      (a : Admission) (prefix model : Option String)
      → stage ≡ holding a
      → Known-Coheres w l i t a.slot_id prefix model (action ∷ rest)
      → Known-Coheres w l i (serve w l i action stage t) a.slot_id prefix model rest
        × ((j : ℕ) → a.slot_id ≢ j → Retains w l t (serve w l i action stage t) j)

  module _ (i : ℕ) (t : Slots w l) (stage : Stage) (rest : List (Action w.json)) where
    pub restore-Serves : (key : CacheKey) (k : ℕ) → Serves i t stage (restore key k) rest
    unfolding serve
    restore-Serves key k a prefix model h (known, knows, (at, coheres)) = (
      (
        known_restored (was_restored ((outside w i).restore_into_slot key k)) key,
        subst
            (λ x.
              Knows w l (record t { state = l.after_restore i key k t.state }) x
                (known_restored (was_restored ((outside w i).restore_into_slot key k)) key))
            at (restored-Knows i k key t),
        coheres,
      ),
      λ j apart. (refl, λ p m. doc.restored_apart i k j key t.state p m (λ e. apart (sym at ∙ e))),
    )

    pub warm_up-Serves : (u : Text) (v : Json.Value w.json) → Serves i t stage (warm_up u v) rest
    unfolding serve
    warm_up-Serves u v a prefix model e (known, knows, (h, asked, at, body, coheres)) = (
      (
        known_warmed refused h,
        warmed-Knows i a.slot_id h t (serve w l i (warm_up u v) stage t) refused
            (called (λ y z. is_refused ((outside w i).answer_warm_up y z) ≡ refused) refl)
            (called (λ y z. l.after_warm_up i u v t.state ≡ l.after_warm_up i y z t.state) refl)
            asked,
        subst (λ x. Coheres-at w l i a.slot_id x (known_warmed refused h) prefix model rest)
            (sym (spoiled-own w l refused stage a t.spoiled e)) coheres,
      ),
      λ j apart. (
        spoiled-apart w l refused stage a t.spoiled j e apart,
        λ p m there.
            called
              (λ y z.
                l.Holds (l.after_warm_up i y z t.state) j p m
                → l.Holds (l.after_warm_up i u v t.state) j p m)
              (λ x. x)
              (doc.warmed_apart i a.slot_id j (url w i) (warm_up_request w i h a.slot_id) t.state p
                m (warm_up-slot w laws i h a.slot_id) apart there),
      ),
    )
      where
        refused : Bool
        refused = is_refused ((outside w i).answer_warm_up u v)

        called :
            (P : Text → Json.Value w.json → Type 0)
            → P u v
            → P (url w i) (warm_up_request w i h a.slot_id)
        called P x = subst (P (url w i)) body (subst (λ y. P y v) at x)

    pub save-Serves :
        (key : CacheKey) (k : ℕ) (meta : CacheMeta) → Serves i t stage (save key k meta) rest
    unfolding serve
    save-Serves key k meta a prefix model h (known, knows, (at, right, coheres)) = (
      (
        known,
        Knows-Retains w l t (serve w l i (save key k meta) stage t) a.slot_id known
            (refl, λ p m there. doc.saved i k a.slot_id key meta t.state p m there) knows,
        coheres,
      ),
      λ j apart. (refl, λ p m there. doc.saved i k j key meta t.state p m there),
    )

    pub post-Serves : (u : Text) (v : Json.Value w.json) → Serves i t stage (post u v) rest
    unfolding serve
    post-Serves u v a prefix model h (known, knows, (at, body, ready, coheres)) = (
      (
        known_posted (t.spoiled a.slot_id) (hint w i) known,
        called
            (λ x.
              Knows w l (record t { state = x }) a.slot_id
                (known_posted (t.spoiled a.slot_id) (hint w i) known))
            (posted-Knows i a.slot_id t (t.spoiled a.slot_id) (hint w i) known refl ready knows),
        coheres,
      ),
      λ j apart. (
        refl,
        called (λ x. (p m : String) → l.Holds t.state j p m → l.Holds x j p m)
            (λ p m there.
              doc.posted_apart i a.slot_id j (url w i) (request w i a.slot_id) t.state p m
                (request-slot w laws i a.slot_id) apart there),
      ),
    )
      where
        called :
            (P : l.State → Type 0)
            → P (l.after_post i (url w i) (request w i a.slot_id) t.state)
            → P (l.after_post i u v t.state)
        called P x =
            subst (λ y. P (l.after_post i y v t.state)) (sym at)
              (subst (λ y. P (l.after_post i (url w i) y t.state)) (sym body) x)
