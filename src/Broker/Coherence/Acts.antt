-- ===== src/Broker/Coherence/Acts.antt =====
-- The composition over llama-server, an action of a task: it touches what its own slot holds, and
-- frees the slot with a record that is right.
use aivyx_broker.Prelude.{
  ◌⊎◌, Bool, true, false, ℕ, ◌≡◌, ◌≢◌, refl, ap, sym, ◌∙◌, subst, inl, inr, Option, some, List, ◌∷◌,
  String, get_elem?, modify, get_elem?-modify, update, update_self, update_ne, ℕ-cases, arith,
}
use aivyx_broker.Scheduler.{SlotState, Admission}
use aivyx_broker.Scheduler.Slots.{freed}
use aivyx_broker.Scheduler.System.{Stage, holding, gone}
use aivyx_broker.Scheduler.System.Holding
use aivyx_broker.Server.Upstream.{Action}
use aivyx_broker.Broker.Jobs.{Aloof, Owes}
use aivyx_broker.Broker.{World, hint}
use aivyx_broker.Broker.Invariant.{Inv, Stage-cases, modify-SameResidency}
use aivyx_broker.Broker.Invariant.Acts.{found_held}
use aivyx_broker.Broker.Coherence.{LlamaServer, Slots, model_id, outside, forwarded}
use aivyx_broker.Broker.Coherence.Jobs.{Known, Right, Coheres}
use aivyx_broker.Broker.Coherence.Invariant.{
  Knows, Recorded, Known-Coheres, Coherent, Retains, frame-Coherent, moves-Coherent, own-Coherent,
}

module _ (w : World) (l : LlamaServer w) where
  pub Recorded-of_Right :
      (t : Slots w l) (k : ℕ) (s : SlotState) (known : Known)
      → Knows w l t k known
      → (t.spoiled k ≡ true) ⊎ Right known s.resident_prefix s.resident_model
      → Recorded w l t k s
  Recorded-of_Right t k s known knows (inl spoiled) sound prefix e = absurd (cc (spoiled, sound))
  Recorded-of_Right t k s known knows (inr right) sound prefix e =
      let is : known ≡ some (prefix, model_id s.resident_model) =
        subst (λ x. Right known x s.resident_model) e right in
      subst (Knows w l t k) is knows

  abbrev pub Coheres-at :
      ℕ → ℕ → Bool → Known → Option String → Option String → List (Action w.json) → Type 0
  Coheres-at i k spoiled known prefix model job =
      Coheres w.json (outside w i) w.llama_server_url (forwarded w i) (hint w i) k spoiled known
        prefix model job

  -- The record of slot `k` is made afresh.
  abbrev pub recorded : ℕ → Slots w l → Slots w l
  recorded k t = record t { spoiled = update t.spoiled k false }

  module _ {slots : List SlotState} {t : Slots w l} {stage : ℕ → Stage}
      {job : ℕ → List (Action w.json)} (co : Coherent w l slots t stage job)
      (held : Holding.Inv slots stage) (inv : Inv w slots stage job) (i : ℕ)
      (action : Action w.json) (rest : List (Action w.json)) (now : job i ≡ action ∷ rest) where
    pub own :
        (a : Admission) (s : SlotState)
        → stage i ≡ holding a
        → get_elem? slots a.slot_id ≡ some s
        → Known-Coheres w l i t a.slot_id s.resident_prefix s.resident_model (action ∷ rest)
    own a s h e =
        subst (Known-Coheres w l i t a.slot_id s.resident_prefix s.resident_model) now
          (co.tasks i a s h e)

    holder :
        (Aloof w.json (action ∷ rest) → ⊥)
        → (a : Admission) × (stage i ≡ holding a) × Owes w.json a.slot_id (action ∷ rest)
    holder seen = elim (Stage-cases (stage i)) [
      | inr idle ↦ absurd (seen (subst (Aloof w.json) now ((inv i).aloof idle)))
      | inl (a, h) ↦ (a, h, subst (Owes w.json a.slot_id) now ((inv i).owes a h))
    ]

    -- A call of llama-server for the task's slot, or none.
    pub serves-Coherent :
        (t' : Slots w l)
        → (Aloof w.json (action ∷ rest) → ⊥)
        → ((a : Admission) (prefix model : Option String)
            → stage i ≡ holding a
            → Known-Coheres w l i t a.slot_id prefix model (action ∷ rest)
            → Known-Coheres w l i t' a.slot_id prefix model rest
              × ((j : ℕ) → a.slot_id ≢ j → Retains w l t t' j))
        → Coherent w l slots t' stage (update job i rest)
    serves-Coherent t' seen serves =
        let (a, h, _) = holder seen in
        let (u, found) = found_held held i a h in
        own-Coherent w l co i a rest slots t' held h (λ j apart. refl)
          (serves a u.resident_prefix u.resident_model h (own a u h found)).1
          (λ s e. (serves a s.resident_prefix s.resident_model h (own a s h e)).0)

    -- A record of what the task's slot holds.
    pub records-Coherent :
        (k : ℕ) (f : SlotState → SlotState) (p m : Option String)
        → ((s : SlotState) → ((f s).resident_prefix ≡ p) × ((f s).resident_model ≡ m))
        → (Aloof w.json (action ∷ rest) → ⊥)
        → ((a : Admission) → Owes w.json a.slot_id (action ∷ rest) → k ≡ a.slot_id)
        → ((a : Admission) (prefix model : Option String)
            → Known-Coheres w l i t a.slot_id prefix model (action ∷ rest)
            → (known : Known) × Knows w l t a.slot_id known
              × Coheres-at i a.slot_id false known p m rest)
        → Coherent w l (modify slots k f) (recorded k t) stage (update job i rest)
    records-Coherent k f p m is seen owed records =
        let (a, h, owes) = holder seen in
        let mine = owed a owes in
        let (u, found) = found_held held i a h in
        own-Coherent w l co i a rest (modify slots k f) (recorded k t) held h
          (λ j apart. ground (arith, mine, apart, get_elem?-modify slots k j f))
          (λ j apart. (
            update_ne t.spoiled k j false (λ e. apart (sym mine ∙ e)),
            λ prefix model there. there,
          ))
          (λ s e.
            let at : f u ≡ s =
              ground (arith, e, found, mine, get_elem?-modify slots k a.slot_id f) in
            subst (λ x. Known-Coheres w l i (recorded k t) a.slot_id x s.resident_model rest)
              (sym (is u).0 ∙ ap (λ x. x.resident_prefix) at)
              (subst (λ x. Known-Coheres w l i (recorded k t) a.slot_id p x rest)
                (sym (is u).1 ∙ ap (λ x. x.resident_model) at)
                (fresh a mine (records a u.resident_prefix u.resident_model (own a u h found)))))
      where
        fresh :
            (a : Admission)
            → k ≡ a.slot_id
            → (known : Known) × Knows w l t a.slot_id known
              × Coheres-at i a.slot_id false known p m rest
            → Known-Coheres w l i (recorded k t) a.slot_id p m rest
        fresh a mine (known, knows, coheres) = (
          known,
          knows,
          subst (λ x. Coheres-at i a.slot_id x known p m rest)
              (sym (
                subst (λ x. update t.spoiled k false x ≡ false) mine
                  (update_self t.spoiled k false)))
              coheres,
        )

    -- An action that concerns neither the table nor llama-server.
    pub relays-Coherent :
        ((a : Admission) (prefix model : Option String)
          → Known-Coheres w l i t a.slot_id prefix model (action ∷ rest)
          → Known-Coheres w l i t a.slot_id prefix model rest)
        → Coherent w l slots t stage (update job i rest)
    relays-Coherent keeps = record {
      tasks = λ j a s h e. elim (ℕ-cases i j) [
        | inl here ↦
            subst
              (λ x.
                Known-Coheres w l x t a.slot_id s.resident_prefix s.resident_model
                  (update job i rest x))
              here
              (rw (update_self job i rest)
                (keeps a s.resident_prefix s.resident_model (own a s (ap stage here ∙ h) e)))
        | inr other ↦ rw (update_ne job i j rest other) (co.tasks j a s h e)
      ];
      idle = co.idle;
    }

    pub releases-Coherent :
        (k : ℕ)
        → ((a : Admission) (prefix model : Option String)
            → Known-Coheres w l i t a.slot_id prefix model (action ∷ rest)
            → (known : Known) × Knows w l t a.slot_id known
              × ((t.spoiled a.slot_id ≡ true) ⊎ Right known prefix model))
        → Coherent w l (modify slots k freed) t (update stage i gone) (update job i rest)
    releases-Coherent k right =
        frame-Coherent w l
          (moves-Coherent w l co i gone (update job i rest)
            (λ a s h e.
              let (known, knows, r) = right a s.resident_prefix s.resident_model (own a s h e) in
              Recorded-of_Right t a.slot_id s known knows r)
            (λ a h. cc) (λ j other. update_ne job i j rest other))
          (modify slots k freed) (modify-SameResidency slots k freed (λ s. (refl, refl)))
