-- ===== src/Broker/Coherence/Invariant.antt =====
-- The composition over llama-server: the table is right about each slot that nobody holds, and each
-- task knows what its slot holds. How both are kept when a task, or the stage of a request, moves on.
use aivyx_broker.Prelude.{
  false, ℕ, ◌≡◌, ◌≢◌, ap, sym, ◌∙◌, subst, inl, inr, Option, none, some, List, String, get_elem?,
  update, update_self, update_ne, ℕ-cases,
}
use aivyx_broker.Scheduler.{SlotState, Admission}
use aivyx_broker.Scheduler.System.{Stage, holding}
use aivyx_broker.Scheduler.System.Holding
use aivyx_broker.Server.Upstream.{Action}
use aivyx_broker.Broker.{World, hint}
use aivyx_broker.Broker.Invariant.{NotHolding, SameResidency, Stage-cases}
use aivyx_broker.Broker.Coherence.{LlamaServer, Slots, outside, forwarded, model_id}
use aivyx_broker.Broker.Coherence.Jobs.{Known, Coheres}

-- No request holds slot `k`.
abbrev pub Free : (ℕ → Stage) → ℕ → Type 0
Free stage k = (i : ℕ) (a : Admission) → stage i ≡ holding a → a.slot_id ≢ k

module _ (w : World) (l : LlamaServer w) where
  abbrev pub Knows : Slots w l → ℕ → Known → Type 0
  Knows t k none = Unit {0}
  Knows t k (some (prefix, model)) = l.Holds t.state k prefix model

  -- What the table records of slot `k` is there, unless the slot is spoiled.
  abbrev pub Recorded : Slots w l → ℕ → SlotState → Type 0
  Recorded t k s =
      t.spoiled k ≡ false
      → (prefix : String) → s.resident_prefix ≡ some prefix
      → l.Holds t.state k prefix (model_id s.resident_model)

  abbrev pub Known-Coheres :
      ℕ → Slots w l → ℕ → Option String → Option String → List (Action w.json) → Type 0
  Known-Coheres i t k prefix model job =
      (known : Known) × Knows t k known
      × Coheres w.json (outside w i) w.llama_server_url (forwarded w i) (hint w i) k (t.spoiled k)
          known prefix model job

  abbrev pub Keeps : List SlotState → Slots w l → ℕ → Stage → List (Action w.json) → Type 0
  Keeps slots t i stage job =
      (a : Admission) (s : SlotState)
      → stage ≡ holding a
      → get_elem? slots a.slot_id ≡ some s
      → Known-Coheres i t a.slot_id s.resident_prefix s.resident_model job

  pub record Coherent (slots : List SlotState) (t : Slots w l) (stage : ℕ → Stage)
      (job : ℕ → List (Action w.json)) : Type 0 where
    pub tasks : (i : ℕ) → Keeps slots t i (stage i) (job i)
    pub idle : (k : ℕ) (s : SlotState) → get_elem? slots k ≡ some s → Free stage k → Recorded t k s

  -- Between two states, slot `k` keeps what it holds.
  abbrev pub Retains : Slots w l → Slots w l → ℕ → Type 0
  Retains t t' k =
      (t'.spoiled k ≡ t.spoiled k)
      × ((prefix model : String) → l.Holds t.state k prefix model → l.Holds t'.state k prefix model)

  pub Knows-Retains :
      (t t' : Slots w l) (k : ℕ) (known : Known)
      → Retains t t' k
      → Knows t k known
      → Knows t' k known
  Knows-Retains t t' k none keeps h = tt
  Knows-Retains t t' k (some (prefix, model)) keeps h = keeps.1 prefix model h

  Known-Retains :
      (i : ℕ) (t t' : Slots w l) (k : ℕ) (prefix model : Option String) (job : List (Action w.json))
      → Retains t t' k
      → Known-Coheres i t k prefix model job
      → Known-Coheres i t' k prefix model job
  Known-Retains i t t' k prefix model job keeps (known, knows, coheres) = (
    known,
    Knows-Retains t t' k known keeps knows,
    subst
        (λ x.
          Coheres w.json (outside w i) w.llama_server_url (forwarded w i) (hint w i) k x known
            prefix model job)
        (sym keeps.0) coheres,
  )

  module _ {slots : List SlotState} {t : Slots w l} {stage : ℕ → Stage}
      {job : ℕ → List (Action w.json)} (co : Coherent slots t stage job) where
    -- The table is another one that records the same.
    pub frame-Coherent :
        (slots' : List SlotState) → SameResidency slots slots' → Coherent slots' t stage job
    frame-Coherent slots' same = record {
      tasks = λ i a s h e.
          let (u, q, p, m) = same a.slot_id s e in
          subst (λ x. Known-Coheres i t a.slot_id x s.resident_model (job i)) p
            (subst (λ x. Known-Coheres i t a.slot_id u.resident_prefix x (job i)) m
              (co.tasks i a u h q));
      idle = λ k s e free sound prefix is.
          let (u, q, p, m) = same k s e in
          subst (λ x. l.Holds t.state k prefix (model_id x)) m
            (co.idle k u q free sound prefix (p ∙ is));
    }

    -- A request moves on without a slot. If it held one, the record of it is right.
    pub moves-Coherent :
        (i : ℕ) (p : Stage) (jobs : ℕ → List (Action w.json))
        → ((a : Admission) (s : SlotState)
            → stage i ≡ holding a
            → get_elem? slots a.slot_id ≡ some s
            → Recorded t a.slot_id s)
        → NotHolding p
        → ((j : ℕ) → i ≢ j → jobs j ≡ job j)
        → Coherent slots t (update stage i p) jobs
    moves-Coherent i p jobs was now same = record {
      tasks = λ j a s h e. elim (ℕ-cases i j) [
        | inl here ↦ absurd (now a (sym (moved here) ∙ h))
        | inr other ↦
            subst (Known-Coheres j t a.slot_id s.resident_prefix s.resident_model)
              (sym (same j other)) (co.tasks j a s (sym (update_ne stage i j p other) ∙ h) e)
      ];
      idle = λ k s e free. elim (Stage-cases (stage i)) [
        | inr idle ↦ co.idle k s e λ j a h. elim (ℕ-cases i j) [
          | inl here ↦ absurd (idle a (ap stage here ∙ h))
          | inr other ↦ free j a (update_ne stage i j p other ∙ h)
        ]
        | inl (b, g) ↦ elim (ℕ-cases b.slot_id k) [
          | inl mine ↦ subst (λ x. Recorded t x s) mine (was b s g (ap (get_elem? slots) mine ∙ e))
          | inr apart ↦ co.idle k s e λ j a h. elim (ℕ-cases i j) [
            | inl here ↦ λ at.
                let is : b ≡ a = cc (g, ap stage here ∙ h) in apart (ap (λ x. x.slot_id) is ∙ at)
            | inr other ↦ free j a (update_ne stage i j p other ∙ h)
          ]
        ]
      ];
    }
      where
        moved : {j : ℕ} → i ≡ j → update stage i p j ≡ p
        moved here = subst (λ x. update stage i p x ≡ p) here (update_self stage i p)

    -- The holder of a slot acts: it may change the record and the content of that slot.
    pub own-Coherent :
        (i : ℕ) (a : Admission) (rest : List (Action w.json)) (slots' : List SlotState)
        (t' : Slots w l)
        → Holding.Inv slots stage
        → stage i ≡ holding a
        → ((j : ℕ) → a.slot_id ≢ j → get_elem? slots' j ≡ get_elem? slots j)
        → ((j : ℕ) → a.slot_id ≢ j → Retains t t' j)
        → ((s : SlotState)
            → get_elem? slots' a.slot_id ≡ some s
            → Known-Coheres i t' a.slot_id s.resident_prefix s.resident_model rest)
        → Coherent slots' t' stage (update job i rest)
    own-Coherent i a rest slots' t' held h same keeps new = record {
      tasks = λ j. elim (ℕ-cases i j) [
        | inl here ↦
            subst (λ x. Keeps slots' t' x (stage x) (update job i rest x)) here
              (rw (update_self job i rest) mine)
        | inr other ↦ rw (update_ne job i j rest other) λ c s g e.
            let apart : a.slot_id ≢ c.slot_id = λ q. other (held.apart i j a c h g q) in
            Known-Retains j t t' c.slot_id s.resident_prefix s.resident_model (job j)
              (keeps c.slot_id apart) (co.tasks j c s g (sym (same c.slot_id apart) ∙ e))
      ];
      idle = λ k s e free sound prefix is.
          let apart = free i a h in
          (keeps k apart).1 prefix (model_id s.resident_model)
            (co.idle k s (sym (same k apart) ∙ e) free (sym (keeps k apart).0 ∙ sound) prefix is);
    }
      where
        mine : Keeps slots' t' i (stage i) rest
        mine c s g e =
            let is : a ≡ c = cc (h, g) in
            subst (λ x. Known-Coheres i t' x s.resident_prefix s.resident_model rest)
              (ap (λ x. x.slot_id) is) (new s (ap (λ x. get_elem? slots' x.slot_id) is ∙ e))
