-- ===== src/Broker/Coherence/Safety.antt =====
-- The composition over llama-server: the table tells what idle slots hold, and a hinted request runs
-- on a slot that holds its prefix.
use aivyx_broker.Prelude.{
  ℕ, zero, suc, ◌^◌, ◌≤◌, ◌≡◌, refl, sym, subst, inl, inr, ◌⊎◌, true, false, none, some, List, [],
  ◌∷◌, String, Text, arith, get_elem?, modify, get_elem?-modify, Option-cases, replicate,
}
use aivyx_broker.Json.{Json, JsonLaws}
use aivyx_broker.Scheduler.{SlotState, SlotHint, Admission, Inner, default_slot, new, seed_busy}
use aivyx_broker.Scheduler.Slots.{freed_if_seeded, slots-reconcile_seeded_idle}
use aivyx_broker.Scheduler.System.{locking, holding, timed_out, gone, seeded, reconcile, receivers}
use aivyx_broker.Scheduler.System.Holding
use aivyx_broker.Server.Upstream.{Action, save, post, CacheKey, CacheMeta}
use aivyx_broker.Broker.Jobs.{Aloof}
use aivyx_broker.Broker.{
  World, Broker, hint, Step, admits, wakes, expires, hangs_up, acts, reconciles, panics, Reach,
}
use aivyx_broker.Broker.Invariant.{Stage-cases, modify-SameResidency}
use aivyx_broker.Broker.Invariant.Acts.{found_held}
use aivyx_broker.Broker.Refinement.{Reach-Sound, freed_if_seeded_keeps}
use aivyx_broker.Broker.Coherence.{
  LlamaServer, Documented, Slots, effect, Run, start, later, url, Asks, model_id,
}
use aivyx_broker.Broker.Coherence.Requests.{request-Asks}
use aivyx_broker.Broker.Coherence.Jobs.{Ready}
use aivyx_broker.Broker.Coherence.Invariant.{
  Coherent, frame-Coherent, moves-Coherent, Knows, Known-Coheres,
}
use aivyx_broker.Broker.Coherence.Performs.{act-Coherent}
use aivyx_broker.Broker.Coherence.Panics.{panics-Coherent}
use aivyx_broker.Broker.Coherence.Admits.{admit-Coherent}

-- At the start the table records nothing.
abbrev Unrecorded : List SlotState → Type 0
Unrecorded slots = (k : ℕ) (s : SlotState) → get_elem? slots k ≡ some s → s.resident_prefix ≡ none

new-Unrecorded : (n : ℕ) → Unrecorded (replicate n default_slot)
new-Unrecorded zero k s e = cc
new-Unrecorded (suc n) zero s e = ground (arith, e)
new-Unrecorded (suc n) (suc k) s e = new-Unrecorded n k s e

seeded-Unrecorded :
    (inner : Inner) (ids : List ℕ) → Unrecorded inner.slots → Unrecorded (seeded inner ids).slots
unfolding seed_busy
seeded-Unrecorded inner [] h = h
seeded-Unrecorded inner (id ∷ ids) h = seeded-Unrecorded (seed_busy inner id) ids λ k s e.
    elim (Option-cases (get_elem? inner.slots k)) [
      | inl n ↦ absurd (ground (arith, n, e, get_elem?-modify inner.slots id k seeds))
      | inr (t, q) ↦ ground (arith, q, e, h k t, get_elem?-modify inner.slots id k seeds)
    ]
  where
    seeds : SlotState → SlotState
    seeds s = record s { busy = true; seeded_unowned = true }

abbrev CoherentBroker : (w : World) (l : LlamaServer w) → Broker w → Slots w l → Type 0
CoherentBroker w l b t = Coherent w l b.scheduler.inner.slots t b.scheduler.stage b.job

module _ {w : World} (l : LlamaServer w) {n : ℕ} {processing : List ℕ} where
  Run-Reach : {b : Broker w} {t : Slots w l} → Run w l n processing b t → Reach w n processing b
  Run-Reach (start t) = Reach.start
  Run-Reach (later r st) = Reach.later (Run-Reach r) st

  module _ (laws : JsonLaws w.json) (doc : Documented w l) (small : n ≤ 2 ^ 32) where
    Step-Coherent :
        {b c : Broker w} (t : Slots w l)
        → Reach w n processing b
        → (st : Step w b c) → CoherentBroker w l b t
        → CoherentBroker w l c (effect w l st t)
    unfolding effect reconcile
    Step-Coherent {b} t r (admits i e) co =
        admit-Coherent w l b i t e (Holding.Reach-Inv small (Reach-Sound w small r).reach) co
    Step-Coherent {b} t r (wakes i c e s) co =
        moves-Coherent w l co i locking b.job (λ a s h. cc) (λ a h. cc) (λ j other. refl)
    Step-Coherent {b} t r (expires i c e s) co =
        moves-Coherent w l co i timed_out b.job (λ a s h. cc) (λ a h. cc) (λ j other. refl)
    Step-Coherent {b} t r (hangs_up i c e) co =
        moves-Coherent w l co i gone b.job (λ a s h. cc) (λ a h. cc) (λ j other. refl)
    Step-Coherent {b} t r (acts i action rest e) co =
        let sound = Reach-Sound w small r in
        act-Coherent w laws l doc b t i action rest e (Holding.Reach-Inv small sound.reach)
          sound.tasks co
    Step-Coherent {b} t r (panics i) co =
        let sound = Reach-Sound w small r in
        panics-Coherent w l co (Holding.Reach-Inv small sound.reach) sound.tasks i
    Step-Coherent {b} t r (reconciles k) co =
        subst (λ x. Coherent w l x t b.scheduler.stage b.job)
          (sym (slots-reconcile_seeded_idle (receivers b.scheduler) b.scheduler.inner k))
          (frame-Coherent w l co (modify b.scheduler.inner.slots k freed_if_seeded)
            (modify-SameResidency b.scheduler.inner.slots k freed_if_seeded freed_if_seeded_keeps))

    pub Run-Coherent :
        {b : Broker w} {t : Slots w l} → Run w l n processing b t → CoherentBroker w l b t
    unfolding new
    Run-Coherent (start t) = record {
      tasks = λ i a s h. cc;
      idle = λ k s e free sound prefix is.
          absurd (cc (is, seeded-Unrecorded (new n) processing (new-Unrecorded n) k s e));
    }
    Run-Coherent (later {t = t} r st) = Step-Coherent t (Run-Reach r) st (Run-Coherent r)

    -- Where JSON objects are maps, and llama-server computes and keeps prefixes as `Documented` says: in
    -- every state that a broker with at most 2^32 slots reaches, an idle slot for which the table records a prefix
    -- holds that prefix, computed by the recorded model, unless a warm-up on the slot was refused, or
    -- a task that held it panicked, since what it holds was last recorded.
    pub idle-Holds :
        {b : Broker w} {t : Slots w l}
        → Run w l n processing b t
        → (k : ℕ) (s : SlotState) (prefix : String) → get_elem? b.scheduler.inner.slots k ≡ some s
        → s.busy ≡ false
        → s.resident_prefix ≡ some prefix
        → t.spoiled k ≡ false
        → l.Holds t.state k prefix (model_id s.resident_model)
    idle-Holds {b} r k s prefix e idle is sound =
        let held = Holding.Reach-Inv small (Reach-Sound w small (Run-Reach r)).reach in
        (Run-Coherent r).idle k s e (λ j a h q. ground (arith, e, idle, held.owned j a h, q)) sound
          prefix is

    -- What is known of the slot of a task that has something to do.
    task_knows :
        {b : Broker w} {t : Slots w l}
        → Run w l n processing b t
        → (i : ℕ) (action : Action w.json) (rest : List (Action w.json)) → b.job i ≡ action ∷ rest
        → (Aloof w.json (action ∷ rest) → ⊥)
        → (a : Admission) × (s : SlotState) × (b.scheduler.stage i ≡ holding a)
          × Known-Coheres w l i t a.slot_id s.resident_prefix s.resident_model (action ∷ rest)
    task_knows {b} {t} r i action rest e busy =
        let sound = Reach-Sound w small (Run-Reach r) in
        elim (Stage-cases (b.scheduler.stage i)) [
          | inr idle ↦ absurd (busy (subst (Aloof w.json) e ((sound.tasks i).aloof idle)))
          | inl (a, g) ↦
              let (s, found) = found_held (Holding.Reach-Inv small sound.reach) i a g in
              (
                a,
                s,
                g,
                subst (Known-Coheres w l i t a.slot_id s.resident_prefix s.resident_model) e
                    ((Run-Coherent r).tasks i a s g found),
              )
        ]

    -- Where JSON objects are maps, and llama-server computes and keeps prefixes as `Documented` says: in
    -- every state that a broker with at most 2^32 slots reaches, when a task is about to save a slot to the KV cache,
    -- it holds that slot, and the slot holds the prefix of the key that it is saved under, computed by
    -- the key's model: whatever other tasks, refused warm-ups and panics came before, the broker never
    -- saves one prompt's state under another's key.
    pub save-Holds :
        {b : Broker w} {t : Slots w l}
        → Run w l n processing b t
        → (i : ℕ) (key : CacheKey) (slot_id : ℕ) (meta : CacheMeta) (rest : List (Action w.json))
        → b.job i ≡ save key slot_id meta ∷ rest
        → (a : Admission) × (b.scheduler.stage i ≡ holding a)
          × (slot_id ≡ a.slot_id)
          × l.Holds t.state slot_id key.prefix_hash key.model_id
    save-Holds {b} {t} r i key slot_id meta rest e =
        let (a, s, g, (known, knows, (at, right, _))) =
          task_knows r i (save key slot_id meta) rest e (λ x. x) in
        (
          a,
          g,
          at,
          subst (λ k. l.Holds t.state k key.prefix_hash key.model_id) (sym at)
              (subst (Knows w l t a.slot_id) right knows),
        )

    -- Where JSON objects are maps, and llama-server computes and keeps prefixes as `Documented` says: in
    -- every state that a broker with at most 2^32 slots reaches, when a hinted request's task is
    -- about to send it, the task holds a slot; the request goes to llama-server's chat completions,
    -- names that slot, and has the model, the system prompt and the tools of the client's request; and
    -- the slot holds the hinted prefix, computed by that model, unless a warm-up on the slot was
    -- refused, or a task that held it panicked, since what it holds was last recorded. So whatever
    -- other tasks did in between, no other hinted request runs on another prompt's state.
    pub post-Holds :
        {b : Broker w} {t : Slots w l}
        → Run w l n processing b t
        → (i : ℕ) (h : SlotHint) (at : Text) (body : Json.Value w.json)
          (rest : List (Action w.json))
        → b.job i ≡ post at body ∷ rest
        → hint w i ≡ some h
        → (a : Admission) × (b.scheduler.stage i ≡ holding a)
          × Asks w i a.slot_id h at body
          × ((t.spoiled a.slot_id ≡ true)
              ⊎ l.Holds t.state a.slot_id h.prefix_hash (model_id h.model))
    post-Holds {b} {t} r i h at body rest e asked =
        let (a, s, g, (known, knows, (there, is, ready, _))) =
          task_knows r i (post at body) rest e (λ x. x) in
        (
          a,
          g,
          subst (λ u. Asks w i a.slot_id h u body) (sym there)
              (subst (Asks w i a.slot_id h (url w i)) (sym is)
                (request-Asks w laws i h a.slot_id asked)),
          elim ready [
            | inl bad ↦ inl bad
            | inr y ↦ inr (subst (Knows w l t a.slot_id) (subst (λ x. Ready x known) asked y) knows)
          ],
        )
