-- ===== src/Broker/Coherence/Isolation.antt =====
-- src/scheduler.rs with src/server.rs: the tasks work on slots of their own. The theorem is about the
-- broker alone; what is known of each task's job is taken from its runs over any llama-server.
use aivyx_broker.Prelude.{
  ◌⊎◌, false, ℕ, ◌^◌, ◌≤◌, ◌≡◌, ◌≢◌, sym, inl, inr, Bool, true, Option, some, List, [], ◌∷◌, String,
  All, subst,
}
use aivyx_broker.Json.{Json, JsonLaws}
use aivyx_broker.Scheduler.{Admission}
use aivyx_broker.Scheduler.System.{holding}
use aivyx_broker.Scheduler.System.Holding
use aivyx_broker.Scheduler.System.Holding.{busy_at}
use aivyx_broker.Server.Upstream.{
  Action, restore, warm_up, save, mark_resident, clear_resident, post, send_head, read, send_chunk,
  abandon, close, release,
}
use aivyx_broker.Broker.Jobs.{Aloof, Owes}
use aivyx_broker.Broker.{World, Broker, hint, Reach, start, later}
use aivyx_broker.Broker.Invariant.{Stage-cases}
use aivyx_broker.Broker.Invariant.Acts.{found_held}
use aivyx_broker.Broker.Refinement.{Reach-Sound}
use aivyx_broker.Broker.Coherence.{LlamaServer, Documented, Slots, Run, effect, outside, forwarded}
use aivyx_broker.Broker.Coherence.Jobs.{Known, Coheres}
use aivyx_broker.Broker.Coherence.Requests.{warm_up-slot, request-slot}
use aivyx_broker.Broker.Coherence.Safety.{Run-Coherent}

module _ (J : Json) where
  -- The action concerns slot `k` and no other: what it does to the scheduler's table, to the cache,
  -- and in llama-server, where a request that is an object names the slot in `id_slot`.
  abbrev pub OnSlot : ℕ → Action J → Type 0
  OnSlot k (restore key slot_id) = slot_id ≡ k
  OnSlot k (warm_up u v) = J.get v "id_slot" ≡ some (J.number k)
  OnSlot k (save key slot_id meta) = slot_id ≡ k
  OnSlot k (mark_resident slot_id m p) = slot_id ≡ k
  OnSlot k (clear_resident slot_id) = slot_id ≡ k
  OnSlot k (post u v) = (J.get v "id_slot" ≡ some (J.number k)) ⊎ (J.is_object v ≡ false)
  OnSlot k (release slot_id) = slot_id ≡ k
  OnSlot k _ = Unit {0}

  Aloof-OnSlot : (k : ℕ) (job : List (Action J)) → Aloof J job → All (OnSlot k) job
  Aloof-OnSlot k [] q = tt
  Aloof-OnSlot k (restore k' m ∷ job) q = absurd q
  Aloof-OnSlot k (warm_up u v ∷ job) q = absurd q
  Aloof-OnSlot k (save k' m d ∷ job) q = absurd q
  Aloof-OnSlot k (post u v ∷ job) q = absurd q
  Aloof-OnSlot k (send_head d ∷ job) q = absurd q
  Aloof-OnSlot k (read ∷ job) q = absurd q
  Aloof-OnSlot k (send_chunk d ∷ job) q = absurd q
  Aloof-OnSlot k (abandon ∷ job) q = absurd q
  Aloof-OnSlot k (close ∷ job) q = (tt, Aloof-OnSlot k job q)
  Aloof-OnSlot k (mark_resident i m p ∷ job) q = absurd q
  Aloof-OnSlot k (clear_resident i ∷ job) q = absurd q
  Aloof-OnSlot k (release i ∷ job) q = absurd q

module _ (w : World) (laws : JsonLaws w.json) where
  Coheres-OnSlot :
      (i k : ℕ) (job : List (Action w.json)) (spoiled : Bool) (known : Known)
      (prefix model : Option String)
      → Owes w.json k job
      → Coheres w.json
          (outside w i)
          w.llama_server_url
          (forwarded w i)
          (hint w i)
          k
          spoiled
          known
          prefix
          model
          job
      → All (OnSlot w.json k) job
  Coheres-OnSlot i k [] spoiled known prefix model o c = absurd o
  Coheres-OnSlot i k (restore key s ∷ job) spoiled known prefix model o (at, c) =
      (at, Coheres-OnSlot i k job _ _ prefix model o c)
  Coheres-OnSlot i k (warm_up u v ∷ job) spoiled known prefix model o (h, _, _, at, c) = (
    subst (λ x. w.json.get x "id_slot" ≡ some (w.json.number k)) (sym at)
        (warm_up-slot w laws i h k),
    Coheres-OnSlot i k job _ _ prefix model o c,
  )
  Coheres-OnSlot i k (save key s meta ∷ job) spoiled known prefix model o (at, _, c) =
      (at, Coheres-OnSlot i k job _ _ prefix model o c)
  Coheres-OnSlot i k (mark_resident s m p ∷ job) spoiled known prefix model (at, o) c =
      (at, Coheres-OnSlot i k job _ _ _ _ o c)
  Coheres-OnSlot i k (clear_resident s ∷ job) spoiled known prefix model (at, o) c =
      (at, Coheres-OnSlot i k job _ _ _ _ o c)
  Coheres-OnSlot i k (post u v ∷ job) spoiled known prefix model o (_, at, _, c) = (
    subst (λ x. OnSlot w.json k (post u x)) (sym at) (request-slot w laws i k),
    Coheres-OnSlot i k job _ _ prefix model o c,
  )
  Coheres-OnSlot i k (release s ∷ job) spoiled known prefix model (at, q) c =
      (at, Aloof-OnSlot w.json k job q)
  Coheres-OnSlot i k (send_head d ∷ job) spoiled known prefix model o c =
      (tt, Coheres-OnSlot i k job spoiled known prefix model o c)
  Coheres-OnSlot i k (read ∷ job) spoiled known prefix model o c =
      (tt, Coheres-OnSlot i k job spoiled known prefix model o c)
  Coheres-OnSlot i k (send_chunk d ∷ job) spoiled known prefix model o c =
      (tt, Coheres-OnSlot i k job spoiled known prefix model o c)
  Coheres-OnSlot i k (abandon ∷ job) spoiled known prefix model o c =
      (tt, Coheres-OnSlot i k job spoiled known prefix model o c)
  Coheres-OnSlot i k (close ∷ job) spoiled known prefix model o c =
      (tt, Coheres-OnSlot i k job spoiled known prefix model o c)

  -- A llama-server of which nothing is asked.
  abbrev any_server : LlamaServer w
  any_server = record {
    State = Unit {0};
    Holds = λ t k p m. Unit {0};
    after_restore = λ i key k t. t;
    after_warm_up = λ i u v t. t;
    after_save = λ i key k meta t. t;
    after_post = λ i u v t. t;
  }

  any_documented : Documented w any_server
  any_documented = record {
    restored = λ i k key t r. tt;
    warmed = λ i k h u v t asked asks r. tt;
    posted = λ i k h u v t asked asks r. tt;
    saved = λ i k j key meta t p m r. tt;
    restored_apart = λ i k j key t p m apart r. tt;
    warmed_apart = λ i k j u v t p m s apart r. tt;
    posted_apart = λ i k j u v t p m s apart r. tt;
  }

  -- Task `i` works on slot `k`, which is busy: it frees it once, and does nothing on another slot.
  abbrev pub WorksOn : Broker w → ℕ → ℕ → Type 0
  WorksOn b i k =
      (busy_at b.scheduler.inner.slots k ≡ true)
      × Owes w.json k (b.job i)
      × All (OnSlot w.json k) (b.job i)

  module _ {n : ℕ} {processing : List ℕ} (small : n ≤ 2 ^ 32) where
    Reach-Run :
        {b : Broker w}
        → Reach w n processing b
        → (t : Slots w any_server) × Run w any_server n processing b t
    Reach-Run start =
        let t : Slots w any_server = record { state = tt; spoiled = λ k. true } in (t, Run.start t)
    Reach-Run (later r st) =
        let (t, run) = Reach-Run r in (effect w any_server st t, Run.later run st)

    works :
        {b : Broker w}
        → Reach w n processing b
        → (i : ℕ) → ¬ Aloof w.json (b.job i)
        → (a : Admission) × (b.scheduler.stage i ≡ holding a) × WorksOn b i a.slot_id
    works {b} r i more =
        let sound = Reach-Sound w small r in
        let held = Holding.Reach-Inv small sound.reach in
        elim (Stage-cases (b.scheduler.stage i)) [
          | inr idle ↦ absurd (more ((sound.tasks i).aloof idle))
          | inl (a, h) ↦
              let (s, found) = found_held held i a h in
              let (t, run) = Reach-Run r in
              let (known, _, c) =
                (Run-Coherent any_server laws any_documented small run).tasks i a s h found in
              let o = (sound.tasks i).owes a h in
              (
                a,
                h,
                (
                  (held.owned i a h).0,
                  o,
                  Coheres-OnSlot i a.slot_id (b.job i) (t.spoiled a.slot_id) known s.resident_prefix
                      s.resident_model o c,
                ),
              )
        ]

    -- Where JSON objects are maps: in every reachable state of a broker with at most 2^32 slots, two
    -- tasks that have anything left to do but to end their clients' bodies work on two different
    -- slots, both of them busy. Each frees its slot once, and until then everything that it still
    -- does on a slot, in llama-server, in the KV cache and in the table, is on that one.
    pub one_task_per_slot :
        {b : Broker w}
        → Reach w n processing b
        → (i j : ℕ) → i ≢ j
        → ¬ Aloof w.json (b.job i)
        → ¬ Aloof w.json (b.job j)
        → (k m : ℕ) × (k ≢ m) × WorksOn b i k × WorksOn b j m
    one_task_per_slot {b} r i j apart more more' =
        let (a, h, f) = works r i more in
        let (c, g, e) = works r j more' in
        let held = Holding.Reach-Inv small (Reach-Sound w small r).reach in
        (a.slot_id, c.slot_id, (λ same. apart (held.apart i j a c h g same)), f, e)
