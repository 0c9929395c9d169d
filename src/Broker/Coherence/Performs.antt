-- ===== src/Broker/Coherence/Performs.antt =====
-- The composition over llama-server, each action of a task in turn.
use aivyx_broker.Prelude.{ℕ, ◌≡◌, refl, sym, subst, none, some, List, ◌∷◌, update}
use aivyx_broker.Json.{JsonLaws}
use aivyx_broker.Scheduler.Slots.{slots-release}
use aivyx_broker.Scheduler.System.{gone, receivers}
use aivyx_broker.Scheduler.System.Holding
use aivyx_broker.Server.Upstream.{
  Action, restore, warm_up, save, mark_resident, clear_resident, post, send_head, read, send_chunk,
  abandon, close, release,
}
use aivyx_broker.Broker.{World, Broker, act}
use aivyx_broker.Broker.Invariant.{Inv}
use aivyx_broker.Broker.Coherence.{LlamaServer, Slots, Documented, serve}
use aivyx_broker.Broker.Coherence.Invariant.{Coherent}
use aivyx_broker.Broker.Coherence.Acts.{
  serves-Coherent, records-Coherent, relays-Coherent, releases-Coherent,
}
use aivyx_broker.Broker.Coherence.Serves.{restore-Serves, warm_up-Serves, save-Serves, post-Serves}

module _ (w : World) (laws : JsonLaws w.json) (l : LlamaServer w) (doc : Documented w l) where
  pub act-Coherent :
      (b : Broker w) (t : Slots w l) (i : ℕ) (action : Action w.json) (rest : List (Action w.json))
      → b.job i ≡ action ∷ rest
      → Holding.Inv b.scheduler.inner.slots b.scheduler.stage
      → Inv w b.scheduler.inner.slots b.scheduler.stage b.job
      → Coherent w l b.scheduler.inner.slots t b.scheduler.stage b.job
      → let c = act w b i action rest in
        Coherent w l c.scheduler.inner.slots
          (serve w l i action (b.scheduler.stage i) t)
          c.scheduler.stage
          c.job
  unfolding act serve
  act-Coherent b t i (restore key k) rest e held inv co =
      serves-Coherent w l co held inv i (restore key k) rest e
        (serve w l i (restore key k) (b.scheduler.stage i) t) (λ n. n)
        (restore-Serves w laws l doc i t (b.scheduler.stage i) rest key k)
  act-Coherent b t i (warm_up u v) rest e held inv co =
      serves-Coherent w l co held inv i (warm_up u v) rest e
        (serve w l i (warm_up u v) (b.scheduler.stage i) t) (λ n. n)
        (warm_up-Serves w laws l doc i t (b.scheduler.stage i) rest u v)
  act-Coherent b t i (save key k meta) rest e held inv co =
      serves-Coherent w l co held inv i (save key k meta) rest e
        (serve w l i (save key k meta) (b.scheduler.stage i) t) (λ n. n)
        (save-Serves w laws l doc i t (b.scheduler.stage i) rest key k meta)
  act-Coherent b t i (post u v) rest e held inv co =
      serves-Coherent w l co held inv i (post u v) rest e
        (serve w l i (post u v) (b.scheduler.stage i) t) (λ n. n)
        (post-Serves w laws l doc i t (b.scheduler.stage i) rest u v)
  act-Coherent b t i (mark_resident k m p) rest e held inv co =
      records-Coherent w l co held inv i (mark_resident k m p) rest e k
        (λ s. record s { resident_prefix = some p; resident_model = m }) (some p) m
        (λ s. (refl, refl)) (λ n. n) (λ a o. o.0) (λ a q n known. known)
  act-Coherent b t i (clear_resident k) rest e held inv co =
      records-Coherent w l co held inv i (clear_resident k) rest e k
        (λ s. record s { resident_prefix = none; resident_model = none }) none none
        (λ s. (refl, refl)) (λ n. n) (λ a o. o.0) (λ a q n known. known)
  act-Coherent b t i (release k) rest e held inv co =
      subst (λ x. Coherent w l x t (update b.scheduler.stage i gone) (update b.job i rest))
        (sym (slots-release (receivers b.scheduler) b.scheduler.inner k))
        (releases-Coherent w l co held inv i (release k) rest e k (λ a q n known. known))
  act-Coherent b t i (send_head h) rest e held inv co =
      relays-Coherent w l co held inv i (send_head h) rest e (λ a q n known. known)
  act-Coherent b t i read rest e held inv co =
      relays-Coherent w l co held inv i read rest e (λ a q n known. known)
  act-Coherent b t i (send_chunk c) rest e held inv co =
      relays-Coherent w l co held inv i (send_chunk c) rest e (λ a q n known. known)
  act-Coherent b t i abandon rest e held inv co =
      relays-Coherent w l co held inv i abandon rest e (λ a q n known. known)
  act-Coherent b t i close rest e held inv co =
      relays-Coherent w l co held inv i close rest e (λ a q n known. known)
