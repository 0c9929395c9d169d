-- ===== src/Broker/Coherence/Panics.antt =====
-- The composition over llama-server, a task that panics: its slot is spoiled, and freed all the same.
use aivyx_broker.Prelude.{
  ℕ, ◌≡◌, refl, ap, sym, ◌∙◌, subst, inl, inr, true, Option, List, [], filter, String, update,
  update_ne, ℕ-cases,
}
use aivyx_broker.Scheduler.{SlotState}
use aivyx_broker.Scheduler.System.{Stage, locking, waiting, holding, timed_out, gone}
use aivyx_broker.Scheduler.System.Holding
use aivyx_broker.Server.Upstream.{Action}
use aivyx_broker.Server.Relay.Unwinding.{unwound, is_close}
use aivyx_broker.Broker.Jobs.{Owes}
use aivyx_broker.Broker.Unwinding.{unwound_lem, closes-Relayed}
use aivyx_broker.Broker.{World, hint}
use aivyx_broker.Broker.Invariant.{Inv, NotHolding, Stage-cases}
use aivyx_broker.Broker.Coherence.{LlamaServer, Slots, spoil, outside, forwarded}
use aivyx_broker.Broker.Coherence.Jobs.{Known, Coheres-Relayed}
use aivyx_broker.Broker.Coherence.Invariant.{Coherent, own-Coherent}
use aivyx_broker.Broker.Coherence.Acts.{Coheres-at}
use aivyx_broker.Broker.Coherence.Serves.{spoiled-own, spoiled-apart}

module _ (w : World) (l : LlamaServer w) where
  abbrev pub spoilt : Stage → Slots w l → Slots w l
  spoilt stage t = record t { spoiled = spoil w l stage t.spoiled }

  spoilt_lem : (stage : Stage) (t : Slots w l) → NotHolding stage → t ≡ spoilt stage t
  spoilt_lem locking t n = refl
  spoilt_lem (waiting c) t n = refl
  spoilt_lem (holding a) t n = absurd (n a refl)
  spoilt_lem timed_out t n = refl
  spoilt_lem gone t n = refl

  unwound-Coheres :
      (i k : ℕ) (known : Known) (prefix model : Option String) (job : List (Action w.json))
      → Owes w.json k job
      → Coheres-at w l i k true known prefix model (unwound w.json job)
  unwound-Coheres i k known prefix model job o =
      subst (Coheres-at w l i k true known prefix model) (sym (unwound_lem w.json k job o)) (
        Coheres-Relayed w.json (outside w i) w.llama_server_url (forwarded w i) (hint w i) k true
          known prefix model (filter (is_close w.json) job) [] (closes-Relayed w.json job)
          (inl refl))

  pub panics-Coherent :
      {slots : List SlotState} {t : Slots w l} {stage : ℕ → Stage} {job : ℕ → List (Action w.json)}
      → Coherent w l slots t stage job
      → Holding.Inv slots stage
      → Inv w slots stage job
      → (i : ℕ)
      → Coherent w l slots (spoilt (stage i) t) stage (update job i (unwound w.json (job i)))
  panics-Coherent {slots} {t} {stage} {job} co held inv i = elim (Stage-cases (stage i)) [
    | inr idle ↦
        subst (λ x. Coherent w l slots x stage (update job i (unwound w.json (job i))))
          (spoilt_lem (stage i) t idle)
          (record {
            tasks = λ j a s h e. elim (ℕ-cases i j) [
              | inl here ↦ absurd (idle a (ap stage here ∙ h))
              | inr other ↦
                  rw (update_ne job i j (unwound w.json (job i)) other) (co.tasks j a s h e)
            ];
            idle = co.idle;
          })
    | inl (a, h) ↦
        own-Coherent w l co i a (unwound w.json (job i)) slots (spoilt (stage i) t) held h
          (λ j apart. refl)
          (λ j apart.
            (spoiled-apart w l true (stage i) a t.spoiled j h apart, λ prefix model there. there))
          (λ s e.
            let (known, knows, _) = co.tasks i a s h e in
            (
              known,
              knows,
              subst
                  (λ x.
                    Coheres-at w l i a.slot_id x known s.resident_prefix s.resident_model
                      (unwound w.json (job i)))
                  (sym (spoiled-own w l true (stage i) a t.spoiled h))
                  (unwound-Coheres i a.slot_id known s.resident_prefix s.resident_model (job i)
                    ((inv i).owes a h)),
            ))
  ]
