-- ===== src/Scheduler/Prefix.antt =====
-- src/scheduler.rs, `is_resident_in`: what the tests of `try_admit_locked` say of a slot's record.
use aivyx_broker.Prelude.{◌≡◌, ◌↔◌, true, Option, none, some, arith, opt_str_eq, opt_str_eq_iff}
use aivyx_broker.Scheduler.{SlotState, SlotHint, ready_for}

-- The slot holds the hinted prefix, computed by the hinted model; never so without a hint.
abbrev pub Holds : Option SlotHint → SlotState → Type 0
Holds none s = ⊥
Holds (some h) s = (s.resident_prefix ≡ some h.prefix_hash) × (s.resident_model ≡ h.model)

pub ready-Holds :
    (hint : Option SlotHint) (s : SlotState) → (ready_for hint s ≡ true) ↔ Holds hint s
ready-Holds none s = ((λ h. cc), (λ h. absurd h))
ready-Holds (some h) s = (
  (λ e. (prefix.0 (ground arith), model.0 (ground arith))),
  (λ g. ground (arith, prefix.1 g.0, model.1 g.1)),
)
  where
    prefix :
        (opt_str_eq s.resident_prefix (some h.prefix_hash) ≡ true)
        ↔ (s.resident_prefix ≡ some h.prefix_hash)
    prefix = opt_str_eq_iff s.resident_prefix (some h.prefix_hash)

    model : (opt_str_eq s.resident_model h.model ≡ true) ↔ (s.resident_model ≡ h.model)
    model = opt_str_eq_iff s.resident_model h.model
