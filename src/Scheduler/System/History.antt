-- ===== src/Scheduler/System/History.antt =====
-- src/scheduler.rs: the last tier of `try_admit_locked` against the history of admissions.
use aivyx_broker.Prelude.{
  ℕ, suc, ◌+◌, ◌^◌, ◌<◌, ◌≡◌, refl, ◌∙◌, inl, inr, Bool, Option, none, some, List, [], ◌∷◌, ◌==◌,
  if◌then◌else◌, arith, u64, length, get_elem?, modify, get_elem?-modify, Option-cases, Bool-cases,
}
use aivyx_broker.Scheduler.{
  SlotState, SlotHint, Admission, Inner, claimed, claim, release, reconcile_seeded_idle, enqueue,
  wake_waiters_for, admit_locked,
}
use aivyx_broker.Scheduler.System.{
  System, Step, locks, wakes, expires, hangs_up, finishes, reconciles, marks, clears, init, seeded,
}

-- The slots admitted onto, the latest first, and how many admissions there were up to the last one
-- onto a slot: none if there was none.
abbrev pub History : Type 0
History = List ℕ

abbrev pub last_admission : History → ℕ → ℕ
last_admission [] k = 0
last_admission (x ∷ hist) k = if x == k then suc (length hist) else last_admission hist k

abbrev pub note : Option Admission → History → History
note none hist = hist
note (some a) hist = a.slot_id ∷ hist

module _ (hint : ℕ → Option SlotHint) where
  -- What `try_admit_locked` answers to request `i`.
  abbrev pub answer : System → ℕ → Option Admission
  answer s i = (admit_locked s.inner (hint i) s.next_channel).1

  unfoldable pub noted : {s t : System} → Step hint s t → History → History
  noted {s} (locks i e) hist = note (answer s i) hist
  noted (wakes i c e h) hist = hist
  noted (expires i c e h) hist = hist
  noted (hangs_up i c e) hist = hist
  noted (finishes i a e) hist = hist
  noted (reconciles k) hist = hist
  noted (marks k model prefix) hist = hist
  noted (clears k) hist = hist

  -- The reachable states, with the history of admissions.
  pub data Run (n : ℕ) (processing : List ℕ) : History → System → Type 0 where
    start : Run n processing [] (init n processing)
    later :
        {s t : System} {hist : History}
        → Run n processing hist s
        → (st : Step hint s t) → Run n processing (noted st hist) t

-- The clock counts the admissions, and each slot is stamped with its last one.
pub record Dated (hist : History) (inner : Inner) : Type 0 where
  pub clock : inner.clock ≡ length hist
  pub stamps :
      (k : ℕ) (t : SlotState)
      → get_elem? inner.slots k ≡ some t
      → t.last_used ≡ last_admission hist k

clock-wake_waiters_for :
    (receiving : ℕ → Bool) (inner : Inner) (k : ℕ)
    → (wake_waiters_for receiving inner k).0.clock ≡ inner.clock
unfolding wake_waiters_for
clock-wake_waiters_for receiving inner k = ground arith

pub clock-release :
    (receiving : ℕ → Bool) (inner : Inner) (k : ℕ)
    → (release receiving inner k).0.clock ≡ inner.clock
unfolding release
clock-release receiving inner k = elim (Option-cases (get_elem? inner.slots k)) [
  | inl e ↦ rw (e, release) refl
  | inr (s, e) ↦ rw (e, release) (clock-wake_waiters_for receiving _ k)
]

pub clock-reconcile_seeded_idle :
    (receiving : ℕ → Bool) (inner : Inner) (k : ℕ)
    → (reconcile_seeded_idle receiving inner k).0.clock ≡ inner.clock
unfolding reconcile_seeded_idle
clock-reconcile_seeded_idle receiving inner k = elim (Option-cases (get_elem? inner.slots k)) [
  | inl e ↦ rw (e, reconcile_seeded_idle) refl
  | inr (s, e) ↦ elim (Bool-cases s.seeded_unowned) [
    | inl seeded ↦ rw (e, reconcile_seeded_idle, seeded) (clock-wake_waiters_for receiving _ k)
    | inr owned ↦ rw (e, reconcile_seeded_idle, owned) refl
  ]
]

pub clock-enqueue :
    (inner : Inner) (hint : Option SlotHint) (tx : ℕ) → (enqueue inner hint tx).clock ≡ inner.clock
unfolding enqueue
clock-enqueue inner hint tx = ground arith

-- The table changes at a slot, but not its stamp.
pub frame-Dated :
    {hist : History} {inner : Inner} (inner' : Inner) (k : ℕ) (f : SlotState → SlotState)
    → inner'.slots ≡ modify inner.slots k f
    → inner'.clock ≡ inner.clock
    → ((t : SlotState) → (f t).last_used ≡ t.last_used)
    → Dated hist inner
    → Dated hist inner'
frame-Dated {hist} {inner} inner' k f slots clock same dated = record {
  clock = clock ∙ dated.clock;
  stamps = λ j t e. elim (Option-cases (get_elem? inner.slots j)) [
    | inl n ↦ absurd (ground (arith, n, slots, e, get_elem?-modify inner.slots k j f))
    | inr (u, q) ↦
        ground (arith, q, slots, e, same u, dated.stamps j u q, get_elem?-modify inner.slots k j f)
  ];
}

pub claim-Dated :
    {hist : History} {inner : Inner} (k : ℕ)
    → length hist + 1 < 2 ^ 64
    → Dated hist inner
    → Dated (k ∷ hist) (claim inner k)
unfolding claim
claim-Dated {hist} {inner} k small dated = record {
  clock = omega (arith, dated.clock);
  stamps = λ j t e. elim (Option-cases (get_elem? inner.slots j)) [
    | inl n ↦
        absurd
          (ground (arith, n, e, get_elem?-modify inner.slots k j (claimed (u64 (inner.clock + 1)))))
    | inr (u, q) ↦ ground (
      arith,
      q,
      e,
      dated.clock,
      dated.stamps j u q,
      get_elem?-modify inner.slots k j (claimed (u64 (inner.clock + 1))),
    )
  ];
}
