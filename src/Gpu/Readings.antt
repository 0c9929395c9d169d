-- ===== src/Gpu/Readings.antt =====
-- src/gpu.rs: what `nvidia-smi`'s lines and the AMD driver's files add up to.
use aivyx_broker.Prelude.{
  ℕ, ◌+◌, ◌^◌, ◌≤◌, ◌<◌, ◌≡◌, refl, ap, ◌∙◌, get_elem?, not, Option, none, some, List, [], ◌∷◌, leb,
  ◌>>=◌, u64, filter, collect_map, Text, arith, Option-cases, inl, inr, ◌⊎◌, Bool-cases, zero, suc,
  subst, sym,
}
use aivyx_broker.Gpu.{
  Vram, parse_line, parse_lines, parse_nvidia_smi, plus, zero_vram, is_empty, greatest_from,
  max_by_total, read_amd, Card, filter_map, vram_of, is_card,
}
use aivyx_broker.Gpu.Whitespace.{trim, lines}

abbrev pub total_of : (Vram → ℕ) → List Vram → ℕ
total_of field [] = 0
total_of field (v ∷ vs) = field v + total_of field vs

-- The sum of the memory of some GPUs, at 64 bits, or nothing without a GPU.
abbrev pub summed : List Vram → Option Vram
summed [] = none
summed (v ∷ vs) = some (record {
  total_bytes = u64 (total_of (λ x. x.total_bytes) (v ∷ vs));
  used_bytes = u64 (total_of (λ x. x.used_bytes) (v ∷ vs));
})

abbrev summed_on : Vram → List Vram → Vram
summed_on sum vs = record {
  total_bytes = u64 (sum.total_bytes + total_of (λ x. x.total_bytes) vs);
  used_bytes = u64 (sum.used_bytes + total_of (λ x. x.used_bytes) vs);
}

abbrev Fits : Vram → Type 0
Fits v = (v.total_bytes < 2 ^ 64) × (v.used_bytes < 2 ^ 64)

abbrev sized : ℕ → ℕ → Vram
sized t u = record { total_bytes = t; used_bytes = u }

u64-id : (a : ℕ) → a < 2 ^ 64 → a ≡ u64 (a + 0)
u64-id a h = omega arith

u64-plus : (a b c : ℕ) → u64 (u64 (a + b) + c) ≡ u64 (a + (b + c))
u64-plus a b c = omega arith

u64-Fits : (a : ℕ) → u64 a < 2 ^ 64
u64-Fits a = omega arith

summed_on-nil : (sum : Vram) → Fits sum → sum ≡ summed_on sum []
summed_on-nil sum (t, u) =
    ap (λ x. sized x sum.used_bytes) (u64-id sum.total_bytes t)
    ∙ ap (sized (u64 (sum.total_bytes + 0))) (u64-id sum.used_bytes u)

summed_on-plus :
    (sum v : Vram) (vs : List Vram) → summed_on (plus sum v) vs ≡ summed_on sum (v ∷ vs)
summed_on-plus sum v vs =
    ap (λ x. sized x (summed_on (plus sum v) vs).used_bytes)
      (u64-plus sum.total_bytes v.total_bytes (total_of (λ x. x.total_bytes) vs))
    ∙ ap (sized (summed_on sum (v ∷ vs)).total_bytes)
        (u64-plus sum.used_bytes v.used_bytes (total_of (λ x. x.used_bytes) vs))

-- A line that parses fits 64 bits.
parse_lines-sum :
    (ls : List Text) (sum : Vram)
    → Fits sum
    → parse_lines ls (some sum) ≡ (collect_map parse_line ls >>= λ vs. some (summed_on sum vs))
unfolding parse_lines collect_map
parse_lines-sum [] sum fits = ap some (summed_on-nil sum fits)
parse_lines-sum (l ∷ ls) sum fits = elim (Option-cases (parse_line l)) [
  | inl n ↦ ground (arith, n)
  | inr (v, e) ↦
      let rest =
        parse_lines-sum ls (plus sum v)
          (u64-Fits (sum.total_bytes + v.total_bytes), u64-Fits (sum.used_bytes + v.used_bytes)) in
      elim (Option-cases (collect_map parse_line ls)) [
        | inl n ↦ ground (arith, n, e, rest)
        | inr (vs, f) ↦ ground (arith, e, f, rest, summed_on-plus sum v vs)
      ]
]

-- The output of `nvidia-smi` gives the sum of its lines that are not blank, at 64 bits; a single one
-- of these that is malformed makes the memory unknown, and so does an output without any.
pub parse_nvidia_smi-sum :
    (out : Text)
    → parse_nvidia_smi out
      ≡ (collect_map parse_line (filter (λ l. not (is_empty (trim l))) (lines out)) >>= summed)
unfolding parse_nvidia_smi parse_lines collect_map
parse_nvidia_smi-sum out = of_lines (filter (λ l. not (is_empty (trim l))) (lines out))
  where
    of_lines : (ls : List Text) → parse_lines ls none ≡ (collect_map parse_line ls >>= summed)
    of_lines [] = refl
    of_lines (l ∷ ls) = elim (Option-cases (parse_line l)) [
      | inl n ↦ ground (arith, n)
      | inr (v, e) ↦
          let rest =
            parse_lines-sum ls (plus zero_vram v)
              (u64-Fits (0 + v.total_bytes), u64-Fits (0 + v.used_bytes)) in
          elim (Option-cases (collect_map parse_line ls)) [
            | inl n ↦ ground (arith, n, e, rest)
            | inr (vs, f) ↦ ground (arith, e, f, rest, summed_on-plus zero_vram v vs)
          ]
    ]

-- The memory of each card that can be read.
abbrev pub readable : List (Option Card) → List Vram
readable entries = filter_map vram_of (filter is_card (filter_map (λ e. e) entries))

-- The last of the greatest: no card before it has more, and every card after it has less.
pub record Greatest (vs : List Vram) (b : Vram) : Type 0 where
  pub index : ℕ
  pub found : get_elem? vs index ≡ some b
  pub most :
      (i : ℕ) (v : Vram)
      → get_elem? vs i ≡ some v
      → (v.total_bytes ≤ b.total_bytes) × (index < i → v.total_bytes < b.total_bytes)

abbrev Most : List Vram → Vram → ℕ → Type 0
Most vs b index =
    (i : ℕ) (v : Vram)
    → get_elem? vs i ≡ some v
    → (v.total_bytes ≤ b.total_bytes) × (index < i → v.total_bytes < b.total_bytes)

Most-single : (b : Vram) → Most (b ∷ []) b 0
Most-single b zero v e = ground arith
Most-single b (suc i) v e = absurd cc

Most-greater :
    (best v b : Vram) (vs : List Vram) (index : ℕ)
    → best.total_bytes ≤ v.total_bytes
    → Most (v ∷ vs) b index
    → Most (best ∷ v ∷ vs) b (suc index)
Most-greater best v b vs index l most zero w e = ground (arith, l, most 0 v refl)
Most-greater best v b vs index l most (suc i) w e =
    ((most i w e).0, (λ lt. (most i w e).1 (omega (arith, lt))))

-- An index behind an element put in at the second place.
abbrev behind : ℕ → ℕ
behind zero = zero
behind (suc i) = suc (suc i)

Most-smaller :
    (best v b : Vram) (vs : List Vram) (index : ℕ)
    → v.total_bytes < best.total_bytes
    → Most (best ∷ vs) b index
    → Most (best ∷ v ∷ vs) b (behind index)
Most-smaller best v b vs zero l most zero w e = ground (arith, most 0 w e)
Most-smaller best v b vs (suc index) l most zero w e = ground (arith, most 0 w e)
Most-smaller best v b vs index l most (suc zero) w e = ground (arith, l, most 0 best refl)
Most-smaller best v b vs zero l most (suc (suc i)) w e =
    ((most (suc i) w e).0, (λ lt. (most (suc i) w e).1 (omega arith)))
Most-smaller best v b vs (suc index) l most (suc (suc i)) w e =
    ((most (suc i) w e).0, (λ lt. (most (suc i) w e).1 (omega (arith, lt))))

get_elem?-behind :
    (best v b : Vram) (vs : List Vram) (index : ℕ)
    → get_elem? (best ∷ vs) index ≡ some b
    → get_elem? (best ∷ v ∷ vs) (behind index) ≡ some b
get_elem?-behind best v b vs zero e = e
get_elem?-behind best v b vs (suc index) e = e

greatest_from-Greatest :
    (best : Vram) (vs : List Vram) → Greatest (best ∷ vs) (greatest_from best vs)
unfolding greatest_from
greatest_from-Greatest best [] = record { index = 0; found = refl; most = Most-single best }
greatest_from-Greatest best (v ∷ vs) = elim (Bool-cases (leb best.total_bytes v.total_bytes)) [
  | inl l ↦
      let g = greatest_from-Greatest v vs in
      let same : greatest_from v vs ≡ greatest_from best (v ∷ vs) = ground (arith, l) in
      subst (Greatest (best ∷ v ∷ vs)) same (record {
        index = suc g.index;
        found = g.found;
        most = Most-greater best v (greatest_from v vs) vs g.index (ground (arith, l)) g.most;
      })
  | inr l ↦
      let g = greatest_from-Greatest best vs in
      let same : greatest_from best vs ≡ greatest_from best (v ∷ vs) = ground (arith, l) in
      subst (Greatest (best ∷ v ∷ vs)) same (record {
        index = behind g.index;
        found = get_elem?-behind best v (greatest_from best vs) vs g.index g.found;
        most = Most-smaller best v (greatest_from best vs) vs g.index (ground (arith, l)) g.most;
      })
]

-- The AMD memory is that of one of the cards that can be read, and of these the last with the
-- greatest total; it is unknown only if no card can be read.
pub read_amd-Greatest :
    (entries : List (Option Card))
    → ((read_amd (some entries) ≡ none) × (readable entries ≡ []))
      ⊎ ((b : Vram) × (read_amd (some entries) ≡ some b) × Greatest (readable entries) b)
unfolding read_amd max_by_total
read_amd-Greatest entries = of_cards (readable entries) refl
  where
    of_cards :
        (vs : List Vram)
        → readable entries ≡ vs
        → ((max_by_total (readable entries) ≡ none) × (readable entries ≡ []))
          ⊎ ((b : Vram) × (max_by_total (readable entries) ≡ some b)
              × Greatest (readable entries) b)
    of_cards [] e = inl (ap max_by_total e, e)
    of_cards (v ∷ vs) e = inr (
      greatest_from v vs,
      ap max_by_total e,
      subst (λ l. Greatest l (greatest_from v vs)) (sym e) (greatest_from-Greatest v vs),
    )
