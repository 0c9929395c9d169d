-- ===== src/Gpu.antt =====
-- src/gpu.rs: the host's GPU memory, from `nvidia-smi` or from the files of the AMD driver. What the
-- command prints, and what the files hold, is text of the outside; sizes wrap at 64 bits.
pub mod Whitespace
pub mod Deadline
pub mod Readings
mod Examples
use aivyx_broker.Prelude.{
  ℕ, ◌+◌, ◌-◌, ◌*◌, Bool, true, false, not, ◌&&◌, Option, none, some, List, [], ◌∷◌, leb, ◌==◌,
  if◌then◌else◌, ◌>>=◌, u64, filter, elem, Text, codes,
}
use Whitespace.{trim, lines, split_once, parse_u64}

abbrev pub mib : ℕ
mib = 1024 * 1024

pub record Vram : Type 0 where
  pub total_bytes : ℕ
  pub used_bytes : ℕ

-- Where to read VRAM from; `no_source` is the variant `None`.
pub data VramSource : Type 0 where
  auto nvidia amd no_source : VramSource

-- One line of `nvidia-smi`: the total and the used memory, in MiB.
unfoldable pub parse_line : Text → Option Vram
unfolding trim split_once parse_u64
parse_line line = split_once b',' line >>= λ (total, used). parse_u64 (trim total) >>= λ t.
    parse_u64 (trim used) >>= λ u.
    some (record { total_bytes = u64 (t * mib); used_bytes = u64 (u * mib) })

-- `vram.get_or_insert(zero)` and the two additions
abbrev pub plus : Vram → Vram → Vram
plus a b = record {
  total_bytes = u64 (a.total_bytes + b.total_bytes);
  used_bytes = u64 (a.used_bytes + b.used_bytes);
}

abbrev pub zero_vram : Vram
zero_vram = record { total_bytes = 0; used_bytes = 0 }

abbrev pub add_to : Option Vram → Vram → Vram
add_to none line = plus zero_vram line
add_to (some sum) line = plus sum line

unfoldable pub parse_lines : List Text → Option Vram → Option Vram
unfolding parse_line
parse_lines [] vram = vram
parse_lines (line ∷ rest) vram = elim (parse_line line) [
  | none ↦ none
  | some v ↦ parse_lines rest (some (add_to vram v))
]

abbrev pub is_empty : Text → Bool
is_empty [] = true
is_empty (c ∷ s) = false

unfoldable pub parse_nvidia_smi : Text → Option Vram
unfolding parse_lines trim lines filter
parse_nvidia_smi out = parse_lines (filter (λ l. not (is_empty (trim l))) (lines out)) none

-- An entry of the driver's directory, and what its two files hold, if they can be read.
pub record Card : Type 0 where
  pub name : Text
  pub mem_info_vram_total : Option Text
  pub mem_info_vram_used : Option Text

abbrev pub starts_with : Text → Text → Bool
starts_with [] s = true
starts_with (c ∷ p) [] = false
starts_with (c ∷ p) (d ∷ s) = c == d && starts_with p s

-- A card, and not a connector of one.
unfoldable pub is_card : Card → Bool
unfolding elem
is_card e = starts_with (codes "card") e.name && not (elem b'-' e.name)

unfoldable pub read_u64 : Option Text → Option ℕ
unfolding trim parse_u64
read_u64 file = file >>= λ s. parse_u64 (trim s)

unfoldable pub vram_of : Card → Option Vram
unfolding read_u64
vram_of e = read_u64 e.mem_info_vram_total >>= λ t.
    read_u64 e.mem_info_vram_used >>= λ u. some (record { total_bytes = t; used_bytes = u })

abbrev pub filter_map {ℓ κ} : {A : Type ℓ} {B : Type κ} → (A → Option B) → List A → List B
filter_map f [] = []
filter_map f (x ∷ xs) = elim (f x) [ none ↦ filter_map f xs | some y ↦ y ∷ filter_map f xs ]

-- `max_by_key`: of several greatest, the last.
unfoldable pub greatest_from : Vram → List Vram → Vram
greatest_from best [] = best
greatest_from best (v ∷ vs) =
    greatest_from (if leb best.total_bytes v.total_bytes then v else best) vs

unfoldable pub max_by_total : List Vram → Option Vram
unfolding greatest_from
max_by_total [] = none
max_by_total (v ∷ vs) = some (greatest_from v vs)

-- `amd`, on the entries of the directory if it can be read, of which some may fail.
unfoldable pub read_amd : Option (List (Option Card)) → Option Vram
unfolding max_by_total vram_of is_card filter
read_amd entries =
    entries >>= λ es. max_by_total (filter_map vram_of (filter is_card (filter_map (λ e. e) es)))

abbrev pub or_else {ℓ} : {A : Type ℓ} → Option A → Option A → Option A
or_else none o = o
or_else (some a) o = some a

-- `nvidia`, on what the command printed if it ended well in time.
abbrev pub read_nvidia : Option Text → Option Vram
read_nvidia out = out >>= parse_nvidia_smi

-- `SystemGpuProbe::vram`
unfoldable pub vram : VramSource → Option Text → Option (List (Option Card)) → Option Vram
unfolding parse_nvidia_smi read_amd
vram no_source out entries = none
vram nvidia out entries = read_nvidia out
vram amd out entries = read_amd entries
vram auto out entries = or_else (read_nvidia out) (read_amd entries)
