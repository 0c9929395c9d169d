-- ===== src/Gpu/Whitespace.antt =====
-- The standard library's text functions that src/gpu.rs calls: `trim`, `lines`, `split_once` and the
-- parser of `u64`.
use aivyx_broker.Prelude.{
  ℕ, ◌+◌, ◌-◌, ◌*◌, ◌^◌, Bool, false, not, ◌&&◌, ◌||◌, Option, none, some, List, [], ◌∷◌, leb, ◌==◌,
  if◌then◌else◌, Text,
}
use aivyx_broker.HostGuard.IpAddr.{is_digit}

-- `char::is_whitespace`: Unicode's White_Space
abbrev pub is_whitespace : ℕ → Bool
is_whitespace c =
    (leb 9 c && leb c 13)
    || (c == 32)
    || (c == 133)
    || (c == 160)
    || (c == 5760)
    || (leb 8192 c && leb c 8202)
    || (c == 8232)
    || (c == 8233)
    || (c == 8239)
    || (c == 8287)
    || (c == 12288)

unfoldable pub trim_start : Text → Text
trim_start [] = []
trim_start (c ∷ s) = if is_whitespace c then trim_start s else c ∷ s

unfoldable pub trim_end : Text → Text
trim_end [] = []
trim_end (c ∷ s) = elim (trim_end s) [
  | [] ↦ if is_whitespace c then [] else c ∷ []
  | d ∷ t ↦ c ∷ d ∷ t
]

unfoldable pub trim : Text → Text
unfolding trim_start trim_end
trim s = trim_end (trim_start s)

-- `split_once(c)`: what stands before and after the first `c`
unfoldable pub split_once : ℕ → Text → Option (Text × Text)
split_once c [] = none
split_once c (x ∷ s) = elim (split_once c s) [
  | none ↦ if x == c then some ([], s) else none
  | some (h, t) ↦ if x == c then some ([], s) else some (x ∷ h, t)
]

-- `lines`: split after each line feed, a carriage return before it dropped; nothing follows the
-- last line feed.
abbrev pub line_feed : ℕ
line_feed = 10

-- A character in front of the lines of a text, when the text ended with a line feed or not.
abbrev pub push_char : ℕ → List Text → List Text
push_char c [] = (c ∷ []) ∷ []
push_char c (l ∷ ls) = (c ∷ l) ∷ ls

abbrev pub at_line_feed : Text → Bool
at_line_feed [] = false
at_line_feed (c ∷ s) = c == line_feed

unfoldable pub lines : Text → List Text
lines [] = []
lines (c ∷ s) =
    if c == line_feed
    then [] ∷ lines s
    else if (c == 13) && at_line_feed s
    then lines s
    else push_char c (lines s)

-- The digits of a `u64`; none on another character, and on overflow.
unfoldable pub digits : Text → ℕ → Option ℕ
digits [] value = some value
digits (c ∷ s) value =
    if not (is_digit c) || leb (2 ^ 64) (value * 10 + (c - b'0'))
    then none
    else digits s (value * 10 + (c - b'0'))

-- A digit at least.
abbrev pub some_digits : Text → Option ℕ
some_digits [] = none
some_digits (c ∷ s) = digits (c ∷ s) 0

-- `str::parse::<u64>`: a plus sign may stand in front.
unfoldable pub parse_u64 : Text → Option ℕ
unfolding digits
parse_u64 [] = none
parse_u64 (c ∷ s) = if c == b'+' then some_digits s else some_digits (c ∷ s)
