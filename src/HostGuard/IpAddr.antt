-- ===== src/HostGuard/IpAddr.antt =====
-- The standard library's parser of IP addresses, `str::parse::<IpAddr>`, as src/host_guard.rs uses
-- it. A reader takes a text to a value and the rest, or fails and has read nothing.
use aivyx_broker.Prelude.{
  ℕ, zero, suc, ◌+◌, ◌-◌, ◌*◌, Bool, true, false, not, ◌&&◌, ◌||◌, Option, none, some, List, [],
  ◌∷◌, ◌++◌, ltb, leb, ◌==◌, if◌then◌else◌, ◌>>=◌, map_option, Text, length, replicate,
}

pub data IpAddr : Type 0 where
  v4 : (a b c d : ℕ) → IpAddr
  v6 : (groups : List ℕ) → IpAddr

abbrev pub dot : ℕ
dot = b'.'

abbrev pub colon : ℕ
colon = b':'

abbrev pub is_digit : ℕ → Bool
is_digit c = leb b'0' c && leb c b'9'

-- `char::to_digit` in radix 10 and 16
abbrev pub decimal : ℕ → Option ℕ
decimal c = if is_digit c then some (c - b'0') else none

abbrev pub hexadecimal : ℕ → Option ℕ
hexadecimal c =
    if is_digit c
    then some (c - b'0')
    else if leb b'a' c && leb c b'f'
    then some (c - b'a' + 10)
    else if leb b'A' c && leb c b'F'
    then some (c - b'A' + 10)
    else none

-- The loop of `read_number`: the value so far and the digits read. It fails on overflow of the
-- number's type, and past `max_digits` digits.
unfoldable pub scan_number : (ℕ → Option ℕ) → ℕ → ℕ → ℕ → Text → ℕ → ℕ → Option (ℕ × ℕ × Text)
scan_number digit radix limit max_digits [] value count = some (value, count, [])
scan_number digit radix limit max_digits (c ∷ s) value count = elim (digit c) [
  | none ↦ some (value, count, c ∷ s)
  | some d ↦
      if leb limit (value * radix + d) || ltb max_digits (count + 1)
      then none
      else scan_number digit radix limit max_digits s (value * radix + d) (count + 1)
]

abbrev pub starts_with_zero : Text → Bool
starts_with_zero [] = false
starts_with_zero (c ∷ s) = c == b'0'

-- The checks after the loop: a digit at least, and no zero in front of others where that counts.
abbrev pub finish_number : Bool → Bool → Option (ℕ × ℕ × Text) → Option (ℕ × Text)
finish_number zero_prefix leading_zero none = none
finish_number zero_prefix leading_zero (some (value, count, rest)) =
    if count == 0 || (not zero_prefix && leading_zero && ltb 1 count)
    then none
    else some (value, rest)

-- An octet: at most three decimal digits, below 256, with no leading zero.
unfoldable pub read_octet : Text → Option (ℕ × Text)
unfolding scan_number
read_octet s = finish_number false (starts_with_zero s) (scan_number decimal 10 256 3 s 0 0)

-- A group of an IPv6 address: at most four hexadecimal digits.
unfoldable pub read_group : Text → Option (ℕ × Text)
unfolding scan_number
read_group s = finish_number true (starts_with_zero s) (scan_number hexadecimal 16 65536 4 s 0 0)

abbrev pub read_char : ℕ → Text → Option Text
read_char c [] = none
read_char c (x ∷ s) = if x == c then some s else none

-- `read_separator`: the separator stands before every item but the first.
abbrev pub read_separator : ℕ → ℕ → Text → Option Text
read_separator c zero s = some s
read_separator c (suc index) s = read_char c s

unfoldable pub read_ipv4 : Text → Option ((ℕ × ℕ × ℕ × ℕ) × Text)
unfolding read_octet
read_ipv4 s = read_octet s >>= λ (a, s₁). read_char dot s₁ >>= λ s₂. read_octet s₂ >>= λ (b, s₃).
    read_char dot s₃ >>= λ s₄. read_octet s₄ >>= λ (c, s₅).
    read_char dot s₅ >>= λ s₆. read_octet s₆ >>= λ (d, s₇). some ((a, b, c, d), s₇)

-- What one round of `read_groups` reads: an embedded IPv4 address where two groups are left, or
-- else a group.
pub data Item : Type 0 where
  embedded : ℕ → ℕ → Text → Item
  group : ℕ → Text → Item
  nothing : Item

read_group_item : ℕ → Text → Item
unfolding read_group
read_group_item index s = elim (read_separator colon index s >>= read_group) [
  | none ↦ nothing
  | some (g, rest) ↦ group g rest
]

read_item : ℕ → ℕ → Text → Item
unfolding read_group_item read_ipv4
read_item index left s =
    if ltb 1 left
    then (elim (read_separator colon index s >>= read_ipv4) [
      | none ↦ read_group_item index s
      | some ((a, b, c, d), rest) ↦ embedded (a * 256 + b) (c * 256 + d) rest
    ])
    else read_group_item index s

-- The groups read, whether the last two came from an embedded IPv4 address, and the rest.
read_groups : ℕ → ℕ → Text → List ℕ × Bool × Text
unfolding read_item
read_groups zero index s = ([], false, s)
read_groups (suc left) index s = elim (read_item index (suc left) s) [
  | nothing ↦ ([], false, s)
  | embedded x y rest ↦ (x ∷ y ∷ [], true, rest)
  | group g rest ↦ let (gs, ipv4, end) = read_groups left (suc index) rest in (g ∷ gs, ipv4, end)
]

-- The head, `::`, and the tail, with zeros between them.
read_tail : List ℕ → Text → Option (List ℕ × Text)
unfolding read_groups
read_tail head s = read_char colon s >>= λ s₁. read_char colon s₁ >>= λ s₂.
    let (tail, ipv4, rest) = read_groups (8 - (length head + 1)) 0 s₂ in
    some (head ++ (replicate (8 - length head - length tail) 0 ++ tail), rest)

unfoldable pub read_ipv6 : Text → Option (List ℕ × Text)
unfolding read_tail
read_ipv6 s =
    let (head, ipv4, rest) = read_groups 8 0 s in
    if length head == 8 then some (head, rest) else if ipv4 then none else read_tail head rest

-- `IpAddr::from_str`: an IPv4 address, or else an IPv6 one, and then the end of the text.
abbrev pub at_end : Option (IpAddr × Text) → Option IpAddr
at_end none = none
at_end (some (ip, [])) = some ip
at_end (some (ip, c ∷ s)) = none

unfoldable pub parse_ip : Text → Option IpAddr
unfolding read_ipv4 read_ipv6
parse_ip s = at_end (elim (read_ipv4 s) [
  | some ((a, b, c, d), rest) ↦ some (v4 a b c d, rest)
  | none ↦ map_option (λ (groups, rest). (v6 groups, rest)) (read_ipv6 s)
])

abbrev pub all_zero : List ℕ → Bool
all_zero [] = true
all_zero (g ∷ gs) = g == 0 && all_zero gs

-- `::1`
abbrev pub is_one : List ℕ → Bool
is_one [] = false
is_one (g ∷ []) = g == 1
is_one (g ∷ h ∷ gs) = g == 0 && is_one (h ∷ gs)

abbrev pub is_loopback : IpAddr → Bool
is_loopback (v4 a b c d) = a == 127
is_loopback (v6 groups) = is_one groups
