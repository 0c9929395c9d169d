-- ===== src/HostGuard/Dotted.antt =====
-- src/host_guard.rs: `Host` headers that are an IPv4 address in its printed form.
use aivyx_broker.Prelude.{
  ℕ, ◌+◌, ◌*◌, ◌/◌, ◌%◌, ◌<◌, ◌≡◌, refl, subst, ◌∙◌, true, false, ◌||◌, some, List, [], ◌∷◌, ◌++◌,
  ◌==◌, ltb, any, elem, elem-append, Text, arith, if◌then◌else◌, codes, Bool-cases, inl, inr,
}
use mathlib.Core.List.{append-nil}
use aivyx_broker.Http.{Response}
use aivyx_broker.HostGuard.{
  is_port, eq_ignore_ascii_case, text_eq, is_loopback_host, enforce_allowed_host,
}
use aivyx_broker.HostGuard.Ports.{starts_with_bracket, guarded, enforce_allowed_host-name}
use aivyx_broker.HostGuard.IpAddr.{
  v4, dot, colon, is_digit, decimal, scan_number, read_octet, read_ipv4, parse_ip,
}

-- The text does not start with a digit.
abbrev pub Ends : Text → Type 0
Ends [] = Unit
Ends (c ∷ s) = is_digit c ≡ false

abbrev pub digit : ℕ → ℕ
digit d = b'0' + d

scan_stops : (s : Text) (v n : ℕ) → Ends s → scan_number decimal 10 256 3 s v n ≡ some (v, n, s)
unfolding scan_number
scan_stops [] v n e = refl
scan_stops (c ∷ s) v n e = ground (arith, e)

scan_digit :
    (d : ℕ) (s : Text) (v n : ℕ)
    → d < 10
    → v * 10 + d < 256
    → n < 3
    → scan_number decimal 10 256 3 (digit d ∷ s) v n
      ≡ scan_number decimal 10 256 3 s (v * 10 + d) (n + 1)
unfolding scan_number
scan_digit d s v n small fits few = ground arith

-- `Display` of an octet: its decimal digits, with no leading zero.
unfoldable pub print_octet : ℕ → Text
print_octet n =
    if ltb n 10
    then digit n ∷ []
    else if ltb n 100
    then digit (n / 10) ∷ digit (n % 10) ∷ []
    else digit (n / 100) ∷ digit (n / 10 % 10) ∷ digit (n % 10) ∷ []

read_octet-print :
    (n : ℕ) (s : Text) → n < 256 → Ends s → read_octet (print_octet n ++ s) ≡ some (n, s)
unfolding read_octet print_octet
read_octet-print n s small e = elim (Bool-cases (ltb n 10)) [
  | inl one ↦ ground (arith, one, scan_digit n s 0 0, scan_stops s n 1 e)
  | inr more ↦ elim (Bool-cases (ltb n 100)) [
    | inl two ↦ ground (
      arith,
      more,
      two,
      scan_digit (n / 10) (digit (n % 10) ∷ s) 0 0,
      scan_digit (n % 10) s (n / 10) 1,
      scan_stops s n 2 e,
    )
    | inr three ↦ ground (
      arith,
      more,
      three,
      scan_digit (n / 100) (digit (n / 10 % 10) ∷ digit (n % 10) ∷ s) 0 0,
      scan_digit (n / 10 % 10) (digit (n % 10) ∷ s) (n / 100) 1,
      scan_digit (n % 10) s (n / 100 * 10 + n / 10 % 10) 2,
      scan_stops s n 3 e,
    )
  ]
]

last_octet : (n : ℕ) → n < 256 → read_octet (print_octet n) ≡ some (n, [])
last_octet n small =
    subst (λ t. read_octet t ≡ some (n, [])) (append-nil (print_octet n))
      (read_octet-print n [] small tt)

-- `Display` of an IPv4 address.
abbrev pub octet_before : ℕ → Text → Text
octet_before n rest = print_octet n ++ (dot ∷ rest)

abbrev pub print_ipv4 : ℕ → ℕ → ℕ → ℕ → Text
print_ipv4 a b c d = octet_before a (octet_before b (octet_before c (print_octet d)))

read_ipv4_octets :
    (s t u v : Text) (a b c d : ℕ)
    → read_octet s ≡ some (a, dot ∷ t)
    → read_octet t ≡ some (b, dot ∷ u)
    → read_octet u ≡ some (c, dot ∷ v)
    → read_octet v ≡ some (d, [])
    → read_ipv4 s ≡ some ((a, b, c, d), [])
unfolding read_ipv4
read_ipv4_octets s t u v a b c d p q r e = ground (arith, p, q, r, e)

octet-no_colon : (n : ℕ) → n < 256 → elem colon (print_octet n) ≡ false
unfolding elem print_octet
octet-no_colon n small = ground arith

octet_before-no_colon :
    (n : ℕ) (rest : Text)
    → n < 256
    → elem colon rest ≡ false
    → elem colon (octet_before n rest) ≡ false
unfolding elem
octet_before-no_colon n rest small e =
    ground (arith, elem-append colon (print_octet n) (dot ∷ rest), octet-no_colon n small, e)

module _ (a b c d : ℕ) (sa : a < 256) (sb : b < 256) (sc : c < 256) (sd : d < 256) where
  read_ipv4-print : read_ipv4 (print_ipv4 a b c d) ≡ some ((a, b, c, d), [])
  read_ipv4-print =
      let from_d = print_octet d in
      let from_c = octet_before c from_d in
      let from_b = octet_before b from_c in
      read_ipv4_octets (print_ipv4 a b c d) from_b from_c from_d a b c d
        (read_octet-print a (dot ∷ from_b) sa refl) (read_octet-print b (dot ∷ from_c) sb refl)
        (read_octet-print c (dot ∷ from_d) sc refl) (last_octet d sd)

  parse_ip-print : parse_ip (print_ipv4 a b c d) ≡ some (v4 a b c d)
  unfolding parse_ip
  parse_ip-print = rw read_ipv4-print refl

  no_colon : elem colon (print_ipv4 a b c d) ≡ false
  no_colon =
      let from_d = print_octet d in
      let from_c = octet_before c from_d in
      octet_before-no_colon a (octet_before b from_c) sa (
        octet_before-no_colon b from_c sb (octet_before-no_colon c from_d sc (octet-no_colon d sd)))

  no_bracket : starts_with_bracket (print_ipv4 a b c d) ≡ false
  unfolding print_octet
  no_bracket = ground arith

  not_localhost : eq_ignore_ascii_case (print_ipv4 a b c d) (codes "localhost") ≡ false
  unfolding print_octet eq_ignore_ascii_case text_eq
  not_localhost = ground arith

  is_loopback_host-print : is_loopback_host (print_ipv4 a b c d) ≡ (a == 127)
  unfolding is_loopback_host
  is_loopback_host-print = rw (not_localhost, parse_ip-print) refl

  -- An IPv4 address, printed with its four octets in decimal, is read back as those octets; and the
  -- guard runs the rest of the server on a request for it, with any port or none, exactly if the
  -- first octet is 127 or the address is listed, and otherwise answers 421 and leaves the state.
  pub enforce_allowed_host-print_ipv4 {ℓ} :
      {S : Type ℓ} (allowed_hosts : List Text) (next : S → S × Response) (state : S) (port : Text)
      → is_port port ≡ true
      → let h = print_ipv4 a b c d in
        let served = a == 127 || any (λ allowed. eq_ignore_ascii_case allowed h) allowed_hosts in
        (parse_ip h ≡ some (v4 a b c d))
        × (enforce_allowed_host allowed_hosts (some (h ++ colon ∷ port)) next state
            ≡ guarded allowed_hosts next state served)
        × (enforce_allowed_host allowed_hosts (some h) next state
            ≡ guarded allowed_hosts next state served)
  enforce_allowed_host-print_ipv4 allowed_hosts next state port p =
      let h = print_ipv4 a b c d in
      let (ported, bare) =
        enforce_allowed_host-name allowed_hosts next state h port no_bracket no_colon p in
      (
        parse_ip-print,
        ported ∙ rw is_loopback_host-print refl,
        bare ∙ rw is_loopback_host-print refl,
      )
