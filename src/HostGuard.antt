-- ===== src/HostGuard.antt =====
-- src/host_guard.rs: which `Host` headers a request may carry.
pub mod IpAddr
pub mod Ports
pub mod Dotted
mod Examples
use aivyx_broker.Prelude.{
  ℕ, ◌+◌, Bool, true, false, not, ◌&&◌, Option, none, some, List, [], ◌∷◌, map, leb, ◌==◌,
  if◌then◌else◌, any, Text, codes,
}
use aivyx_broker.Http.{Response, error}
use IpAddr.{is_digit, colon, parse_ip, is_loopback}

abbrev pub bracket : ℕ
bracket = b'['

abbrev pub close_bracket : ℕ
close_bracket = b']'

-- `str::eq_ignore_ascii_case`
abbrev pub lowercase : ℕ → ℕ
lowercase c = if leb b'A' c && leb c b'Z' then c + 32 else c

unfoldable pub text_eq : Text → Text → Bool
text_eq [] [] = true
text_eq [] (d ∷ t) = false
text_eq (c ∷ s) [] = false
text_eq (c ∷ s) (d ∷ t) = c == d && text_eq s t

unfoldable pub eq_ignore_ascii_case : Text → Text → Bool
unfolding text_eq
eq_ignore_ascii_case s t = text_eq (map lowercase s) (map lowercase t)

-- `split(c).next()`: the text in front of the first `c`
unfoldable pub before : ℕ → Text → Text
before c [] = []
before c (x ∷ s) = if x == c then [] else x ∷ before c s

-- `rsplit_once(c)`: what stands before and after the last `c`
unfoldable pub rsplit_once : ℕ → Text → Option (Text × Text)
rsplit_once c [] = none
rsplit_once c (x ∷ s) = elim (rsplit_once c s) [
  | some (h, t) ↦ some (x ∷ h, t)
  | none ↦ if x == c then some ([], s) else none
]

unfoldable pub all_digits : Text → Bool
all_digits [] = true
all_digits (c ∷ s) = is_digit c && all_digits s

abbrev pub is_port : Text → Bool
is_port [] = false
is_port (c ∷ s) = all_digits (c ∷ s)

-- The part of `strip_port` for a host that does not start with a bracket.
unfoldable pub strip_plain_port : Text → Text
unfolding rsplit_once all_digits
strip_plain_port host = elim (rsplit_once colon host) [
  | none ↦ host
  | some (h, port) ↦ if is_port port then h else host
]

unfoldable pub strip_port : Text → Text
unfolding before strip_plain_port
strip_port [] = []
strip_port (c ∷ rest) =
    if c == bracket then before close_bracket rest else strip_plain_port (c ∷ rest)

unfoldable pub is_loopback_host : Text → Bool
unfolding eq_ignore_ascii_case parse_ip
is_loopback_host host =
    if eq_ignore_ascii_case host (codes "localhost")
    then true
    else elim (parse_ip host) [ none ↦ false | some ip ↦ is_loopback ip ]

unfoldable pub host_is_allowed : Text → List Text → Bool
unfolding strip_port is_loopback_host any
host_is_allowed host_header extra_allowed_hosts =
    let host = strip_port host_header in
    if is_loopback_host host
    then true
    else any (λ allowed. eq_ignore_ascii_case allowed host) extra_allowed_hosts

abbrev pub misdirected : Response
misdirected = record {
  status = 421;
  body = error "Host header not allowed: this broker only serves loopback requests";
}

-- The middleware: `host_header` is the header's text if it has one that is plain text, and `next`
-- runs the rest of the server on its state.
unfoldable pub enforce_allowed_host {ℓ} :
    {S : Type ℓ} → List Text → Option Text → (S → S × Response) → S → S × Response
enforce_allowed_host allowed_hosts none next state = (state, misdirected)
enforce_allowed_host allowed_hosts (some host) next state =
    elim (host_is_allowed host allowed_hosts) [ true ↦ next state | false ↦ (state, misdirected) ]
