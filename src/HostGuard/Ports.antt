-- ===== src/HostGuard/Ports.antt =====
-- src/host_guard.rs: a port, brackets and what follows them do not change which host is meant.
use aivyx_broker.Prelude.{
  ℕ, ◌≡◌, refl, Bool, true, false, ◌||◌, none, some, List, [], ◌∷◌, ◌++◌, ◌==◌, any, elem, Text,
  arith,
}
use aivyx_broker.Http.{Response}
use aivyx_broker.HostGuard.{
  bracket, close_bracket, before, rsplit_once, all_digits, is_port, strip_plain_port, strip_port,
  eq_ignore_ascii_case, is_loopback_host, host_is_allowed, misdirected, enforce_allowed_host,
}
use aivyx_broker.HostGuard.IpAddr.{colon}

rsplit_once-absent : (c : ℕ) (s : Text) → elem c s ≡ false → rsplit_once c s ≡ none
unfolding rsplit_once elem
rsplit_once-absent c [] h = refl
rsplit_once-absent c (x ∷ s) h = ground (arith, rsplit_once-absent c s)

rsplit_once-last :
    (c : ℕ) (s t : Text) → elem c t ≡ false → rsplit_once c (s ++ c ∷ t) ≡ some (s, t)
unfolding rsplit_once
rsplit_once-last c [] t h = ground (arith, rsplit_once-absent c t h)
rsplit_once-last c (x ∷ s) t h = ground (arith, rsplit_once-last c s t h)

all_digits-colon : (s : Text) → all_digits s ≡ true → elem colon s ≡ false
unfolding all_digits elem
all_digits-colon [] h = refl
all_digits-colon (c ∷ s) h = ground (arith, all_digits-colon s)

is_port-all_digits : (port : Text) → is_port port ≡ true → all_digits port ≡ true
is_port-all_digits [] h = cc
is_port-all_digits (c ∷ s) h = h

abbrev pub starts_with_bracket : Text → Bool
starts_with_bracket [] = false
starts_with_bracket (c ∷ s) = c == bracket

strip_plain_port-append :
    (h port : Text) → is_port port ≡ true → strip_plain_port (h ++ colon ∷ port) ≡ h
unfolding strip_plain_port
strip_plain_port-append h port p =
    ground
      (arith, rsplit_once-last colon h port (all_digits-colon port (is_port-all_digits port p)))

-- A host that does not start with a bracket, followed by a colon and a port of one digit or more,
-- is stripped to the host.
pub strip_port-append :
    (h port : Text)
    → starts_with_bracket h ≡ false
    → is_port port ≡ true
    → strip_port (h ++ colon ∷ port) ≡ h
unfolding strip_port
strip_port-append [] port b p = strip_plain_port-append [] port p
strip_port-append (c ∷ h) port b p = ground (arith, strip_plain_port-append (c ∷ h) port p)

strip_plain_port-name : (h : Text) → elem colon h ≡ false → strip_plain_port h ≡ h
unfolding strip_plain_port
strip_plain_port-name h n = ground (arith, rsplit_once-absent colon h n)

pub strip_port-name :
    (h : Text) → starts_with_bracket h ≡ false → elem colon h ≡ false → strip_port h ≡ h
unfolding strip_port
strip_port-name [] b n = refl
strip_port-name (c ∷ h) b n = ground (arith, strip_plain_port-name (c ∷ h) n)

before-first : (c : ℕ) (s t : Text) → elem c s ≡ false → before c (s ++ c ∷ t) ≡ s
unfolding before elem
before-first c [] t h = ground arith
before-first c (x ∷ s) t h = ground (arith, before-first c s t)

-- A bracketed address is stripped to what stands between the brackets, whatever follows the closing
-- one.
pub strip_port-bracketed :
    (addr rest : Text)
    → elem close_bracket addr ≡ false
    → strip_port (bracket ∷ addr ++ close_bracket ∷ rest) ≡ addr
unfolding strip_port
strip_port-bracketed addr rest h = before-first close_bracket addr rest h

-- The hosts that are served: the local ones and those of the list.
abbrev pub is_served : Text → List Text → Bool
is_served host allowed_hosts =
    is_loopback_host host || any (λ allowed. eq_ignore_ascii_case allowed host) allowed_hosts

module _ {ℓ} {S : Type ℓ} (allowed_hosts : List Text) (next : S → S × Response) (state : S) where
  abbrev pub guarded : Bool → S × Response
  guarded true = next state
  guarded false = (state, misdirected)

  enforce-stripped :
      (header host : Text)
      → strip_port header ≡ host
      → enforce_allowed_host allowed_hosts (some header) next state
        ≡ guarded (is_served host allowed_hosts)
  unfolding enforce_allowed_host host_is_allowed
  enforce-stripped header host e = ground (arith, e)

  -- The guard runs the rest of the server on a request for a host name (with no colon and no
  -- leading bracket) exactly if the name is local or listed, with any port or none; otherwise it
  -- answers 421 and the server's state does not change.
  pub enforce_allowed_host-name :
      (h port : Text)
      → starts_with_bracket h ≡ false
      → elem colon h ≡ false
      → is_port port ≡ true
      → (enforce_allowed_host allowed_hosts (some (h ++ colon ∷ port)) next state
          ≡ guarded (is_served h allowed_hosts))
        × (enforce_allowed_host allowed_hosts (some h) next state
            ≡ guarded (is_served h allowed_hosts))
  enforce_allowed_host-name h port b n p = (
    enforce-stripped (h ++ colon ∷ port) h (strip_port-append h port b p),
    enforce-stripped h h (strip_port-name h b n),
  )

  -- For a bracketed address the guard looks only at what stands between the brackets: it runs the
  -- rest of the server exactly if that is local or listed, and otherwise answers 421 and leaves the
  -- state, whatever follows the closing bracket.
  pub enforce_allowed_host-bracketed :
      (addr rest : Text)
      → elem close_bracket addr ≡ false
      → enforce_allowed_host allowed_hosts
          (some (bracket ∷ addr ++ close_bracket ∷ rest))
          next
          state
        ≡ guarded (is_served addr allowed_hosts)
  enforce_allowed_host-bracketed addr rest h =
      enforce-stripped (bracket ∷ addr ++ close_bracket ∷ rest) addr
        (strip_port-bracketed addr rest h)
