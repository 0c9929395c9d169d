-- ===== src/HostGuard/Examples.antt =====
-- src/host_guard.rs: hosts that pass and hosts that do not.
use aivyx_broker.Prelude.{ℕ, ◌≡◌, refl, ◌+◌, true, false, some, [], ◌∷◌, ◌++◌, codes, elem, arith}
use aivyx_broker.Http.{Response, empty}
use aivyx_broker.HostGuard.{
  all_digits, host_is_allowed, enforce_allowed_host, bracket, close_bracket,
}
use aivyx_broker.HostGuard.IpAddr.{v4, colon, parse_ip}
use aivyx_broker.HostGuard.Dotted.{print_ipv4, enforce_allowed_host-print_ipv4}
use aivyx_broker.HostGuard.Ports.{
  guarded, is_served, enforce_allowed_host-name, enforce_allowed_host-bracketed,
}

abbrev count_request : ℕ → ℕ × Response
count_request n = (n + 1, record { status = 200; body = empty })

allows_loopback : host_is_allowed (codes "127.9.0.1:8899") [] ≡ true
unfolding host_is_allowed
allows_loopback = refl

allows_ipv6 : host_is_allowed (codes "[0:0::1]") [] ≡ true
unfolding host_is_allowed
allows_ipv6 = refl

refuses_rebound : host_is_allowed (codes "evil.example:80") [] ≡ false
unfolding host_is_allowed
refuses_rebound = refl

refuses_bare_ipv6 : host_is_allowed (codes "::1") [] ≡ false
unfolding host_is_allowed
refuses_bare_ipv6 = refl

enforce_allowed_host-name_example :
    (enforce_allowed_host [] (some (codes "127.0.0.2" ++ colon ∷ codes "80")) count_request 4
      ≡ guarded [] count_request 4 (is_served (codes "127.0.0.2") []))
    × (enforce_allowed_host [] (some (codes "127.0.0.2")) count_request 4
        ≡ guarded [] count_request 4 (is_served (codes "127.0.0.2") []))
unfolding elem all_digits
enforce_allowed_host-name_example =
    enforce_allowed_host-name [] count_request 4 (codes "127.0.0.2") (codes "80") refl refl refl

enforce_allowed_host-bracketed_example :
    enforce_allowed_host []
      (some (bracket ∷ codes "::2" ++ close_bracket ∷ codes "evil"))
      count_request
      4
    ≡ guarded [] count_request 4 (is_served (codes "::2") [])
unfolding elem
enforce_allowed_host-bracketed_example =
    enforce_allowed_host-bracketed [] count_request 4 (codes "::2") (codes "evil") refl

enforce_allowed_host-print_ipv4_example :
    (parse_ip (print_ipv4 127 9 40 255) ≡ some (v4 127 9 40 255))
    × (enforce_allowed_host []
          (some (print_ipv4 127 9 40 255 ++ colon ∷ codes "8899"))
          count_request
          4
        ≡ guarded [] count_request 4 true)
    × (enforce_allowed_host [] (some (print_ipv4 127 9 40 255)) count_request 4
        ≡ guarded [] count_request 4 true)
unfolding all_digits
enforce_allowed_host-print_ipv4_example =
    enforce_allowed_host-print_ipv4 127 9 40 255 (omega arith) (omega arith) (omega arith)
      (omega arith) [] count_request 4 (codes "8899") refl
