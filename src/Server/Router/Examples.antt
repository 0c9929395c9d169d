-- ===== src/Server/Router/Examples.antt =====
-- src/server.rs, build_router: its theorem at a concrete router and request.
use aivyx_broker.Prelude.{
  ℕ, ◌+◌, ◌≡◌, refl, ◌⊎◌, true, false, some, List, [], ◌∷◌, codes, if◌then◌else◌,
}
use aivyx_broker.Http.{Response, empty}
use aivyx_broker.HostGuard.{text_eq, host_is_allowed}
use aivyx_broker.Scheduler.{new}
use aivyx_broker.Main.{default_config, app_state}
use aivyx_broker.Server.Router.{
  AppState, Endpoint, post_method, Route, Axum, takes, Refused, Request, build_router,
}

abbrev reply : ℕ → Response
reply code = record { status = code; body = empty }

abbrev default_limit : ℕ
default_limit = 2097152

abbrev at_route : {S : Type 0} → (Endpoint → S → S × Response) → Route → Request → S → S × Response
at_route handler r request s =
    if takes default_limit r request then handler r.endpoint s else (s, reply 400)

-- A router that looks through the table in order.
unfoldable plain_serve :
    {S : Type 0} → List Route → (Endpoint → S → S × Response) → Request → S → S × Response
plain_serve [] handler request s = (s, reply 404)
plain_serve (r ∷ table) handler request s =
    if text_eq request.path r.path
    then at_route handler r request s
    else plain_serve table handler request s

module _ {S : Type 0} (handler : Endpoint → S → S × Response) (request : Request) (s : S) where
  abbrev Found : List Route → Route → Type 0
  Found table r =
      request.path ≡ r.path → plain_serve table handler request s ≡ at_route handler r request s

  abbrev Answered : List Route → Route → Type 0
  Answered table r =
      request.path ≡ r.path
      → ((takes default_limit r request ≡ true)
          × (plain_serve table handler request s ≡ handler r.endpoint s))
        ⊎ ((takes default_limit r request ≡ false)
            × Refused s (plain_serve table handler request s))

abbrev plain : Axum
plain = record { serve = plain_serve; default_body_limit = default_limit }

abbrev count_requests : Endpoint → ℕ → ℕ × Response
count_requests e n = (n + 1, reply 200)

abbrev state : AppState
state = app_state (new 2) (default_config (codes "http://x") (codes "/kv"))

abbrev release_request : Request
release_request = record {
  host = some (codes "localhost:8899");
  path = codes "/gpu-lock/release";
  method = post_method;
  body_bytes = 64;
  accepted = λ e. true;
}

release_is_served :
    build_router plain count_requests state release_request 4
    ≡ count_requests Endpoint.gpu_lock_release 4
unfolding build_router plain_serve text_eq host_is_allowed
release_is_served = refl
