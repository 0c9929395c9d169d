-- ===== src/Server/Router/Answers.antt =====
-- src/server.rs, build_router: how every request is answered.
use aivyx_broker.Prelude.{
  ℕ, ◌≡◌, refl, ◌⊎◌, ◌&&◌, Bool, true, false, Option, none, some, List, [], ◌∷◌, map, Text, codes,
  any, arith, leb,
}
use aivyx_broker.Http.{Response}
use aivyx_broker.HostGuard.{text_eq, host_is_allowed}
use aivyx_broker.Server.Router.{
  AppState, Endpoint, chat_completions, status, slots, residency, gpu_lock_acquire,
  gpu_lock_release, Method, get_method, head_method, post_method, Route, Axum, AxumLaws, takes,
  Refused, routes, Request,
}

pub text_eq_sound : (s t : Text) → text_eq s t ≡ true → s ≡ t
unfolding text_eq
text_eq_sound [] [] e = refl
text_eq_sound [] (d ∷ t) e = cc
text_eq_sound (c ∷ s) [] e = cc
text_eq_sound (c ∷ s) (d ∷ t) e = ground (arith, text_eq_sound s t)

-- Whether the guard lets a `Host` header pass.
abbrev pub passes : List Text → Option Text → Bool
passes allowed_hosts none = false
passes allowed_hosts (some host) = host_is_allowed host allowed_hosts

-- The broker's interface: where each handler is found, and which requests it serves there.
abbrev pub path_of : Endpoint → Text
path_of chat_completions = codes "/v1/chat/completions"
path_of status = codes "/status"
path_of slots = codes "/slots"
path_of residency = codes "/v1/aivyx/residency"
path_of gpu_lock_acquire = codes "/gpu-lock/acquire"
path_of gpu_lock_release = codes "/gpu-lock/release"

abbrev pub is_read : Method → Bool
is_read get_method = true
is_read head_method = true
is_read _ = false

abbrev pub is_post : Method → Bool
is_post post_method = true
is_post _ = false

-- A chat completion's body is limited by the configuration, and a release's by axum.
abbrev pub served : ℕ → ℕ → Request → Endpoint → Bool
served max_request_body_bytes default_body_limit request chat_completions =
    is_post request.method
    && leb request.body_bytes max_request_body_bytes
    && request.accepted chat_completions
served max_request_body_bytes default_body_limit request gpu_lock_release =
    is_post request.method
    && leb request.body_bytes default_body_limit
    && request.accepted gpu_lock_release
served max_request_body_bytes default_body_limit request gpu_lock_acquire = is_post request.method
served max_request_body_bytes default_body_limit request status = is_read request.method
served max_request_body_bytes default_body_limit request slots = is_read request.method
served max_request_body_bytes default_body_limit request residency = is_read request.method

abbrev pub endpoints : List Endpoint
endpoints = chat_completions ∷ status ∷ slots ∷ residency ∷ gpu_lock_acquire ∷ gpu_lock_release ∷ []

abbrev pub paths : List Text
paths = map path_of endpoints

module _ {S : Type 0} (A : Axum) (laws : AxumLaws A) (handler : Endpoint → S → S × Response)
    (state : AppState) (request : Request) (s : S) where
  abbrev is_served : Endpoint → Bool
  is_served = served state.max_request_body_bytes (Axum.default_body_limit A) request

  -- The handler of an endpoint answers what is served there; anything else for its path is refused.
  abbrev pub Answered : Endpoint → S × Response → Type 0
  Answered e result =
      ((served state.max_request_body_bytes (Axum.default_body_limit A) request e ≡ true)
        × (result ≡ handler e s))
      ⊎ ((served state.max_request_body_bytes (Axum.default_body_limit A) request e ≡ false)
          × Refused s result)

  abbrev table : List Route
  table = routes state.max_request_body_bytes

  abbrev result : S × Response
  result = Axum.serve A table handler request s

  abbrev AsLaid : Route → Type 0
  AsLaid r =
      request.path ≡ r.path
      → ((takes (Axum.default_body_limit A) r request ≡ true) × (result ≡ handler r.endpoint s))
        ⊎ ((takes (Axum.default_body_limit A) r request ≡ false) × Refused s result)

  -- Either no endpoint has the path, or one has.
  abbrev pub OfPath : S × Response → Type 0
  OfPath result =
      ((any (text_eq request.path) paths ≡ false) × Refused s result)
      ⊎ ((e : Endpoint) × (request.path ≡ path_of e) × Answered e result)
