-- ===== src/Server/Router.antt =====
-- src/server.rs, AppState and build_router: which handler answers which request. The routing and the
-- extractors are axum's and given by the interface Axum; `build_router` is the table that is handed to it, with
-- the host guard around all of it.
pub mod Answers
mod Examples
use aivyx_broker.Prelude.{
  ℕ, ◌≡◌, Bool, true, false, not, ◌&&◌, ◌||◌, Option, none, some, List, [], ◌∷◌, map, leb, get_or,
  ◌⊎◌, ◌≤◌, ◌<◌, Text, codes, All, any,
}
use aivyx_broker.Http.{Response}
use aivyx_broker.HostGuard.{text_eq, enforce_allowed_host}
use aivyx_broker.Gpu.{VramSource}
use aivyx_broker.Scheduler
use aivyx_broker.GpuLock
use aivyx_broker.Server.VramCache.{VramCache}

-- `CLIENT_SEND_TIMEOUT`, in milliseconds
abbrev pub client_send_timeout : ℕ
client_send_timeout = 30000

-- `AppState` without the HTTP client and the KV-cache store; durations are in milliseconds.
-- `gpu_lock_max_hold` is the field `max_hold` of the GPU lock.
pub record AppState : Type 0 where
  pub scheduler : Scheduler.Inner
  pub llama_server_url : Text
  pub queue_timeout : ℕ
  pub gpu_lock : GpuLock.Inner
  pub gpu_lock_max_hold : ℕ
  pub gpu_lock_queue_timeout : ℕ
  pub gpu_probe : VramSource
  pub vram_cache : VramCache
  pub max_request_body_bytes : ℕ
  pub client_send_timeout : ℕ
  pub allowed_hosts : List Text

pub data Endpoint : Type 0 where
  chat_completions status slots residency gpu_lock_acquire gpu_lock_release : Endpoint

-- A request's method, and the function of `axum::routing` by which a handler is registered: `get`
-- serves HEAD requests too.
pub data Method : Type 0 where
  get_method head_method post_method other_method : Method

pub data Verb : Type 0 where
  get post : Verb

abbrev pub serves : Verb → Method → Bool
serves get get_method = true
serves get head_method = true
serves post post_method = true
serves _ _ = false

-- A route, with the limit of a request's body where the route sets one.
pub record Route : Type 0 where
  pub path : Text
  pub verb : Verb
  pub endpoint : Endpoint
  pub body_limit : Option ℕ

-- No text stands twice in the list.
unfoldable pub distinct : List Text → Bool
unfolding any text_eq
distinct [] = true
distinct (t ∷ ts) = not (any (text_eq t) ts) && distinct ts

-- The path has no parameter and no wildcard: it stands for itself only.
unfoldable pub is_static : Text → Bool
unfolding any text_eq
is_static path = not (any (λ c. text_eq (c ∷ []) (codes "{") || text_eq (c ∷ []) (codes "}")) path)

-- The handlers whose arguments include the request's body as JSON.
abbrev pub takes_json : Endpoint → Bool
takes_json chat_completions = true
takes_json gpu_lock_release = true
takes_json _ = false

abbrev pub route : Text → Verb → Endpoint → Route
route path verb endpoint = record {
  path = path;
  verb = verb;
  endpoint = endpoint;
  body_limit = none;
}

-- The routes of `build_router`, for the configured limit of a chat completion's body.
unfoldable pub routes : ℕ → List Route
routes max_request_body_bytes =
    record (route (codes "/v1/chat/completions") post chat_completions) {
      body_limit = some max_request_body_bytes;
    }
    ∷ route (codes "/status") get status
    ∷ route (codes "/slots") get slots
    ∷ route (codes "/v1/aivyx/residency") get residency
    ∷ route (codes "/gpu-lock/acquire") post gpu_lock_acquire
    ∷ route (codes "/gpu-lock/release") post gpu_lock_release
    ∷ []

-- A request. `accepted` tells whether the extractor of a handler's arguments takes the body: it is
-- declared as JSON and is what that handler expects.
pub record Request : Type 0 where
  pub host : Option Text
  pub path : Text
  pub method : Method
  pub body_bytes : ℕ
  pub accepted : Endpoint → Bool

-- What the program uses of axum: the service of a table of routes, for handlers on a state, and the
-- default limit of a body.
pub record Axum : Type 1 where
  pub serve : {S : Type 0} → List Route → (Endpoint → S → S × Response) → Request → S → S × Response
  pub default_body_limit : ℕ

-- Whether a route takes a request for its path: the method is one of its own, and the body, where
-- the handler takes one, is within the limit and accepted.
abbrev pub takes : ℕ → Route → Request → Bool
takes default_body_limit r request =
    serves r.verb request.method
    && (not (takes_json r.endpoint)
        || leb request.body_bytes (get_or r.body_limit default_body_limit)
          && request.accepted r.endpoint)

-- An error of the client's, after which the state is as before.
abbrev pub Refused {ℓ} : {S : Type ℓ} → S → S × Response → Type ℓ
Refused s (after, response) = (after ≡ s) × (400 ≤ response.status) × (response.status < 500)

-- A route with a static path answers the requests for it with its handler, or refuses them; a request
-- for another path is not found.
pub record AxumLaws (A : Axum) : Type 1 where
  pub serve-route :
      {S : Type 0} (handler : Endpoint → S → S × Response) (request : Request) (s : S)
      (routes : List Route)
      → distinct (map (λ r. r.path) routes) ≡ true
      → All (λ r. is_static r.path ≡ true) routes
      → All
          (λ r.
            request.path ≡ r.path
            → ((takes (Axum.default_body_limit A) r request ≡ true)
                × (Axum.serve A routes handler request s ≡ handler r.endpoint s))
              ⊎ ((takes (Axum.default_body_limit A) r request ≡ false)
                  × Refused s (Axum.serve A routes handler request s)))
          routes
  pub serve-no_route :
      {S : Type 0} (handler : Endpoint → S → S × Response) (request : Request) (s : S)
      (routes : List Route)
      → All (λ r. is_static r.path ≡ true) routes
      → any (text_eq request.path) (map (λ r. r.path) routes) ≡ false
      → Refused s (Axum.serve A routes handler request s)

module _ {S : Type 0} (A : Axum) (handler : Endpoint → S → S × Response) where
  -- The router's service: a request to a response, and what it does to the server's state.
  unfoldable pub build_router : AppState → Request → S → S × Response
  unfolding routes enforce_allowed_host
  build_router state request =
      enforce_allowed_host state.allowed_hosts request.host
        (Axum.serve A (routes state.max_request_body_bytes) handler request)
