-- ===== src/Http.antt =====
-- The responses of src/server.rs and src/host_guard.rs: a status code and a body.
use aivyx_broker.Prelude.{ℕ, String, Text}

-- `error message` is the JSON object {"error": message}, and `lease_id id` is {"lease_id": id}.
pub data Body : Type 0 where
  empty : Body
  error : String → Body
  lease_id : Text → Body

pub record Response : Type 0 where
  pub status : ℕ
  pub body : Body
