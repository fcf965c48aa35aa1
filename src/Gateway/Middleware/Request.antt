-- ===== src/Gateway/Middleware/Request.antt =====
-- The parts of an *http.Request that the middleware uses: the Authorization header, the remote
-- address, the values that it puts into the context, and the gRPC metadata for outgoing calls.
use microservices_go.Prelude.{String, Bytes, Option, List}

pub record Request : Type 0 where
  pub authorization : Bytes
  pub remote_addr : Bytes
  pub user_id : Option String
  pub user_roles : Option (List String)
  pub outgoing : List (String × String)
