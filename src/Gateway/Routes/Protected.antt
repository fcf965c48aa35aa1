-- ===== src/Gateway/Routes/Protected.antt =====
-- Which requests reach the handlers behind AuthMiddleware (gateway/main.go,
-- gateway/middleware/jwt.go).
use microservices_go.Prelude.{◌≡◌, ◌∙◌, refl, true, some, ◌⊎◌, inl, inr, String, arith}
use microservices_go.Errors.{Result, done, fail}
use microservices_go.Gateway.Response.{HttpResponse, http_error}
use microservices_go.Gateway.Middleware.Request.{Request}
use microservices_go.Gateway.Middleware.Jwt.{
  JwtLibrary, PublicKey, validate_token, auth_middleware, text_of,
}
use microservices_go.Gateway.Middleware.Jwt.Accepts.{Passed, validate_token-Passed}
use microservices_go.Gateway.Routes.{
  HttpRequest, Route, me, deposit, withdraw, route_of, Gateway, handle, is_protected, mux,
}

auth_middleware_cases :
    (lib : JwtLibrary) (key : PublicKey) (next : Request → HttpResponse) (q : Request)
    → ((p : Request) × Passed lib key q p × (auth_middleware lib key next q ≡ next p))
      ⊎ ((m : String) × (auth_middleware lib key next q ≡ http_error m 401))
unfolding auth_middleware
auth_middleware_cases lib key next q = checked (validate_token lib key q) refl
  where
    checked :
        (v : Result Request)
        → validate_token lib key q ≡ v
        → let answer : HttpResponse = elim (validate_token lib key q) [
          | fail err ↦ http_error (text_of err) 401
          | done enriched ↦ next enriched
        ] in
          ((p : Request) × Passed lib key q p × (answer ≡ next p))
          ⊎ ((m : String) × (answer ≡ http_error m 401))
    checked (fail err) e = inr (text_of err, rw e refl)
    checked (done p) e = inl (p, validate_token-Passed lib key q p e, rw e refl)

pub mux_guarded :
    (g : Gateway) (r : HttpRequest) (q : Request) (route : Route)
    → route_of r.method r.path ≡ some route
    → is_protected g route ≡ true
    → mux g r q ≡ auth_middleware g.lib g.public_key (handle g r route) q
unfolding mux
mux_guarded g r q route found guarded = ground arith

-- The methods and paths that need a token, with the handler that is meant for each.
pub data Guarded : String → String → Route → Type 0 where
  gets_me : Guarded "GET" "/me" me
  heads_me : Guarded "HEAD" "/me" me
  deposits : Guarded "POST" "/deposit" deposit
  withdraws : Guarded "POST" "/withdraw" withdraw

Guarded-is_protected :
    (g : Gateway) {method path : String} {route : Route}
    → Guarded method path route
    → (route_of method path ≡ some route) × (is_protected g route ≡ true)
unfolding route_of
Guarded-is_protected g gets_me = (refl, refl)
Guarded-is_protected g heads_me = (refl, refl)
Guarded-is_protected g deposits = (refl, refl)
Guarded-is_protected g withdraws = (refl, refl)

-- A request for GET /me, HEAD /me, POST /deposit or POST /withdraw is answered either by the handler
-- of GetMe, of deposits or of withdrawals in this order, with the request that a verified token has
-- enriched with its subject, or with 401 by the middleware alone.
pub mux_protects :
    (g : Gateway) (r : HttpRequest) (q : Request) (route : Route)
    → Guarded r.method r.path route
    → ((p : Request) × Passed g.lib g.public_key q p × (mux g r q ≡ handle g r route p))
      ⊎ ((m : String) × (mux g r q ≡ http_error m 401))
mux_protects g r q route guard =
    let (found, guarded) = Guarded-is_protected g guard in
    let same = mux_guarded g r q route found guarded in
    elim (auth_middleware_cases g.lib g.public_key (handle g r route) q) [
      | inl (p, shown, e) ↦ inl (p, shown, same ∙ e)
      | inr (m, e) ↦ inr (m, same ∙ e)
    ]
