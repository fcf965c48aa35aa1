-- ===== src/Interceptor/Identity.antt =====
-- The identity of a caller, from the token at the gateway (gateway/middleware/jwt.go) to the
-- handler of a service (pkg/infrastructure/interceptors/auth.go).
use microservices_go.Prelude.{
  String, false, Option, none, some, Option-cases, List-cases, Bool-cases, ◌⊎◌, inl, inr, List, [],
  ◌∷◌, ◌++◌, str_eq, eq_iff, ◌≡◌, refl, sym, ap, ◌∙◌, arith,
}
use microservices_go.Errors.{status, unauthenticated, Result, done, fail, done-injective}
use microservices_go.Gateway.Middleware.Request.{Request}
use microservices_go.Gateway.Middleware.Jwt.{PublicKey, JwtLibrary, validate_token}
use microservices_go.Gateway.Middleware.Jwt.Accepts.{Bears, validate_token_passes}
use microservices_go.Interceptor.{
  ServerContext, is_public, values, with_user, auth_interceptor, user_id_from_context,
}

-- The first value of the user id in the metadata of a call is not empty and parses as `uid`.
pub record Identified (parse : String → Option String) (ctx : ServerContext) (uid : String)
    : Type 0 where
  pub md : List (String × String)
  pub id : String
  pub ids : List String
  pub present : ctx.metadata ≡ some md
  pub first : values "x-user-id" md ≡ id ∷ ids
  pub named : str_eq id "" ≡ false
  pub parsed : parse id ≡ some uid

-- A call of a method that is not public either carries a user id that parses, and the handler runs
-- with that user in its context, or is refused as unauthenticated, whatever the handler.
pub auth_interceptor_guards {ℓ} :
    {R : Type ℓ} (parse : String → Option String) (full_method : String)
    (handler : ServerContext → Result R) (ctx : ServerContext)
    → is_public full_method ≡ false
    → ((uid : String) × Identified parse ctx uid
        × (auth_interceptor parse full_method handler ctx ≡ handler (with_user ctx uid)))
      ⊎ ((m : String) × (auth_interceptor parse full_method handler ctx
            ≡ fail (status unauthenticated m)))
unfolding auth_interceptor
auth_interceptor_guards parse full_method handler ctx closed = elim (Option-cases ctx.metadata) [
  | inl absent ↦ inr ("metadata missing", ground arith)
  | inr (md, present) ↦ elim (List-cases (values "x-user-id" md)) [
    | inl no_id ↦ inr ("no user id in metadata", ground arith)
    | inr (id, ids, first) ↦ elim (Bool-cases (str_eq id "")) [
      | inl empty ↦ inr ("no user id in metadata", ground arith)
      | inr named ↦ elim (Option-cases (parse id)) [
        | inl bad ↦ inr ("invalid user id format", ground arith)
        | inr (uid, parsed) ↦ inl (
          uid,
          record {
            md = md;
            id = id;
            ids = ids;
            present = present;
            first = first;
            named = named;
            parsed = parsed;
          },
          ground arith,
        )
      ]
    ]
  ]
]

-- The metadata of a call of a request that was enriched without other metadata.
outgoing-Bears :
    (lib : JwtLibrary) (key : PublicKey) (r passed : Request) (sub : String)
    → Bears lib key r sub
    → validate_token lib key r ≡ done passed
    → r.outgoing ≡ []
    → passed.outgoing ≡ ("x-user-id", sub) ∷ []
outgoing-Bears lib key r passed sub b ok clean =
    ap (λ q. q.outgoing) (done-injective (sym ok ∙ validate_token_passes lib key r sub b))
    ∙ ap (λ l. l ++ ("x-user-id", sub) ∷ []) clean

-- A call that the gateway sends for a request that it has let through reaches the handler of a
-- method that is not public as the subject that the claims of the request's token name, if that
-- is a UUID and the request came without metadata: the context then holds the subject's canonical
-- form.
pub identity_is_subject {ℓ} :
    {R : Type ℓ} (lib : JwtLibrary) (key : PublicKey) (r passed : Request) (sub : String)
    (parse : String → Option String) (full_method uid : String) (handler : ServerContext → Result R)
    → Bears lib key r sub
    → validate_token lib key r ≡ done passed
    → r.outgoing ≡ []
    → is_public full_method ≡ false
    → parse sub ≡ some uid
    → let ctx : ServerContext = record { metadata = some passed.outgoing; user_id = none } in
      (auth_interceptor parse full_method handler ctx ≡ handler (with_user ctx uid))
      × (user_id_from_context (with_user ctx uid) ≡ done uid)
unfolding auth_interceptor user_id_from_context
identity_is_subject lib key r passed sub parse full_method uid handler b ok clean closed canonical =
    (ground (arith, eq_iff sub "", b.named, outgoing-Bears lib key r passed sub b ok clean), refl)
