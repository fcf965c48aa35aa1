-- ===== src/Gateway/Middleware/Role.antt =====
-- gateway/middleware/role.go.
use microservices_go.Prelude.{
  String, Bool, true, false, none, some, List, [], ◌∷◌, str_eq, eq_iff, if◌then◌else◌, ◌≡◌, ◌↔◌,
  inl, inr, refl, arith, Bool-cases,
}
use mathlib.Core.List.{Memᴰ}
use mathlib.Core.Path.{subst}
use microservices_go.Gateway.Response.{HttpResponse, http_error}
use microservices_go.Gateway.Middleware.Request.{Request}

-- The inner loop, with its break.
abbrev pub is_held : String → List String → Bool
is_held allowed_role [] = false
is_held allowed_role (user_role ∷ rest) =
    if str_eq allowed_role user_role then true else is_held allowed_role rest

-- The outer loop, with its break.
unfoldable pub has_access : List String → List String → Bool
has_access [] user_roles = false
has_access (allowed_role ∷ rest) user_roles =
    if is_held allowed_role user_roles then true else has_access rest user_roles

abbrev pub check_roles :
    List String → (Request → HttpResponse) → Request → List String → HttpResponse
check_roles allowed_roles next r [] = http_error "Forbidden: no roles assigned" 403
check_roles allowed_roles next r (role ∷ roles) =
    if has_access allowed_roles (role ∷ roles)
    then next r
    else http_error "forbidden: insufficient permissions" 403

unfoldable pub require_roles : List String → (Request → HttpResponse) → Request → HttpResponse
unfolding has_access
require_roles allowed_roles next r = elim r.user_roles [
  | none ↦ http_error "Forbidden: no roles assigned" 403
  | some user_roles ↦ check_roles allowed_roles next r user_roles
]

is_held-Memᴰ : (a : String) (roles : List String) → is_held a roles ≡ true → Memᴰ a roles
is_held-Memᴰ a [] h = cc
is_held-Memᴰ a (r ∷ rest) h = elim (Bool-cases (str_eq a r)) [
  | inl same ↦ Memᴰ.head ((eq_iff a r).0 same)
  | inr other ↦ Memᴰ.tail (is_held-Memᴰ a rest (ground arith))
]

Memᴰ-is_held : (a : String) (roles : List String) → Memᴰ a roles → is_held a roles ≡ true
Memᴰ-is_held a [] m = elim m [ ]
Memᴰ-is_held a (r ∷ rest) (Memᴰ.head e) = ground (arith, eq_iff a r)
Memᴰ-is_held a (r ∷ rest) (Memᴰ.tail m) = ground (arith, Memᴰ-is_held a rest m)

found_here :
    (a : String) (rest user_roles : List String) (role : String)
    → Memᴰ role (a ∷ rest)
    → Memᴰ role user_roles
    → ((r : String) × Memᴰ r rest × Memᴰ r user_roles → has_access rest user_roles ≡ true)
    → has_access (a ∷ rest) user_roles ≡ true
unfolding has_access
found_here a rest user_roles role (Memᴰ.head e) has ih =
    ground (arith, Memᴰ-is_held a user_roles (subst (λ r. Memᴰ r user_roles) e has))
found_here a rest user_roles role (Memᴰ.tail m) has ih =
    let later : has_access rest user_roles ≡ true = ih (role, m, has) in ground arith

-- The two loops find a common role exactly when there is one.
pub has_access_iff :
    (allowed_roles user_roles : List String)
    → (has_access allowed_roles user_roles ≡ true)
      ↔ ((role : String) × Memᴰ role allowed_roles × Memᴰ role user_roles)
unfolding has_access
has_access_iff [] user_roles = (λ h. cc, λ (role, m, _). elim m [ ])
has_access_iff (a ∷ rest) user_roles = (
  λ h. elim (Bool-cases (is_held a user_roles)) [
    | inl held ↦ (a, Memᴰ.head refl, is_held-Memᴰ a user_roles held)
    | inr unheld ↦
        let (role, allowed, has) = (has_access_iff rest user_roles).0 (ground arith) in
        (role, Memᴰ.tail allowed, has)
  ],
  λ (role, allowed, has).
      found_here a rest user_roles role allowed has (has_access_iff rest user_roles).1,
)
