-- ===== src/Auth/Cleanup/Live.antt =====
-- The cleanup deletes expired tokens only (auth/lib/workers/refresh.go, auth/repository/auth.go).
use mathlib.Core.List.{Memᴰ}
use microservices_go.Prelude.{
  take-All, ℕ, ◌≤◌, String, true, false, not, ◌&&◌, Option, none, some, List, [], ◌∷◌, map, keep,
  All, str_eq, eq_iff, ◌≡◌, refl, ◌∙◌, arith, if◌then◌else◌, Bool-cases, inl, inr,
}
use microservices_go.Postgres.{Time}
use microservices_go.Auth.Domain.{TokenRow, Database, Env}
use microservices_go.Auth.Refresh.{is_expired, is_member, chosen, delete_ids, delete_expired_tokens}
use microservices_go.Auth.Cleanup.{Signal, tick, stop, cleaned, start_cleanup_worker}

-- The row with an id.
abbrev row_of : String → List TokenRow → Option TokenRow
row_of i [] = none
row_of i (r ∷ rs) = if str_eq r.id i then some r else row_of i rs

abbrev pub HasUniqueTokenIds : List TokenRow → Type 0
HasUniqueTokenIds [] = Unit
HasUniqueTokenIds (r ∷ rs) = (row_of r.id rs ≡ none) × HasUniqueTokenIds rs

-- The rows that are not expired at a time.
abbrev pub live_rows : Time → List TokenRow → List TokenRow
live_rows at = keep (λ r. not (is_expired at r.expires_at))

-- The scan of a tick delivers rows of the table.
abbrev pub ScansTable : Env → Type 0
ScansTable env = (rows : List TokenRow) → All (λ r. Memᴰ r rows) (env.scan rows)

Memᴰ-row_of :
    (rows : List TokenRow) (r : TokenRow)
    → HasUniqueTokenIds rows
    → Memᴰ r rows
    → row_of r.id rows ≡ some r
Memᴰ-row_of [] r u m = elim m [ ]
Memᴰ-row_of (s ∷ rows) r u (Memᴰ.head e) = ground (arith, eq_iff s.id r.id)
Memᴰ-row_of (s ∷ rows) r u (Memᴰ.tail m) =
    ground (arith, Memᴰ-row_of rows r u.1 m, eq_iff s.id r.id)

-- A row that is not expired has none of the chosen ids.
live-not_member :
    (now : Time) (rows es : List TokenRow) (r : TokenRow)
    → HasUniqueTokenIds rows
    → All (λ e. Memᴰ e rows) es
    → All (λ e. is_expired now e.expires_at ≡ true) es
    → Memᴰ r rows
    → is_expired now r.expires_at ≡ false
    → is_member (map (λ e. e.id) es) r.id ≡ false
live-not_member now rows [] r u inside dead m live = refl
live-not_member now rows (e ∷ es) r u inside dead m live = ground (
  arith,
  live-not_member now rows es r u inside.1 dead.1 m live,
  Memᴰ-row_of rows r u m,
  Memᴰ-row_of rows e u inside.0,
  eq_iff e.id r.id,
)

-- The chosen rows are expired rows of the table.
pub due-All :
    (now : Time) (locked : List String) (table rows : List TokenRow)
    → All (λ r. Memᴰ r table) rows
    → let dead = keep (λ r. is_expired now r.expires_at && not (is_member locked r.id)) rows in
      All (λ r. Memᴰ r table) dead × All (λ e. is_expired now e.expires_at ≡ true) dead
due-All now locked table [] h = (tt, tt)
due-All now locked table (r ∷ rows) h =
    let (inside, dead) = due-All now locked table rows h.1 in
    elim (Bool-cases (is_expired now r.expires_at && not (is_member locked r.id))) [
      | inl taken ↦ rw taken ((h.0, inside), (ground arith, dead))
      | inr left ↦ rw left (inside, dead)
    ]

pub All-Memᴰ :
    (P : TokenRow → Type 0) (rows : List TokenRow)
    → ((r : TokenRow) → Memᴰ r rows → P r)
    → All P rows
All-Memᴰ P [] f = tt
All-Memᴰ P (r ∷ rows) f = (f r (Memᴰ.head refl), All-Memᴰ P rows (λ s m. f s (Memᴰ.tail m)))

delete_ids-live_rows :
    (at : Time) (ids : List String) (rows : List TokenRow)
    → All (λ r. is_expired at r.expires_at ≡ false → is_member ids r.id ≡ false) rows
    → live_rows at (delete_ids ids rows) ≡ live_rows at rows
delete_ids-live_rows at ids [] h = refl
delete_ids-live_rows at ids (r ∷ rows) h =
    let later = delete_ids-live_rows at ids rows h.1 in
    elim (Bool-cases (is_expired at r.expires_at)) [
      | inl dead ↦ ground arith
      | inr live ↦ let kept = h.0 live in ground arith
    ]

row_of-delete_ids :
    (i : String) (ids : List String) (rows : List TokenRow)
    → row_of i rows ≡ none
    → row_of i (delete_ids ids rows) ≡ none
row_of-delete_ids i ids [] h = refl
row_of-delete_ids i ids (r ∷ rows) h = ground (arith, row_of-delete_ids i ids rows)

delete_ids-HasUniqueTokenIds :
    (ids : List String) (rows : List TokenRow)
    → HasUniqueTokenIds rows
    → HasUniqueTokenIds (delete_ids ids rows)
delete_ids-HasUniqueTokenIds ids [] u = tt
delete_ids-HasUniqueTokenIds ids (r ∷ rows) u =
    let rest = delete_ids-HasUniqueTokenIds ids rows u.1 in
    elim (Bool-cases (is_member ids r.id)) [
      | inl gone ↦ rw gone rest
      | inr left ↦ rw left (row_of-delete_ids r.id ids rows u.0, rest)
    ]

is_expired_later :
    (now at : Time) (t : Option Time)
    → now ≤ at
    → is_expired at t ≡ false
    → is_expired now t ≡ false
is_expired_later now at none le h = refl
is_expired_later now at (some t) le h = ground arith

-- One tick.
cleaned-live_rows :
    (env : Env) (limit : ℕ) (db : Database) (at : Time)
    → ScansTable env
    → env.now ≤ at
    → HasUniqueTokenIds db.tokens
    → let db' = cleaned db (delete_expired_tokens env limit db) in
      (live_rows at db'.tokens ≡ live_rows at db.tokens) × HasUniqueTokenIds db'.tokens
unfolding delete_expired_tokens
cleaned-live_rows env limit db at scans le u = elim (Bool-cases env.exec_fails) [
  | inl down ↦ rw down (refl, u)
  | inr up ↦
      let rows = db.tokens in
      let (inside, dead) = due-All env.now env.locked rows (env.scan rows) (scans rows) in
      let es : List TokenRow = chosen env limit rows in
      rw up (
        delete_ids-live_rows at (map (λ r. r.id) es) rows (
            All-Memᴰ _ rows (λ r m live.
              live-not_member env.now rows es r u (take-All _ limit _ inside)
                (take-All _ limit _ dead) m (is_expired_later env.now at r.expires_at le live))),
        delete_ids-HasUniqueTokenIds (map (λ r. r.id) es) rows u,
      )
]

-- The ticks of a run scan the table, at times up to `at`.
abbrev pub TicksUpTo : Time → List Signal → Type 0
TicksUpTo at [] = Unit
TicksUpTo at (tick env ∷ rest) = ScansTable env × (env.now ≤ at) × TicksUpTo at rest
TicksUpTo at (stop ∷ rest) = TicksUpTo at rest

-- However often the cleanup runs up to a time, whatever its limit, the rows that other
-- transactions lock and the errors on the way, it deletes no token that is not expired at that
-- time, on a table whose ids are unique.
pub start_cleanup_worker_keeps_live :
    (limit : ℕ) (signals : List Signal) (db : Database) (at : Time)
    → TicksUpTo at signals
    → HasUniqueTokenIds db.tokens
    → live_rows at (start_cleanup_worker limit signals db).tokens ≡ live_rows at db.tokens
unfolding start_cleanup_worker
start_cleanup_worker_keeps_live limit [] db at t u = refl
start_cleanup_worker_keeps_live limit (stop ∷ rest) db at t u = refl
start_cleanup_worker_keeps_live limit (tick env ∷ rest) db at (scans, le, t) u =
    let (same, unique) = cleaned-live_rows env limit db at scans le u in
    start_cleanup_worker_keeps_live limit rest _ at t unique ∙ same
