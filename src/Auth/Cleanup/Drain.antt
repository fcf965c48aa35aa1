-- ===== src/Auth/Cleanup/Drain.antt =====
-- That the cleanup gets through its backlog (auth/lib/workers/refresh.go,
-- auth/repository/auth.go).
use mathlib.Core.List.{Memᴰ}
use microservices_go.Prelude.{
  ℕ, ◌+◌, ◌*◌, ◌≤◌, String, Bool, true, false, not, ◌&&◌, Option, none, some, List, [], ◌∷◌, map,
  keep, take, length, take-All, All, All-map, ◌≡◌, ◌⊎◌, refl, ap, arith, inl, inr,
}
use microservices_go.Postgres.{Time}
use microservices_go.Auth.Domain.{TokenRow, Database, Env}
use microservices_go.Auth.Refresh.{is_expired, is_member, delete_ids, delete_expired_tokens}
use microservices_go.Auth.Cleanup.{Signal, tick, stop, cleaned, start_cleanup_worker}
use microservices_go.Auth.Cleanup.Live.{All-Memᴰ, due-All}
use microservices_go.Auth.Cleanup.Deletion
use microservices_go.Auth.Cleanup.Deletion.{
  expired_rows, AllDistinct, delete_ids-expired, keep-AllDistinct, take-AllDistinct, take-cases,
  keep-Memᴰ, Memᴰ-is_member, delete_ids-All,
}

-- A tick at a time from `from` to `to`, whose statement does not fail and finds no row locked, and
-- whose scan delivers each row of the table once.
pub record IsCalm (from to : Time) (env : Env) : Type 0 where
  pub works : env.exec_fails ≡ false
  pub unlocked : env.locked ≡ []
  pub begun : from ≤ env.now
  pub ended : env.now ≤ to
  pub inside : (rows : List TokenRow) → All (λ r. Memᴰ r rows) (env.scan rows)
  pub complete : (rows : List TokenRow) (r : TokenRow) → Memᴰ r rows → Memᴰ r (env.scan rows)
  pub once : (rows : List TokenRow) → AllDistinct rows → AllDistinct (env.scan rows)

-- No row is expired at the time.
abbrev pub IsClean : Time → List TokenRow → Type 0
IsClean at rows = All (λ (r : TokenRow). is_expired at r.expires_at ≡ false) rows

expired_later :
    (now at : Time) (t : Option Time) → now ≤ at → is_expired now t ≡ true → is_expired at t ≡ true
expired_later now at none le h = cc
expired_later now at (some t) le h = ground arith

module _ (from to : Time) (limit : ℕ) (env : Env) (calm : IsCalm from to env) where
  -- The rows that the tick could take.
  abbrev due : List TokenRow → List TokenRow
  due rows =
      keep (λ r. is_expired env.now r.expires_at && not (is_member env.locked r.id)) (env.scan rows)

  -- A batch that is not full takes all that has expired at the first time.
  part_batch :
      (rows : List TokenRow)
      → take limit (due rows) ≡ due rows
      → IsClean from (delete_ids (map (λ r. r.id) (take limit (due rows))) rows)
  part_batch rows all =
      delete_ids-All (λ (r : TokenRow). is_expired from r.expires_at ≡ false) ids rows
        (All-Memᴰ _ rows (λ r m left. spared r m left (is_expired from r.expires_at) refl))
    where
      ids : List String
      ids = map (λ r. r.id) (take limit (due rows))

      spared :
          (r : TokenRow)
          → Memᴰ r rows
          → is_member ids r.id ≡ false
          → (b : Bool) → is_expired from r.expires_at ≡ b
          → is_expired from r.expires_at ≡ false
      spared r m left false e = e
      spared r m left true e =
          let late = expired_later from env.now r.expires_at calm.begun e in
          let wanted : (is_expired env.now r.expires_at && not (is_member env.locked r.id)) ≡ true =
            ground (arith, late, calm.unlocked) in
          let taken =
            Memᴰ-is_member r (due rows)
              (keep-Memᴰ _ r (env.scan rows) wanted (calm.complete rows r m)) in
          let same : ids ≡ map (λ r. r.id) (due rows) = ap (map (λ r. r.id)) all in
          ground (arith, taken, same)

  full_batch :
      (rows : List TokenRow)
      → AllDistinct rows
      → length (take limit (due rows)) ≡ limit
      → expired_rows to (delete_ids (map (λ r. r.id) (take limit (due rows))) rows) + limit
        ≤ expired_rows to rows
  full_batch rows d full =
      let (inside, dead) = due-All env.now env.locked rows (env.scan rows) (calm.inside rows) in
      let less =
        delete_ids-expired to (take limit (due rows)) rows
          (take-AllDistinct limit _ (keep-AllDistinct _ _ (calm.once rows d)))
          (take-All _ limit _ inside)
          (take-All _ limit _ (
            All-map _ (λ (e : TokenRow). is_expired to e.expires_at ≡ true)
              (λ e h. expired_later env.now to e.expires_at calm.ended h) _ dead)) in
      omega (arith, less, full)

  -- Either a batch's worth is off the backlog, or it is empty.
  tick_drains :
      (room : ℕ) (db : Database)
      → AllDistinct db.tokens
      → (expired_rows to db.tokens ≤ limit + room) ⊎ IsClean from db.tokens
      → let db' = cleaned db (delete_expired_tokens env limit db) in
        AllDistinct db'.tokens × ((expired_rows to db'.tokens ≤ room) ⊎ IsClean from db'.tokens)
  unfolding delete_expired_tokens
  tick_drains room db d left = rw calm.works (
    keep-AllDistinct _ db.tokens d,
    elim left [
      | inr clean ↦ inr (Deletion.keep-All _ _ db.tokens clean)
      | inl few ↦ elim (take-cases limit (due db.tokens)) [
        | inl full ↦ inl (omega (arith, few, full_batch db.tokens d full))
        | inr all ↦ inr (part_batch db.tokens all)
      ]
    ],
  )

none_expired :
    (from to : Time) (rows : List TokenRow)
    → from ≤ to
    → expired_rows to rows ≤ 0
    → IsClean from rows
none_expired from to [] le h = tt
none_expired from to (r ∷ rows) le h =
    (live (is_expired from r.expires_at) refl, none_expired from to rows le (omega (arith, h)))
  where
    live : (b : Bool) → is_expired from r.expires_at ≡ b → is_expired from r.expires_at ≡ false
    live false e = e
    live true e = ground (arith, expired_later from to r.expires_at le e, h)

-- The run is ticks, all of them calm.
abbrev pub AllCalm : Time → Time → List Signal → Type 0
AllCalm from to [] = Unit
AllCalm from to (tick env ∷ rest) = IsCalm from to env × AllCalm from to rest
AllCalm from to (stop ∷ rest) = ⊥

drains :
    (from to : Time) (limit : ℕ) (signals : List Signal) (db : Database)
    → from ≤ to
    → AllCalm from to signals
    → AllDistinct db.tokens
    → (expired_rows to db.tokens ≤ length signals * limit) ⊎ IsClean from db.tokens
    → IsClean from (start_cleanup_worker limit signals db).tokens
unfolding start_cleanup_worker
drains from to limit [] db le calm d (inl few) =
    none_expired from to db.tokens le (omega (arith, few))
drains from to limit [] db le calm d (inr clean) = clean
drains from to limit (stop ∷ rest) db le calm d left = absurd calm
drains from to limit (tick env ∷ rest) db le calm d left =
    let (d', left') =
      tick_drains from to limit env calm.0 (length rest * limit) db d (grind arith) in
    drains from to limit rest _ le calm.1 d' left'

-- The cleanup gets through its backlog: after ticks from one time to another whose batches together
-- are as large as the number of tokens that are expired at the later time, no token is left that
-- was expired at the earlier, where no statement fails, no row is locked, each scan delivers each
-- row once, and the ids of the table are distinct.
pub start_cleanup_worker_drains :
    (from to : Time) (limit : ℕ) (signals : List Signal) (db : Database)
    → from ≤ to
    → AllCalm from to signals
    → AllDistinct db.tokens
    → expired_rows to db.tokens ≤ length signals * limit
    → IsClean from (start_cleanup_worker limit signals db).tokens
start_cleanup_worker_drains from to limit signals db le calm d few =
    drains from to limit signals db le calm d (inl few)
