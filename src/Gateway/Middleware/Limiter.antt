-- ===== src/Gateway/Middleware/Limiter.antt =====
-- gateway/middleware/limiter.go: a counter in Redis for each remote address, which expires a window
-- after its first request.
pub mod Window
use microservices_go.Prelude.{
  ℕ, ◌+◌, Bool, false, List, [], ◌∷◌, ◌++◌, Bytes, codes, bytes_eq, bytes_eq_refl, bytes_eq_iff,
  ltb, ◌==◌, if◌then◌else◌, ◌≡◌, ◌≢◌, refl, sym, arith, Option, none, some,
}
use microservices_go.Gateway.Response.{HttpResponse, http_error}
use microservices_go.Gateway.Middleware.Request.{Request}

-- The counters, with the expiry that was set: `none` is a key without one.
abbrev pub Counters : Type 0
Counters = List (Bytes × ℕ × Option ℕ)

abbrev pub count_of : Bytes → Counters → ℕ
count_of key [] = 0
count_of key ((k, n, _) ∷ rest) = if bytes_eq k key then n else count_of key rest

-- INCR: a missing key counts from 0, and a key keeps its expiry.
abbrev pub incr : Bytes → Counters → Counters
incr key [] = (key, 1, none) ∷ []
incr key ((k, n, e) ∷ rest) =
    if bytes_eq k key then (k, n + 1, e) ∷ rest else (k, n, e) ∷ incr key rest

-- EXPIRE: nothing is set on a missing key.
abbrev pub expire : Bytes → ℕ → Counters → Counters
expire key window [] = []
expire key window ((k, n, e) ∷ rest) =
    if bytes_eq k key then (k, n, some window) ∷ rest else (k, n, e) ∷ expire key window rest

-- What Redis does with the two commands of one request. The error of EXPIRE is not read.
pub record RedisEnv : Type 0 where
  pub incr_fails : Bool
  pub expire_fails : Bool

abbrev pub rate_key : Bytes → Bytes
rate_key ip = codes "rate_limit:ip:" ++ ip

abbrev pub limit_response : ℕ → ℕ → (Request → HttpResponse) → Request → HttpResponse
limit_response limit val next r =
    if ltb limit val then http_error "Too may requests" 429 else next r

unfoldable pub rate_limit_middleware :
    (limit window : ℕ)
    → (Request → HttpResponse)
    → RedisEnv
    → Request
    → Counters
    → HttpResponse × Counters
rate_limit_middleware limit window next env r counters =
    if env.incr_fails
    then (next r, counters)
    else let counted = incr (rate_key r.remote_addr) counters in
      let val = count_of (rate_key r.remote_addr) counted in
      (
        limit_response limit val next r,
        if val == 1
            then if env.expire_fails
              then counted
              else expire (rate_key r.remote_addr) window counted
            else counted,
      )

count_of-incr_self : (key : Bytes) (c : Counters) → count_of key (incr key c) ≡ count_of key c + 1
count_of-incr_self key [] = ground (arith, bytes_eq_refl key)
count_of-incr_self key ((k, n, e) ∷ rest) = ground (arith, count_of-incr_self key rest)

count_of-incr_ne : (key j : Bytes) (c : Counters) → key ≢ j → count_of j (incr key c) ≡ count_of j c
count_of-incr_ne key j [] h = ground (arith, bytes_eq_iff key j)
count_of-incr_ne key j ((k, n, e) ∷ rest) h =
    ground (arith, count_of-incr_ne key j rest h, bytes_eq_iff k key, bytes_eq_iff k j)

count_of-expire :
    (key j : Bytes) (w : ℕ) (c : Counters) → count_of j (expire key w c) ≡ count_of j c
count_of-expire key j w [] = refl
count_of-expire key j w ((k, n, e) ∷ rest) = ground (arith, count_of-expire key j w rest)

rate_key-injective : (a b : Bytes) → rate_key a ≡ rate_key b → a ≡ b
rate_key-injective a b h = cc

module _ (limit window : ℕ) (next : Request → HttpResponse) (env : RedisEnv) (r : Request)
    (c : Counters) where
  pub limit_answer :
      env.incr_fails ≡ false
      → (rate_limit_middleware limit window next env r c).0 ≡ (
          if ltb (count_of (rate_key r.remote_addr) c) limit
          then next r
          else http_error "Too may requests" 429)
  unfolding rate_limit_middleware
  limit_answer up = ground (arith, count_of-incr_self (rate_key r.remote_addr) c)

  pub counts_self :
      env.incr_fails ≡ false
      → count_of (rate_key r.remote_addr) (rate_limit_middleware limit window next env r c).1
        ≡ count_of (rate_key r.remote_addr) c + 1
  unfolding rate_limit_middleware
  counts_self up = ground (
    arith,
    count_of-incr_self (rate_key r.remote_addr) c,
    count_of-expire (rate_key r.remote_addr) (rate_key r.remote_addr) window
        (incr (rate_key r.remote_addr) c),
  )

  pub counts_other :
      (other : Bytes)
      → env.incr_fails ≡ false
      → other ≢ r.remote_addr
      → count_of (rate_key other) (rate_limit_middleware limit window next env r c).1
        ≡ count_of (rate_key other) c
  unfolding rate_limit_middleware
  counts_other other up ne =
      let apart : rate_key r.remote_addr ≢ rate_key other =
        λ e. ne (sym (rate_key-injective r.remote_addr other e)) in
      ground (
        arith,
        count_of-incr_ne (rate_key r.remote_addr) (rate_key other) c apart,
        count_of-expire (rate_key r.remote_addr) (rate_key other) window
            (incr (rate_key r.remote_addr) c),
      )

-- When Redis answers, a request passes if fewer than `limit` requests of its remote address have
-- been counted and is answered with 429 otherwise; it raises the count of its own address by one,
-- and that of no other address, a port being part of the address.
pub rate_limit_counts :
    (limit window : ℕ) (next : Request → HttpResponse) (env : RedisEnv) (r : Request) (c : Counters)
    (other : Bytes)
    → env.incr_fails ≡ false
    → other ≢ r.remote_addr
    → let (answer, c') = rate_limit_middleware limit window next env r c in
      (answer ≡ (
        if ltb (count_of (rate_key r.remote_addr) c) limit
        then next r
        else http_error "Too may requests" 429))
      × (count_of (rate_key r.remote_addr) c' ≡ count_of (rate_key r.remote_addr) c + 1)
      × (count_of (rate_key other) c' ≡ count_of (rate_key other) c)
rate_limit_counts limit window next env r c other up ne = (
  limit_answer limit window next env r c up,
  counts_self limit window next env r c up,
  counts_other limit window next env r c other up ne,
)
