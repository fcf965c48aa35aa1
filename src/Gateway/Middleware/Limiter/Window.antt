-- ===== src/Gateway/Middleware/Limiter/Window.antt =====
-- The rate limiter over the requests of one window (gateway/middleware/limiter.go).
use microservices_go.Prelude.{
  ℕ, zero, suc, ◌-◌, ltb, true, false, List, [], ◌∷◌, ◌++◌, map, take, keep, All, Bytes, bytes_eq,
  bytes_eq_iff, ◌≡◌, ◌≢◌, inl, inr, refl, sym, ap, ◌∙◌, arith, Bool-cases, if◌then◌else◌,
}
use microservices_go.Gateway.Response.{HttpResponse, http_error}
use microservices_go.Gateway.Middleware.Request.{Request}
use microservices_go.Gateway.Middleware.Limiter.{
  Counters, RedisEnv, count_of, rate_key, rate_limit_middleware, limit_answer, counts_self,
  counts_other,
}

abbrev pub Arrival : Type 0
Arrival = RedisEnv × Request

-- The answers to requests that come one after the other before the counter expires.
pub answers :
    (limit window : ℕ) → (Request → HttpResponse) → List Arrival → Counters → List HttpResponse
answers limit window next [] c = []
answers limit window next ((env, r) ∷ rest) c =
    let (answer, c') = rate_limit_middleware limit window next env r c in
    answer ∷ answers limit window next rest c'

abbrev pub drop {ℓ} : {A : Type ℓ} → ℕ → List A → List A
drop zero xs = xs
drop (suc n) [] = []
drop (suc n) (_ ∷ xs) = drop n xs

-- Redis answers a request of the address.
abbrev pub Answers : Bytes → Arrival → Type 0
Answers ip (env, r) = r.remote_addr ≡ ip → env.incr_fails ≡ false

-- The arrivals of an address, and the answers to them.
abbrev pub arrivals_of : Bytes → List Arrival → List Arrival
arrivals_of ip = keep (λ a. bytes_eq a.1.remote_addr ip)

abbrev pub answers_to : Bytes → List Arrival → List HttpResponse → List HttpResponse
answers_to ip [] answered = []
answers_to ip (a ∷ arrivals) [] = []
answers_to ip ((_, r) ∷ arrivals) (x ∷ answered) =
    if bytes_eq r.remote_addr ip
    then x ∷ answers_to ip arrivals answered
    else answers_to ip arrivals answered

abbrev pub passed : (Request → HttpResponse) → Arrival → HttpResponse
passed next (_, r) = next r

abbrev pub refused : Arrival → HttpResponse
refused _ = http_error "Too may requests" 429

cons_eq {ℓ} : {A : Type ℓ} {x y : A} {xs ys : List A} → x ≡ y → xs ≡ ys → x ∷ xs ≡ y ∷ ys
cons_eq h t = cc

module _ (limit window : ℕ) (next : Request → HttpResponse) (ip : Bytes) where
  abbrev left_of : Counters → ℕ
  left_of c = limit - count_of (rate_key ip) c

  one_answer :
      (env : RedisEnv) (r : Request) (c : Counters)
      → env.incr_fails ≡ false
      → r.remote_addr ≡ ip
      → let (answer, c') = rate_limit_middleware limit window next env r c in
        (answer ≡ (if ltb 0 (left_of c) then next r else http_error "Too may requests" 429))
        × (left_of c' ≡ left_of c - 1)
  one_answer env r c up own =
      let now = limit_answer limit window next env r c up in
      let later = counts_self limit window next env r c up in
      let here : count_of (rate_key r.remote_addr) c ≡ count_of (rate_key ip) c =
        ap (λ a. count_of (rate_key a) c) own in
      let there =
        ap (λ a. count_of (rate_key a) (rate_limit_middleware limit window next env r c).1) own in
      (ground (arith, now, here), omega (arith, later, here, there))

  -- A request of another address leaves the count as it is.
  other_request :
      (env : RedisEnv) (r : Request) (c : Counters)
      → r.remote_addr ≢ ip
      → left_of (rate_limit_middleware limit window next env r c).1 ≡ left_of c
  unfolding rate_limit_middleware
  other_request env r c other = elim (Bool-cases env.incr_fails) [
    | inl down ↦ rw down refl
    | inr up ↦
        ap (λ n. limit - n) (counts_other limit window next env r c ip up (λ e. other (sym e)))
  ]

  -- What is left of the limit, spent on the arrivals of the address.
  abbrev spent : ℕ → List Arrival → List HttpResponse
  spent left arrivals =
      map (passed next) (take left (arrivals_of ip arrivals))
      ++ map refused (drop left (arrivals_of ip arrivals))

  spent-own :
      (left : ℕ) (env : RedisEnv) (r : Request) (rest : List Arrival)
      → bytes_eq r.remote_addr ip ≡ true
      → spent left ((env, r) ∷ rest)
        ≡ (if ltb 0 left then next r else http_error "Too may requests" 429) ∷ spent (left - 1) rest
  spent-own zero env r rest own = rw own (dropped (arrivals_of ip rest))
    where
      dropped :
          (more : List Arrival)
          → map (passed next) (take zero ((env, r) ∷ more))
              ++ map refused (drop zero ((env, r) ∷ more))
            ≡ http_error "Too may requests" 429
              ∷ (map (passed next) (take zero more) ++ map refused (drop zero more))
      dropped [] = refl
      dropped (a ∷ more) = refl
  spent-own (suc left) env r rest own =
      let less : left ≡ suc left - 1 = omega arith in
      rw own (cons_eq (ground arith) (ap (λ n. spent n rest) less))

  answers_left :
      (arrivals : List Arrival) (c : Counters)
      → All (Answers ip) arrivals
      → answers_to ip arrivals (answers limit window next arrivals c) ≡ spent (left_of c) arrivals
  unfolding answers
  answers_left [] c from = nothing (left_of c)
    where
      nothing : (left : ℕ) → [] ≡ spent left []
      nothing zero = refl
      nothing (suc left) = refl
  answers_left ((env, r) ∷ rest) c (from, all) =
      let c' = (rate_limit_middleware limit window next env r c).1 in
      elim (Bool-cases (bytes_eq r.remote_addr ip)) [
        | inl own ↦
            let ours : r.remote_addr ≡ ip = (bytes_eq_iff r.remote_addr ip).0 own in
            let (answer, less) = one_answer env r c (from ours) ours in
            rw own (cons_eq answer (answers_left rest c' all ∙ ap (λ n. spent n rest) less))
            ∙ sym (spent-own (left_of c) env r rest own)
        | inr theirs ↦
            let other : r.remote_addr ≢ ip = λ e. ground (arith, bytes_eq_iff r.remote_addr ip) in
            rw theirs
              (answers_left rest c' all ∙ ap (λ n. spent n rest) (other_request env r c other))
      ]

  -- Of the requests that one remote address sends within a window, among requests of any other
  -- addresses, while Redis answers those of the address, exactly as many pass as the limit has left
  -- for the address, and those are the first; the others get 429.
  pub answers_within_limit :
      (arrivals : List Arrival) (c : Counters)
      → All (Answers ip) arrivals
      → let left = limit - count_of (rate_key ip) c in
        let own = arrivals_of ip arrivals in
        answers_to ip arrivals (answers limit window next arrivals c)
        ≡ map (passed next) (take left own) ++ map refused (drop left own)
  answers_within_limit arrivals c from = answers_left arrivals c from
