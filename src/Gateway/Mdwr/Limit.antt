-- ===== src/Gateway/Mdwr/Limit.antt =====
-- The rate limiter of api-gateway/internal/mdwr/rl.go: within one window of Redis, the first fifty
-- requests of an address reach the handler and the others do not.
use l.Prelude.{
  ℕ, ◌+◌, ◌-◌, ◌≤◌, none, ◌≡◌, refl, ap, ◌∙◌, String, Bool, true, false, List, [], ◌∷◌, inl, inr,
  arith, if◌then◌else◌, ltb, eqb,
}
use l.Prelude.Lists.{Member, length}
use l.Exec.{ok}
use l.Redis.{Redis, View, IsRedis}
use l.Gateway.Http.{Request, Reply, Handler}
use l.Gateway.Mdwr.{rate_key, limited, rate_limit, max_rate, exp}

module _ {S W : Type 0} (redis : Redis S) (v : View S) (laws : IsRedis redis v)
    (incr_up : (k : String) (s : S) → (n : ℕ) × (s' : S) × (redis.incr k s ≡ (ok n, s')))
    (next : Handler W) (hits : W → ℕ)
    (counts : (r : Request) (w : W) → hits (next r w).1 ≡ hits w + 1) where
  expired : Bool → String → S → S
  expired first k s = if first then (redis.expire_key k exp s).1 else s

  expired-counter : (b : Bool) (k : String) (s : S) → v.counter (expired b k s) k ≡ v.counter s k
  unfolding expired
  expired-counter true k s = laws.expire_counter k exp s k
  expired-counter false k s = refl

  -- What the middleware does once Redis has counted the request.
  counted_outcome : Bool → ℕ → Request → S → W → Reply × (S × W)
  counted_outcome over n r s₁ w =
      let (passed, w₁) = next r w in
      let s₂ = expired (eqb n 1) (rate_key r) s₁ in
      if over then (Reply.error 429 "Too many requests", (s₂, w)) else (passed, (s₂, w₁))

  counted-rate_limit :
      (r : Request) (s : S) (w : W) (n : ℕ) (s₁ : S)
      → redis.incr (rate_key r) s ≡ (ok n, s₁)
      → rate_limit redis next r (s, w) ≡ counted_outcome (ltb max_rate n) n r s₁ w
  unfolding rate_limit expired counted_outcome
  counted-rate_limit r s w n s₁ counted =
      ap (λ p. limited redis (rate_key r) (next r w) w p.0 p.1) counted

  -- The counter of the address goes up by one, and the handler runs if it was below the rate.
  Limited : ℕ → ℕ → Request → S × W → Type 0
  Limited c h r state =
      (v.counter state.0 (rate_key r) ≡ c + 1)
      × (hits state.1 + (c + 1 - max_rate) ≡ h + 1 + (c - max_rate))

  outcome-Limited :
      (over : Bool) (n c : ℕ) (r : Request) (s₁ : S) (w : W)
      → ltb max_rate n ≡ over
      → n ≡ c + 1
      → v.counter s₁ (rate_key r) ≡ n
      → Limited c (hits w) r (counted_outcome over n r s₁ w).1
  unfolding Limited counted_outcome
  outcome-Limited true n c r s₁ w test next_one stored =
      (expired-counter _ _ s₁ ∙ stored ∙ next_one, ground arith)
  outcome-Limited false n c r s₁ w test next_one stored =
      let counted = counts r w in (expired-counter _ _ s₁ ∙ stored ∙ next_one, ground arith)

  one_request :
      (r : Request) (s : S) (w : W)
      → Limited (v.counter s (rate_key r)) (hits w) r (rate_limit redis next r (s, w)).1
  one_request r s w =
      let (n, s₁, counted) = incr_up (rate_key r) s in
      let (value, stored, _) = laws.incr_ok (rate_key r) n s s₁ counted in
      rw (counted-rate_limit r s w n s₁ counted) (outcome-Limited _ n _ r s₁ w refl value stored)

  -- The state after a sequence of requests.
  unfoldable pub after_all : List Request → S × W → S × W
  after_all [] state = state
  after_all (r ∷ rs) state = after_all rs (rate_limit redis next r state).1

  -- With Redis up, requests of one address that all fall into one window: of n requests that find
  -- the counter at c, the handler runs for those that are among the first fifty.
  pub after_all-hits :
      (k : String) (rs : List Request) (s : S) (w : W)
      → ((r : Request) → Member r rs → rate_key r ≡ k)
      → let state = after_all rs (s, w) in
        (v.counter state.0 k ≡ v.counter s k + length rs)
        × (hits state.1 + (v.counter s k + length rs - max_rate)
            ≡ hits w + length rs + (v.counter s k - max_rate))
  unfolding after_all Limited
  after_all-hits k [] s w same_key = (omega arith, omega arith)
  after_all-hits k (r ∷ rs) s w same_key =
      let here = same_key r (inl refl) in
      let (s₁, w₁) = (rate_limit redis next r (s, w)).1 in
      let (up, ran) = one_request r s w in
      let up' : v.counter s₁ k ≡ v.counter s k + 1 = rw here at up in
      let ran' : hits w₁ + (v.counter s k + 1 - max_rate)
          ≡ hits w + 1 + (v.counter s k - max_rate) =
        rw here at ran in
      let (total, runs) = after_all-hits k rs s₁ w₁ λ q listed. same_key q (inr listed) in
      (omega arith, omega arith)

  outcome-ttl :
      (over : Bool) (n : ℕ) (r : Request) (s₁ : S) (w : W)
      → eqb n 1 ≡ false
      → v.ttl (counted_outcome over n r s₁ w).1.0 (rate_key r) ≡ v.ttl s₁ (rate_key r)
  unfolding counted_outcome expired
  outcome-ttl true n r s₁ w later = rw later
  outcome-ttl false n r s₁ w later = rw later

  -- A request that is not the first of its address sets no time to live.
  one_ttl :
      (r : Request) (s : S) (w : W)
      → 1 ≤ v.counter s (rate_key r)
      → v.ttl (rate_limit redis next r (s, w)).1.0 (rate_key r) ≡ v.ttl s (rate_key r)
  one_ttl r s w counted_before =
      let (n, s₁, counted) = incr_up (rate_key r) s in
      let (value, _, _) = laws.incr_ok (rate_key r) n s s₁ counted in
      let later : eqb n 1 ≡ false = ground arith in
      ap (λ p. v.ttl p.1.0 (rate_key r)) (counted-rate_limit r s w n s₁ counted)
      ∙ outcome-ttl (ltb max_rate n) n r s₁ w later
      ∙ laws.incr_ttl (rate_key r) n s s₁ counted (rate_key r)

  all_ttl :
      (k : String) (rs : List Request) (s : S) (w : W)
      → ((r : Request) → Member r rs → rate_key r ≡ k)
      → 1 ≤ v.counter s k
      → v.ttl (after_all rs (s, w)).0 k ≡ v.ttl s k
  unfolding after_all Limited
  all_ttl k [] s w same_key counted_before = refl
  all_ttl k (r ∷ rs) s w same_key counted_before =
      let here = same_key r (inl refl) in
      let (s₁, w₁) = (rate_limit redis next r (s, w)).1 in
      let (up, _) = one_request r s w in
      let up' : v.counter s₁ k ≡ v.counter s k + 1 = rw here at up in
      let kept_here = one_ttl r s w (rw here counted_before) in
      let kept : v.ttl s₁ k ≡ v.ttl s k = rw here at kept_here in
      all_ttl k rs s₁ w₁ (λ q listed. same_key q (inr listed)) (omega arith) ∙ kept

  -- An address that has been counted fifty times, and whose counter has no time to live, as when the
  -- EXPIRE of its first request failed, is shut out for good: however many requests it makes, no
  -- handler runs for them, and its counter gets no time to live.
  pub after_all-no_expiry :
      (k : String) (rs : List Request) (s : S) (w : W)
      → ((r : Request) → Member r rs → rate_key r ≡ k)
      → 50 ≤ v.counter s k
      → v.ttl s k ≡ none
      → let state = after_all rs (s, w) in (v.ttl state.0 k ≡ none) × (hits state.1 ≡ hits w)
  after_all-no_expiry k rs s w same_key full no_ttl =
      let (_, ran) = after_all-hits k rs s w same_key in
      (all_ttl k rs s w same_key (omega arith) ∙ no_ttl, omega arith)
