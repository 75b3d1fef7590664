-- ===== src/Gateway/Mdwr/Concurrent/Rate.antt =====
-- However concurrent requests of api-gateway/internal/mdwr/rl.go interleave, the limit of an address holds.
use l.Prelude.{
  Bool-cases, str_eq→eq, str_eq→ne, ℕ, zero, suc, ◌+◌, ◌-◌, ◌≤◌, String, ◌≡◌, ◌≢◌, refl, sym, ap,
  ◌∙◌, Bool, true, false, List, [], ◌∷◌, ◌==◌, if◌then◌else◌, ltb, eqb, inl, inr, arith,
}
use l.Exec.{ok, err}
use l.Redis.{Redis, View, IsRedis}
use l.Gateway.Http.{Request}
use l.Gateway.Mdwr.{rate_key, max_rate, exp}
use l.Gateway.Mdwr.Concurrent.{
  Phase, Thread, advance, turn, play, arrived, tally, is_passed, is_refused, one,
}

-- A count that the limit lets through.
abbrev fits : ℕ → ℕ
fits n = if ltb max_rate n then 0 else 1

-- The requests that pass or will, and those that Redis has counted.
abbrev credit : Phase → ℕ
credit (Phase.counted (ok n)) = fits n
credit (Phase.checked n) = fits n
credit Phase.passed = 1
credit _ = 0

abbrev begun : Phase → ℕ
begun (Phase.counted (ok n)) = 1
begun (Phase.checked n) = 1
begun Phase.passed = 1
begun Phase.refused = 1
begun _ = 0

tally_le :
    (f g h : Phase → ℕ) (k : String)
    → ((p : Phase) → f p + g p ≤ h p)
    → (ts : List Thread) → tally f k ts + tally g k ts ≤ tally h k ts
tally_le f g h k le [] = omega arith
tally_le f g h k le ((r, p) ∷ ts) =
    let here = le p in let rest = tally_le f g h k le ts in ground arith

passed_le : (p : Phase) → is_passed p + 0 ≤ credit p
passed_le Phase.waiting = omega arith
passed_le Phase.passed = omega arith
passed_le Phase.refused = omega arith
passed_le Phase.unlimited = omega arith
passed_le (Phase.counted (ok n)) = ground arith
passed_le (Phase.counted (err e)) = omega arith
passed_le (Phase.checked n) = ground arith

refused_le : (p : Phase) → is_refused p + credit p ≤ begun p
refused_le Phase.waiting = omega arith
refused_le Phase.passed = omega arith
refused_le Phase.refused = omega arith
refused_le Phase.unlimited = omega arith
refused_le (Phase.counted (ok n)) = ground arith
refused_le (Phase.counted (err e)) = omega arith
refused_le (Phase.checked n) = ground arith

begun_le : (p : Phase) → begun p + 0 ≤ one p
begun_le Phase.waiting = omega arith
begun_le Phase.passed = omega arith
begun_le Phase.refused = omega arith
begun_le Phase.unlimited = omega arith
begun_le (Phase.counted (ok n)) = omega arith
begun_le (Phase.counted (err e)) = omega arith
begun_le (Phase.checked n) = omega arith

-- Nobody has begun when the requests arrive.
arrived-none :
    (k : String) (rs : List Request)
    → (tally credit k (arrived rs) ≡ 0) × (tally begun k (arrived rs) ≡ 0)
arrived-none k [] = (refl, refl)
arrived-none k (r ∷ rs) = let (c, b) = arrived-none k rs in (ground arith, ground arith)

module _ {S : Type 0} (redis : Redis S) (v : View S) (laws : IsRedis redis v)
    (incr_up : (k : String) (s : S) → (n : ℕ) × (s' : S) × (redis.incr k s ≡ (ok n, s'))) where
  -- Between the requests and the counter, with weights before and after: what passes is taken from
  -- what the limit leaves, and what begins goes to the counter.
  abbrev Balanced : ℕ → ℕ → ℕ → ℕ → ℕ → ℕ → Type 0
  Balanced cr be c cr' be' c' = (cr' + (max_rate - c') ≡ cr + (max_rate - c)) × (be' + c ≡ be + c')

  expire_kept :
      (b : Bool) (j k : String) (s : S)
      → v.counter (if b then (redis.expire_key j exp s).1 else s) k ≡ v.counter s k
  expire_kept true j k s = laws.expire_counter j exp s k
  expire_kept false j k s = refl

  counts_one : (c n : ℕ) → n ≡ c + 1 → Balanced 0 0 c (fits n) 1 n
  counts_one c n next = (ground arith, omega arith)

  decides :
      (over : Bool) (c : ℕ)
      → let p = if over then Phase.refused else Phase.passed in
        Balanced (if over then 0 else 1) 1 c (credit p) (begun p) c
  decides true c = (refl, refl)
  decides false c = (refl, refl)

  -- The turn of a request of the address.
  own :
      (k : String) (p : Phase) (s : S)
      → let (p', s') = advance redis k p s in
        Balanced (credit p) (begun p) (v.counter s k) (credit p') (begun p') (v.counter s' k)
  unfolding advance
  own k Phase.waiting s =
      let (n, s₁, counted) = incr_up k s in
      let (next, stored, _) = laws.incr_ok k n s s₁ counted in
      rw (counted, stored) (counts_one (v.counter s k) n next)
  own k (Phase.counted (ok n)) s = rw (expire_kept (eqb n 1) k k s) (refl, refl)
  own k (Phase.counted (err e)) s = (refl, refl)
  own k (Phase.checked n) s = decides (ltb max_rate n) (v.counter s k)
  own k Phase.passed s = (refl, refl)
  own k Phase.refused s = (refl, refl)
  own k Phase.unlimited s = (refl, refl)

  -- The turn of a request of another address.
  other :
      (j k : String) (p : Phase) (s : S)
      → k ≢ j
      → v.counter (advance redis j p s).1 k ≡ v.counter s k
  unfolding advance
  other j k Phase.waiting s apart =
      let (n, s₁, counted) = incr_up j s in
      let (_, _, kept) = laws.incr_ok j n s s₁ counted in rw counted (kept k apart)
  other j k (Phase.counted (ok n)) s apart = expire_kept (eqb n 1) j k s
  other j k (Phase.counted (err e)) s apart = refl
  other j k (Phase.checked n) s apart = refl
  other j k Phase.passed s apart = refl
  other j k Phase.refused s apart = refl
  other j k Phase.unlimited s apart = refl

  -- The turn of any request.
  one_turn :
      (r : Request) (k : String) (p : Phase) (s : S)
      → let (p', s') = advance redis (rate_key r) p s in
        let b = rate_key r == k in
        Balanced
          (if b then credit p else 0)
          (if b then begun p else 0)
          (v.counter s k)
          (if b then credit p' else 0)
          (if b then begun p' else 0)
          (v.counter s' k)
  one_turn r k p s = elim (Bool-cases (rate_key r == k)) [
    | inl same ↦ rw (same, str_eq→eq (rate_key r) k same) (own k p s)
    | inr differs ↦
        let kept = other (rate_key r) k p s (λ e. str_eq→ne (rate_key r) k differs (sym e)) in
        rw differs (ap (λ c. 0 + (max_rate - c)) kept, ap (λ c. 0 + c) (sym kept))
  ]

  abbrev Settled : String → List Thread → S → List Thread → S → Type 0
  Settled k ts s ts' s' =
      Balanced (tally credit k ts) (tally begun k ts) (v.counter s k) (tally credit k ts')
        (tally begun k ts') (v.counter s' k)
      × (tally one k ts' ≡ tally one k ts)

  turn-Settled :
      (k : String) (i : ℕ) (ts : List Thread) (s : S)
      → let (ts', s') = turn redis i ts s in Settled k ts s ts' s'
  unfolding turn
  turn-Settled k i [] s = ((refl, refl), refl)
  turn-Settled k zero ((r, p) ∷ ts) s =
      let (passing, counting) = one_turn r k p s in ((omega arith, omega arith), refl)
  turn-Settled k (suc i) ((r, p) ∷ ts) s =
      let ((passing, counting), same) = turn-Settled k i ts s in
      ((omega arith, omega arith), omega arith)

  play-Settled :
      (k : String) (schedule : List ℕ) (ts : List Thread) (s : S)
      → let (ts', s') = play redis schedule ts s in Settled k ts s ts' s'
  unfolding play
  play-Settled k [] ts s = ((refl, refl), refl)
  play-Settled k (i ∷ schedule) ts s =
      let (ts', s') = turn redis i ts s in
      let ((p₁, c₁), n₁) = turn-Settled k i ts s in
      let ((p₂, c₂), n₂) = play-Settled k schedule ts' s' in ((p₂ ∙ p₁, omega arith), n₂ ∙ n₁)

  -- With Redis up, whatever the schedule of concurrent requests of any addresses, and at every moment
  -- of it: of n requests of an address that fall into one window and find its counter at c, no
  -- more pass than the fifty leave, which is 50 - c, and no more are refused than exceed that.
  pub play-limits :
      (k : String) (schedule : List ℕ) (rs : List Request) (s : S)
      → let after = (play redis schedule (arrived rs) s).0 in
        (tally is_passed k after ≤ 50 - v.counter s k)
        × (tally is_refused k after ≤ tally one k (arrived rs) - (50 - v.counter s k))
  play-limits k schedule rs s =
      let after = (play redis schedule (arrived rs) s).0 in
      let (no_credit, none_begun) = arrived-none k rs in
      let ((passing, counting), same) = play-Settled k schedule (arrived rs) s in
      let passed = tally_le is_passed (λ p. 0) credit k passed_le after in
      let refused = tally_le is_refused credit begun k refused_le after in
      let bounded = tally_le begun (λ p. 0) one k begun_le after in (omega arith, omega arith)
