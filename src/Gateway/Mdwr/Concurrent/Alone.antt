-- ===== src/Gateway/Mdwr/Concurrent/Alone.antt =====
-- A request that no other one interrupts: the turns of Concurrent are the middleware of Mdwr.
use l.Prelude.{ℕ, String, ◌≡◌, refl, Bool, true, false, if◌then◌else◌, ltb, eqb}
use l.Exec.{Result, ok, err}
use l.Redis.{Redis}
use l.Gateway.Http.{Request, Reply, Handler}
use l.Gateway.Mdwr.{rate_key, max_rate, exp, limited, rate_limit}
use l.Gateway.Mdwr.Concurrent.{Phase, advance}

-- What the middleware makes of the decision.
abbrev outcome : {S W : Type 0} → Phase → Request → Handler W → S → W → Reply × (S × W)
outcome Phase.refused r next s w = (Reply.error 429 "Too many requests", (s, w))
outcome _ r next s w = let (reply, w') = next r w in (reply, (s, w'))

module _ {S W : Type 0} (redis : Redis S) where
  decision :
      (over : Bool) (r : Request) (next : Handler W) (s : S) (w : W)
      → (if over
          then (Reply.error 429 "Too many requests", (s, w))
          else ((next r w).0, (s, (next r w).1)))
        ≡ outcome (if over then Phase.refused else Phase.passed) r next s w
  decision true r next s w = refl
  decision false r next s w = refl

  -- The two turns after INCR are the rest of the middleware.
  limited-advance :
      (k : String) (r : Request) (next : Handler W) (count : Result ℕ) (s : S) (w : W)
      → let (p₁, s₁) = advance redis k (Phase.counted count) s in
        let (p₂, s₂) = advance redis k p₁ s₁ in
        limited redis k (next r w) w count s ≡ outcome p₂ r next s₂ w
  unfolding advance
  limited-advance k r next (err e) s w = refl
  limited-advance k r next (ok n) s w =
      decision (ltb max_rate n) r next (if eqb n 1 then (redis.expire_key k exp s).1 else s) w

  -- Three turns of a request in a row are the middleware: the decision gives its reply, and the
  -- handler runs unless the request is refused.
  pub rate_limit-advance :
      (r : Request) (next : Handler W) (s : S) (w : W)
      → let (p₁, s₁) = advance redis (rate_key r) Phase.waiting s in
        let (p₂, s₂) = advance redis (rate_key r) p₁ s₁ in
        let (p₃, s₃) = advance redis (rate_key r) p₂ s₂ in
        rate_limit redis next r (s, w) ≡ outcome p₃ r next s₃ w
  unfolding advance rate_limit
  rate_limit-advance r next s w =
      let (count, s₁) = redis.incr (rate_key r) s in limited-advance (rate_key r) r next count s₁ w
