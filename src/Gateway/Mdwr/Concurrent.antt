-- ===== src/Gateway/Mdwr/Concurrent.antt =====
-- The rate limiter of api-gateway/internal/mdwr/rl.go under concurrent requests: net/http runs each
-- request in a goroutine of its own, so that between two commands of one request those of others
-- reach Redis. One turn of a request is one command, or the decision after it.
pub mod Rate
pub mod Alone
use l.Prelude.{ℕ, zero, suc, ◌+◌, String, List, [], ◌∷◌, ◌==◌, if◌then◌else◌, ltb, eqb}
use l.Exec.{Result, ok, err}
use l.Redis.{Redis}
use l.Gateway.Http.{Request}
use l.Gateway.Mdwr.{rate_key, max_rate, exp}

-- Where a request is in the middleware: before INCR, with the answer of INCR, after the EXPIRE of a
-- count one, and with the decision. A request that Redis could not count is let through `unlimited`.
pub data Phase : Type 0 where
  waiting passed refused unlimited : Phase
  counted : Result ℕ → Phase
  checked : ℕ → Phase

abbrev pub Thread : Type 0
Thread = Request × Phase

module _ {S : Type 0} (redis : Redis S) where
  -- One turn of a request under the given key.
  unfoldable pub advance : String → Phase → S → Phase × S
  advance key Phase.waiting s = let (count, s₁) = redis.incr key s in (Phase.counted count, s₁)
  advance key (Phase.counted (err e)) s = (Phase.unlimited, s)
  advance key (Phase.counted (ok count)) s =
      (Phase.checked count, if eqb count 1 then (redis.expire_key key exp s).1 else s)
  advance key (Phase.checked count) s =
      (if ltb max_rate count then Phase.refused else Phase.passed, s)
  advance key Phase.passed s = (Phase.passed, s)
  advance key Phase.refused s = (Phase.refused, s)
  advance key Phase.unlimited s = (Phase.unlimited, s)

  -- The turn of the i-th request.
  unfoldable pub turn : ℕ → List Thread → S → List Thread × S
  unfolding advance
  turn i [] s = ([], s)
  turn zero ((r, p) ∷ ts) s = let (p', s') = advance (rate_key r) p s in ((r, p') ∷ ts, s')
  turn (suc i) (t ∷ ts) s = let (ts', s') = turn i ts s in (t ∷ ts', s')

  -- A schedule names the request whose turn it is.
  unfoldable pub play : List ℕ → List Thread → S → List Thread × S
  unfolding turn
  play [] ts s = (ts, s)
  play (i ∷ schedule) ts s = let (ts', s') = turn i ts s in play schedule ts' s'

abbrev pub arrived : List Request → List Thread
arrived [] = []
arrived (r ∷ rs) = (r, Phase.waiting) ∷ arrived rs

-- The sum of what the requests of one address count for.
abbrev pub tally : (Phase → ℕ) → String → List Thread → ℕ
tally f k [] = 0
tally f k ((r, p) ∷ ts) = (if rate_key r == k then f p else 0) + tally f k ts

abbrev pub is_passed : Phase → ℕ
is_passed Phase.passed = 1
is_passed _ = 0

abbrev pub is_refused : Phase → ℕ
is_refused Phase.refused = 1
is_refused _ = 0

abbrev pub one : Phase → ℕ
one p = 1
