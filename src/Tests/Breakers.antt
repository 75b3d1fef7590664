-- ===== src/Tests/Breakers.antt =====
-- The circuit breaker of the gateway, at a concrete breaker.
use l.Prelude.{
  ℕ, ◌+◌, String, ◌≡◌, refl, List, [], ◌∷◌, Bool, true, false, some, none, Option, if◌then◌else◌,
  ltb, arith,
}
use l.Errors
use l.Errors.{Error, Code}
use l.Exec.{Result, ok, err, Exec}
use l.Gateway.Service.{rpc, execute}
use l.Gateway.Breaker.{Counts, new_cb, Phase, BreakerView, one_more, Next, IsGobreaker}
use l.Gateway.Breaker.Trips.{after_calls, execute-tripped}

-- A breaker of one interval that does not end, with its phase and its counts.
abbrev pub Cb : Type 0
Cb = Phase × Counts

abbrev pub start : Cb
start = (Phase.state_closed, record { consecutive_failures = 0 })

abbrev next : Bool → Counts → Cb
next true c = (Phase.state_open, c)
next false c = (Phase.state_closed, c)

abbrev wrong : Error
wrong = Errors.text "Invalid password"

abbrev pub is_open : Error
is_open = Errors.text "circuit breaker is open"

abbrev settle_cb : {S Any : Type 0} → Counts → Result Any × S → Result Any × (Cb × S)
settle_cb c (ok a, s) = (ok a, ((Phase.state_closed, record { consecutive_failures = 0 }), s))
settle_cb c (err e, s) = (err e, (next (ltb 5 (one_more c).consecutive_failures) (one_more c), s))

abbrev pub run_cb : {S Any : Type 0} → Exec S Any → Exec (Cb × S) Any
run_cb fn ((Phase.state_closed, c), s) = settle_cb c (fn s)
run_cb fn ((phase, c), s) = (err is_open, ((phase, c), s))

abbrev pub view : {S : Type 0} → BreakerView Cb S
view = record { phase = λ b. b.0; counts = λ b. b.1; is_over = λ b s. false }

next-Next :
    (t : Bool) (c : Counts)
    → (if t
        then (next t c).0 ≡ Phase.state_open
        else ((next t c).0 ≡ Phase.state_closed) × ((next t c).1 ≡ c))
next-Next true c = refl
next-Next false c = (refl, refl)

run_closed :
    {S Any : Type 0} (fn : Exec S Any) (b : Cb) (s s' : S) (e : Error)
    → b.0 ≡ Phase.state_closed
    → fn s ≡ (err e, s')
    → (b' : Cb) × (run_cb fn (b, s) ≡ (err e, (b', s')))
      × Next (new_cb "UserService") (view {S = S}) b b'
unfolding new_cb
run_closed fn (Phase.state_closed, c) s s' e closed failed =
    (next (ltb 5 (one_more c).consecutive_failures) (one_more c), rw failed refl, next-Next _ _)
run_closed fn (Phase.state_half_open, c) s s' e closed failed = cc
run_closed fn (Phase.state_open, c) s s' e closed failed = cc

run_succeeds :
    {S Any : Type 0} (fn : Exec S Any) (b : Cb) (s s' : S) (a : Any)
    → b.0 ≡ Phase.state_closed
    → fn s ≡ (ok a, s')
    → (b' : Cb) × (run_cb fn (b, s) ≡ (ok a, (b', s'))) × (b'.0 ≡ Phase.state_closed)
run_succeeds fn (Phase.state_closed, c) s s' a closed done = (start, rw done refl, refl)
run_succeeds fn (Phase.state_half_open, c) s s' a closed done = cc
run_succeeds fn (Phase.state_open, c) s s' a closed done = cc

run_open :
    {S Any : Type 0} (fn : Exec S Any) (b : Cb) (s : S)
    → b.0 ≡ Phase.state_open
    → run_cb fn (b, s) ≡ (err is_open, (b, s))
run_open fn (Phase.state_closed, c) s opened = cc
run_open fn (Phase.state_half_open, c) s opened = cc
run_open fn (Phase.state_open, c) s opened = refl

pub run_cb-IsGobreaker :
    {S Any : Type 0} → IsGobreaker {S = S} {Any = Any} (new_cb "UserService") run_cb view is_open
run_cb-IsGobreaker = record {
  success_while_closed = λ fn b s s' a closed done. run_succeeds fn b s s' a closed done;
  failure_while_closed = λ fn b s s' e closed _ _ failed. run_closed fn b s s' e closed failed;
  refused_while_open = λ fn b s opened _. run_open fn b s opened;
}

-- Log-ins with a wrong password, counted.
abbrev log_in : Exec ℕ String
log_in n = (err wrong, n + 1)

abbrev from_error : Error → Option Code
from_error e = none

abbrev sleep : ℕ → ℕ → ℕ
sleep n s = s

abbrev five : List (Exec ℕ String)
five = log_in ∷ log_in ∷ log_in ∷ log_in ∷ log_in ∷ []

abbrev two : List (Exec ℕ String)
two = log_in ∷ log_in ∷ []

abbrev try : Exec ℕ String → Exec (Cb × ℕ) String
try fn = execute from_error sleep run_cb (λ a. a) (λ a. some a) fn

abbrev after_two : Cb × ℕ
after_two = after_calls from_error sleep run_cb (λ a. a) (λ a. some a) two (start, 0)

abbrev after_five : Cb × ℕ
after_five = after_calls from_error sleep run_cb (λ a. a) (λ a. some a) five (start, 0)

execute-tripped_example :
    (after_two.0.0 ≡ Phase.state_closed)
    × (after_two.0.1.consecutive_failures ≡ 2)
    × (after_five.0.0 ≡ Phase.state_closed)
    × ((try log_in after_five).1.0.0 ≡ Phase.state_open)
    × (try log_in (try log_in after_five).1 ≡ (err is_open, (try log_in after_five).1))
unfolding execute l.Gateway.Service.rpc l.Gateway.Service.rpc_loop l.Gateway.Service.should_retry
    l.Exec.◌>>=◌
execute-tripped_example =
    execute-tripped from_error sleep run_cb (λ a. a) (λ a. some a) "UserService" view is_open
      run_cb-IsGobreaker two five log_in log_in start 0 refl refl (omega arith)
      (wrongly 0, (wrongly 1, tt)) refl
      (wrongly 0, (wrongly 1, (wrongly 2, (wrongly 3, (wrongly 4, tt))))) (wrongly 5, tt) refl
  where
    wrongly :
        (n : ℕ)
        → (e : Error) × (s' : ℕ) × (rpc from_error sleep log_in n ≡ (err e, s'))
          × (false ≡ false)
          × (false ≡ false)
    wrongly n = (wrong, n + 1, refl, refl, refl)
