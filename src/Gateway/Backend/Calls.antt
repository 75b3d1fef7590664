-- ===== src/Gateway/Backend/Calls.antt =====
-- A call of user-service through service.Execute of the gateway and the breaker.
use l.Prelude.{ℕ, String, ◌≡◌, refl, Option}
use l.Errors.{Error, Code}
use l.Exec.{ok, Exec, lift, ◌>>=◌}
use l.Libs.{Libs, World}
use l.Gateway.Service.{asserted, call_boxed, rpc}
use l.Gateway.Breaker.{Phase, BreakerView, IsGobreaker, new_cb}
use l.Gateway.Backend.{Boxed, Responses, call}

-- The network delivers a call and its answer.
abbrev pub Delivers : {W : Type 0} → ((A : Type 0) → Exec W A → Exec W A) → Type 1
Delivers {W} dial =
    (A : Type 0) (m : Exec W A) (w : W) (a : A) (w' : W)
    → m w ≡ (ok a, w')
    → dial A m w ≡ (ok a, w')

module _ {K S D Q Tx B Any : Type 0} (x : Libs K S D Q Tx) (from_error : Error → Option Code)
    (sleep : ℕ → World K S D → World K S D)
    (execute_any : Exec (World K S D) Any → Exec (B × World K S D) Any)
    (dial : (A : Type 0) → Exec (World K S D) A → Exec (World K S D) A) (responses : Responses Any)
    (v : BreakerView B (World K S D)) (open_state : Error) (name : String)
    (breaker : IsGobreaker (new_cb name) execute_any v open_state) (delivers : Delivers dial) where
  pub call-of-ok :
      {A : Type 0} (boxed : Boxed A Any) (m : Exec (World K S D) A) (b : B) (w : World K S D)
      {a : A} {w' : World K S D}
      → v.phase b ≡ Phase.state_closed
      → m w ≡ (ok a, w')
      → (b' : B) × (call from_error sleep execute_any dial boxed m (b, w) ≡ (ok a, (b', w')))
        × (v.phase b' ≡ Phase.state_closed)
  unfolding call ◌>>=◌ rpc
  call-of-ok boxed m b w {a} {w'} closed done =
      let (b', passed, closed') =
        breaker.success_while_closed
          (call_boxed from_error sleep execute_any boxed.box boxed.assert_type (dial _ m)) b w w'
          (boxed.box a) closed (rw (delivers _ m w a w' done) refl) in
      (b', rw (passed, boxed.same_type a, asserted, lift), closed')
