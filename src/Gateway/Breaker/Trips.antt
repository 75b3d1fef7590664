-- ===== src/Gateway/Breaker/Trips.antt =====
-- When the breaker of api-gateway/internal/cbreaker/cb.go opens for the calls that service.Execute
-- makes through it.
use mathlib.Core.Path.{subst}
use native.Mathlib.Nat.{mod-eq_of_lt}
use l.Prelude.{
  ℕ, suc, ◌+◌, ◌≤◌, ◌%◌, ◌^◌, Bool-cases, inl, inr, String, ◌≡◌, refl, sym, ap, ◌∙◌, false, List,
  [], ◌∷◌, Option, arith, ltb, leb, if◌then◌else◌,
}
use l.Prelude.Lists.{length}
use l.Errors.{Error, Code}
use l.Exec.{err, Exec, ◌>>=◌}
use l.Gateway.Service.{rpc, execute, call_boxed}
use l.Gateway.Breaker.{new_cb, Phase, BreakerView, Next, IsGobreaker}

module _ {S A B Any : Type 0} (from_error : Error → Option Code) (sleep : ℕ → S → S)
    (execute_any : Exec S Any → Exec (B × S) Any) (box : A → Any)
    (assert_type : Any → Option A) where
  abbrev through : Exec S A → Exec (B × S) A
  through fn = execute from_error sleep execute_any box assert_type fn

  -- The state after the calls, one after the other.
  abbrev pub after_calls : List (Exec S A) → B × S → B × S
  after_calls [] w = w
  after_calls (fn ∷ fns) w = after_calls fns (through fn w).1

module _ {S A B Any : Type 0} (from_error : Error → Option Code) (sleep : ℕ → S → S)
    (execute_any : Exec S Any → Exec (B × S) Any) (box : A → Any) (assert_type : Any → Option A)
    (name : String) (v : BreakerView B S) (open_state : Error)
    (laws : IsGobreaker (new_cb name) execute_any v open_state) where
  -- Every call ends in an error, within one interval of the breaker.
  abbrev pub AllFail : List (Exec S A) → B × S → Type 0
  AllFail [] w = Unit
  AllFail (fn ∷ fns) (b, s) =
      ((e : Error) × (s' : S) × (rpc from_error sleep fn s ≡ (err e, s'))
        × (v.is_over b s ≡ false)
        × (v.is_over b s' ≡ false))
      × AllFail fns (through from_error sleep execute_any box assert_type fn (b, s)).1

  -- An error of a call in a closed breaker counts.
  counted :
      (fn : Exec S A) (b : B) (s s' : S) (e : Error)
      → v.phase b ≡ Phase.state_closed
      → v.is_over b s ≡ false
      → v.is_over b s' ≡ false
      → rpc from_error sleep fn s ≡ (err e, s')
      → (b' : B) × (through from_error sleep execute_any box assert_type fn (b, s)
          ≡ (err e, (b', s')))
        × Next (new_cb name) v b b'
  unfolding execute ◌>>=◌
  counted fn b s s' e closed early late failed =
      let (b', passed, next) =
        laws.failure_while_closed (call_boxed from_error sleep execute_any box assert_type fn) b s
          s' e closed early late (rw failed refl) in
      (b', rw passed refl, next)

  refused :
      (fn : Exec S A) (b : B) (s : S)
      → v.phase b ≡ Phase.state_open
      → v.is_over b s ≡ false
      → through from_error sleep execute_any box assert_type fn (b, s) ≡ (err open_state, (b, s))
  unfolding execute ◌>>=◌
  refused fn b s is_open early = rw (laws.refused_while_open _ b s is_open early) refl

  -- The breaker after n failures: open from the sixth on, else closed with n counted.
  abbrev pub Tripped : ℕ → B → Type 0
  Tripped n b =
      if leb 6 n
      then v.phase b ≡ Phase.state_open
      else (v.phase b ≡ Phase.state_closed) × ((v.counts b).consecutive_failures ≡ n)

  Tripped-next :
      (b b' : B) (n : ℕ)
      → (v.counts b).consecutive_failures ≡ n
      → n ≤ 5
      → Next (new_cb name) v b b'
      → Tripped (n + 1) b'
  unfolding new_cb
  Tripped-next b b' n same small next =
      let wrapped : ((v.counts b).consecutive_failures + 1) % 2 ^ 32 ≡ n + 1 =
        rw same (mod-eq_of_lt {n = n + 1} {m = 2 ^ 32} (omega arith)) in
      let test : ltb 5 (n + 1) ≡ leb 6 (n + 1) = ground arith in
      let outcome = rw (wrapped, test) at next in
      elim (Bool-cases (leb 6 (n + 1))) [
        | inl sixth ↦ rw sixth (rw sixth at outcome)
        | inr fewer ↦
            let (closed, counts) = rw fewer at outcome in
            rw fewer (closed, ap (λ c. c.consecutive_failures) counts)
      ]

  -- No call is left after the sixth.
  last_call :
      (fns : List (Exec S A)) (b : B) (s : S) (c : ℕ)
      → c + suc (length fns) ≡ 6
      → 6 ≤ c + 1
      → Tripped (c + 1) b
      → Tripped
          (c + suc (length fns))
          (after_calls from_error sleep execute_any box assert_type fns (b, s)).0
  last_call [] b s c six sixth tripped = subst (λ n. Tripped n b) (omega arith) tripped
  last_call (fn ∷ fns) b s c six sixth tripped = absurd (omega arith)

  -- A closed breaker that has counted c failures in a row, after n more.
  Tripped-after_calls :
      (fns : List (Exec S A)) (b : B) (s : S) (c : ℕ)
      → v.phase b ≡ Phase.state_closed
      → (v.counts b).consecutive_failures ≡ c
      → c ≤ 5
      → c + length fns ≤ 6
      → AllFail fns (b, s)
      → Tripped
          (c + length fns)
          (after_calls from_error sleep execute_any box assert_type fns (b, s)).0
  Tripped-after_calls [] b s c closed same small few fails =
      let fewer : leb 6 (c + 0) ≡ false = ground arith in rw fewer (closed, same ∙ omega arith)
  Tripped-after_calls (fn ∷ fns) b s c closed same small few ((e, s', failed, early, late), rest) =
      let (b', ran, next) = counted fn b s s' e closed early late failed in
      let tripped = Tripped-next b b' c same small next in
      let rest' = subst (AllFail fns) (ap (λ p. p.1) ran) rest in
      subst
        (λ w.
          Tripped (c + suc (length fns))
            (after_calls from_error sleep execute_any box assert_type fns w).0)
        (sym (ap (λ p. p.1) ran))
        (elim (Bool-cases (leb 6 (c + 1))) [
          | inl sixth ↦ last_call fns b' s' c (ground arith) (ground arith) tripped
          | inr fewer ↦
              let (closed', same') = rw fewer at tripped in
              subst
                (λ n.
                  Tripped n
                    (after_calls from_error sleep execute_any box assert_type fns (b', s')).0)
                (omega arith)
                (Tripped-after_calls fns b' s' (c + 1) closed' same' (ground arith) (omega arith)
                  rest')
        ])

  -- Through a closed breaker that has counted no failure, calls that end in an error within one
  -- interval, whatever the errors are, leave it closed as long as they are at most five, with their
  -- number counted; and if after five such calls a sixth ends in an error too, it is open. A call made
  -- next, before the timeout, is refused without being made, and leaves the state as it is.
  pub execute-tripped :
      (few fns : List (Exec S A)) (sixth fn : Exec S A) (b : B) (s : S)
      → v.phase b ≡ Phase.state_closed
      → (v.counts b).consecutive_failures ≡ 0
      → length few ≤ 5
      → AllFail few (b, s)
      → length fns ≡ 5
      → AllFail fns (b, s)
      → AllFail (sixth ∷ []) (after_calls from_error sleep execute_any box assert_type fns (b, s))
      → (let (b', s') =
            (execute from_error sleep execute_any box assert_type sixth
              (after_calls from_error sleep execute_any box assert_type fns (b, s))).1 in
          v.is_over b' s' ≡ false)
      → let wₙ = after_calls from_error sleep execute_any box assert_type few (b, s) in
        let w₅ = after_calls from_error sleep execute_any box assert_type fns (b, s) in
        let w₆ = (execute from_error sleep execute_any box assert_type sixth w₅).1 in
        (v.phase wₙ.0 ≡ Phase.state_closed)
        × ((v.counts wₙ.0).consecutive_failures ≡ length few)
        × (v.phase w₅.0 ≡ Phase.state_closed)
        × (v.phase w₆.0 ≡ Phase.state_open)
        × (execute from_error sleep execute_any box assert_type fn w₆ ≡ (err open_state, w₆))
  execute-tripped few fns sixth fn b s closed none_yet at_most some_fail five fails sixth_fails
        in_time =
      let not_six : leb 6 (0 + length few) ≡ false = ground arith in
      let tripped =
        Tripped-after_calls few b s 0 closed none_yet (omega arith) (omega arith) some_fail in
      let (closedₙ, countₙ) = rw not_six at tripped in
      let all_five : 0 + length fns ≡ 5 = omega arith in
      let (closed₅, count₅) =
        subst
          (λ n. Tripped n (after_calls from_error sleep execute_any box assert_type fns (b, s)).0)
          all_five
          (Tripped-after_calls fns b s 0 closed none_yet (omega arith) (omega arith) fails) in
      let (b₅, s₅) = after_calls from_error sleep execute_any box assert_type fns (b, s) in
      let opened =
        Tripped-after_calls (sixth ∷ []) b₅ s₅ 5 closed₅ count₅ (omega arith) (omega arith)
          sixth_fails in
      (closedₙ, countₙ ∙ omega arith, closed₅, opened, refused fn _ _ opened in_time)
