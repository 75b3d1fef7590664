-- ===== src/Gateway/Service/Retries.antt =====
-- rpc and Execute of api-gateway/internal/service/service.go: how often a call is made, how long the
-- gateway waits, and where the result comes from.
use l.Prelude.{
  ℕ, zero, suc, ◌+◌, ◌≤◌, ◌≡◌, refl, ap, sym, ◌∙◌, Bool, true, false, Option, some, ◌⊎◌, inl, inr,
  arith,
}
use l.Errors
use l.Errors.{Error, Code}
use l.Exec.{Result, ok, err, Exec, lift, settle, ◌>>=◌}
use l.Gateway.Service.{
  after_call, retried, boxed, asserted, should_retry, rpc_loop, rpc, execute, call_boxed,
  max_retries,
}

-- The number of calls made so far and the seconds slept so far.
pub record Meter (S : Type 0) : Type 0 where
  pub calls : S → ℕ
  pub slept : S → ℕ

-- The seconds that the sleeps after the attempts i, i+1, … take.
abbrev pub waits : ℕ → ℕ → ℕ
waits i zero = 0
waits i (suc left) = i + 1 + waits (i + 1) left

module _ {S A : Type 0} (sleep : ℕ → S → S) (fn : Exec S A) (m : Meter S) where
  -- A call counts as one and takes none of the sleeping time; a sleep makes no call.
  pub record Metered : Type 0 where
    pub one_call : (s : S) → m.calls (fn s).1 ≡ m.calls s + 1
    pub no_sleep : (s : S) → m.slept (fn s).1 ≡ m.slept s
    pub no_call : (n : ℕ) (s : S) → m.calls (sleep n s) ≡ m.calls s
    pub sleeps : (n : ℕ) (s : S) → m.slept (sleep n s) ≡ m.slept s + n

module _ {S A : Type 0} (from_error : Error → Option Code) (sleep : ℕ → S → S) (fn : Exec S A)
    (m : Meter S) where
  -- Where the error of a loop comes from: the last call, whose error is not to be retried, or all the
  -- attempts made.
  abbrev pub GaveUp : ℕ → ℕ → S → Error → S → Type 0
  GaveUp i n s e s' =
      ((s₀ : S) × (fn s₀ ≡ (err e, s')) × (should_retry from_error e ≡ false))
      ⊎ ((e ≡ Errors.text "max retries exceeded")
          × (m.calls s' ≡ m.calls s + n)
          × (m.slept s' ≡ m.slept s + waits i n))

  -- Where a result comes from: a value from the last call.
  abbrev pub Origin : ℕ → ℕ → S → S → Result A → Type 0
  Origin i n s s' (ok a) = (s₀ : S) × (fn s₀ ≡ (ok a, s'))
  Origin i n s s' (err e) = GaveUp i n s e s'

  -- What a loop of n attempts may do.
  pub record Tried (i n : ℕ) (s : S) (r : Result A) (s' : S) : Type 0 where
    pub calls_bounded : m.calls s' ≤ m.calls s + n
    pub sleep_bounded : m.slept s' ≤ m.slept s + waits i n
    pub origin : Origin i n s s' r

  module _ (metered : Metered sleep fn m) where
    Tried-last_call :
        (i left : ℕ) (s : S) (r : Result A) (s₁ : S)
        → fn s ≡ (r, s₁)
        → Origin i (suc left) s s₁ r
        → Tried i (suc left) s r s₁
    Tried-last_call i left s r s₁ called final =
        let calls : m.calls s₁ ≡ m.calls s + 1 =
          sym (ap (λ p. m.calls p.1) called) ∙ metered.one_call s in
        let slept : m.slept s₁ ≡ m.slept s =
          sym (ap (λ p. m.slept p.1) called) ∙ metered.no_sleep s in
        record { calls_bounded = omega arith; sleep_bounded = omega arith; origin = final }

    Origin-earlier :
        (i left : ℕ) (s s₁ s' : S) (r : Result A)
        → m.calls s₁ ≡ m.calls s + 1
        → m.slept s₁ ≡ m.slept s
        → Origin (i + 1) left (sleep (i + 1) s₁) s' r
        → Origin i (suc left) s s' r
    Origin-earlier i left s s₁ s' (ok a) calls slept called = called
    Origin-earlier i left s s₁ s' (err e) calls slept (inl final) = inl final
    Origin-earlier i left s s₁ s' (err e) calls slept (inr (text, all_calls, all_sleeps)) =
        let calls' = metered.no_call (i + 1) s₁ in
        let slept' = metered.sleeps (i + 1) s₁ in inr (text, omega arith, omega arith)

    Tried-next_call :
        (i left : ℕ) (s : S) (e : Error) (s₁ : S) (r : Result A) (s' : S)
        → fn s ≡ (err e, s₁)
        → Tried (i + 1) left (sleep (i + 1) s₁) r s'
        → Tried i (suc left) s r s'
    Tried-next_call i left s e s₁ r s' called rest =
        let calls : m.calls s₁ ≡ m.calls s + 1 =
          sym (ap (λ p. m.calls p.1) called) ∙ metered.one_call s in
        let slept : m.slept s₁ ≡ m.slept s =
          sym (ap (λ p. m.slept p.1) called) ∙ metered.no_sleep s in
        let calls' = metered.no_call (i + 1) s₁ in
        let slept' = metered.sleeps (i + 1) s₁ in
        let bounded = rest.calls_bounded in
        let short = rest.sleep_bounded in
        record {
          calls_bounded = omega arith;
          sleep_bounded = omega arith;
          origin = Origin-earlier i left s s₁ s' r calls slept rest.origin;
        }

    after_call-Tried :
        (i left : ℕ) (s : S) (r : Result A) (s₁ : S) (b : Bool) (again : Result A × S)
        → fn s ≡ (r, s₁)
        → retried from_error sleep fn r ≡ b
        → Tried (i + 1) left (sleep (i + 1) s₁) again.0 again.1
        → let p = after_call from_error sleep fn b r s₁ again in Tried i (suc left) s p.0 p.1
    after_call-Tried i left s (ok a) s₁ b again called same rest =
        Tried-last_call i left s (ok a) s₁ called (s, called)
    after_call-Tried i left s (err e) s₁ true again called same rest =
        Tried-next_call i left s e s₁ _ _ called rest
    after_call-Tried i left s (err e) s₁ false again called same rest =
        Tried-last_call i left s (err e) s₁ called (inl (s, called, same))

    rpc_loop-Tried :
        (i left : ℕ) (s : S)
        → let p = rpc_loop from_error sleep fn i left s in Tried i left s p.0 p.1
    unfolding rpc_loop
    rpc_loop-Tried i zero s = record {
      calls_bounded = omega arith;
      sleep_bounded = omega arith;
      origin = inr (refl, omega arith, omega arith);
    }
    rpc_loop-Tried i (suc left) s =
        let (r, s₁) = fn s in
        after_call-Tried i left s r s₁ _ _ refl refl
          (rpc_loop-Tried (i + 1) left (sleep (i + 1) s₁))

    -- For a call that counts as one and takes no sleeping time, rpc makes at most three calls and
    -- sleeps at most six seconds. A value that it returns is that of its last call. An error is the
    -- error of its last call, and one that is not to be retried, or else three calls were made, six
    -- seconds slept, and the error is "max retries exceeded".
    pub rpc-Tried : (s : S) → let p = rpc from_error sleep fn s in Tried 0 max_retries s p.0 p.1
    unfolding rpc
    rpc-Tried s = rpc_loop-Tried 0 max_retries s

-- Documented behaviour of a breaker: a call is refused with an error and the function does not run,
-- or the function runs once and its result is passed on.
module _ {S B Any : Type 0} (execute_any : Exec S Any → Exec (B × S) Any) where
  pub record IsBreaker : Type 0 where
    pub refuses_or_runs :
        (fn : Exec S Any) (b : B) (s : S)
        → (b' : B) × (((e : Error) × (execute_any fn (b, s) ≡ (err e, (b', s))))
            ⊎ (execute_any fn (b, s) ≡ ((fn s).0, (b', (fn s).1))))

module _ {S A B Any : Type 0} (from_error : Error → Option Code) (sleep : ℕ → S → S)
    (execute_any : Exec S Any → Exec (B × S) Any) (box : A → Any) (assert_type : Any → Option A)
    (breaker : IsBreaker execute_any) (same_type : (a : A) → assert_type (box a) ≡ some a) where
  unboxed :
      (r : Result A) (b : B) (s : S)
      → settle {S = B × S} {A = Any}
          (boxed from_error sleep execute_any box assert_type r)
          (λ value. lift (asserted from_error sleep execute_any box assert_type value))
          (b, s)
        ≡ (r, (b, s))
  unfolding ◌>>=◌
  unboxed (ok a) b s = rw (same_type a, asserted, lift)
  unboxed (err e) b s = refl

  -- Through a breaker, a call is refused with an error and nothing runs, or it is that of rpc, with
  -- the same result: the assertion of the type succeeds.
  pub execute-rpc :
      (fn : Exec S A) (b : B) (s : S)
      → (b' : B) × (((e : Error) × (execute from_error sleep execute_any box assert_type fn (b, s)
              ≡ (err e, (b', s))))
          ⊎ (let (r, s') = rpc from_error sleep fn s in
              execute from_error sleep execute_any box assert_type fn (b, s) ≡ (r, (b', s'))))
  unfolding execute ◌>>=◌
  execute-rpc fn b s =
      let (b', outcome) =
        breaker.refuses_or_runs (call_boxed from_error sleep execute_any box assert_type fn) b s in
      (
        b',
        elim outcome [
          | inl (e, refused) ↦ inl (e, rw refused)
          | inr ran ↦ inr (
              ap
                (λ (p : Result Any × (B × S)).
                  settle {S = B × S} p.0
                    (λ value. lift (asserted from_error sleep execute_any box assert_type value))
                    p.1)
                ran
              ∙ unboxed _ b' _)
        ],
      )
