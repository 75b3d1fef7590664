-- ===== src/Gateway/Service.antt =====
-- api-gateway/internal/service/service.go: the retries of a gRPC call, and the call through a circuit
-- breaker. status.FromError, time.Sleep and gobreaker are parameters.
pub mod Retries
pub mod Failures
pub mod Writer
use l.Prelude.{ℕ, zero, suc, ◌+◌, Bool, true, false, not, Option, none, some, if◌then◌else◌}
use l.Errors
use l.Errors.{Error, Code}
use l.Exec.{Result, ok, err, Exec, lift, ◌>>=◌}

abbrev pub max_retries : ℕ
max_retries = 3

-- The switch of shouldRetry.
abbrev pub is_transient : Code → Bool
is_transient Code.canceled = true
is_transient Code.deadline_exceeded = true
is_transient Code.resource_exhausted = true
is_transient Code.aborted = true
is_transient Code.unavailable = true
is_transient Code.data_loss = true
is_transient _ = false

module _ (from_error : Error → Option Code) where
  -- shouldRetry
  unfoldable pub should_retry : Error → Bool
  should_retry e = elim (from_error e) [ none ↦ false | some code ↦ is_transient code ]

module _ {S A : Type 0} (from_error : Error → Option Code) (sleep : ℕ → S → S) (fn : Exec S A) where
  -- What rpc does with the result of a call; `again` is the rest of the loop, after the sleep.
  abbrev pub after_call : Bool → Result A → S → Result A × S → Result A × S
  after_call retried (ok a) s again = (ok a, s)
  after_call retried (err e) s again = if not retried then (err e, s) else again

  abbrev pub retried : Result A → Bool
  retried (ok a) = false
  retried (err e) = should_retry from_error e

  -- The loop of rpc: the index and the attempts that are left.
  unfoldable pub rpc_loop : ℕ → ℕ → Exec S A
  rpc_loop i zero s = (err (Errors.text "max retries exceeded"), s)
  rpc_loop i (suc left) s =
      let (r, s₁) = fn s in
      let again = rpc_loop (i + 1) left (sleep (i + 1) s₁) in after_call (retried r) r s₁ again

  -- rpc
  unfoldable pub rpc : Exec S A
  unfolding rpc_loop
  rpc = rpc_loop 0 max_retries

-- Execute. `execute_any` is the Execute of the breaker, whose state is `B`; a value passes through it
-- as an `any`, so it is boxed and its type is asserted afterwards.
module _ {S A B Any : Type 0} (from_error : Error → Option Code) (sleep : ℕ → S → S)
    (execute_any : Exec S Any → Exec (B × S) Any) (box : A → Any)
    (assert_type : Any → Option A) where
  abbrev pub boxed : Result A → Result Any
  boxed (ok a) = ok (box a)
  boxed (err e) = err e

  -- The function literal given to the breaker.
  abbrev pub call_boxed : Exec S A → Exec S Any
  call_boxed fn s = let (r, s₁) = rpc from_error sleep fn s in (boxed r, s₁)

  abbrev pub asserted : Any → Result A
  asserted value = elim (assert_type value) [
    | none ↦ err (Errors.text "Failed parse response to needed type")
    | some a ↦ ok a
  ]

  -- service.Execute
  unfoldable pub execute : Exec S A → Exec (B × S) A
  execute fn = do value ← execute_any (call_boxed fn); lift (asserted value)
