-- ===== src/Gateway/Service/Failures.antt =====
-- Calls that fail under the retries of rpc (api-gateway/internal/service/service.go).
use l.Prelude.{ℕ, zero, suc, ◌+◌, ◌≡◌, refl, ◌∙◌, Bool, true, false, Option, not, if◌then◌else◌}
use l.Errors
use l.Errors.{Error, Code}
use l.Exec.{Result, err, Exec}
use l.Gateway.Service.{rpc, rpc_loop, should_retry, max_retries}

-- An error, with a part of the state kept.
abbrev pub Fails : {S A T : Type 0} → (S → T) → S → Result A × S → Type 0
Fails {S} kept s r = (e : Error) × (s' : S) × (r ≡ (err e, s')) × (kept s' ≡ kept s)

module _ {S A T : Type 0} (from_error : Error → Option Code) (sleep : ℕ → S → S) (fn : Exec S A)
    (kept : S → T) (sleep_keeps : (n : ℕ) (s : S) → kept (sleep n s) ≡ kept s)
    (fails : (s : S) → Fails kept s (fn s)) where
  one_or_again :
      (b : Bool) (e : Error) (s s₁ : S) (again : Result A × S)
      → kept s₁ ≡ kept s
      → Fails kept s again
      → Fails kept s (if not b then (err e, s₁) else again)
  one_or_again true e s s₁ again same rest = rest
  one_or_again false e s s₁ again same rest = (e, s₁, refl, same)

  rpc_loop-Fails : (left i : ℕ) (s : S) → Fails kept s (rpc_loop from_error sleep fn i left s)
  unfolding rpc_loop
  rpc_loop-Fails zero i s = (Errors.text "max retries exceeded", s, refl, refl)
  rpc_loop-Fails (suc left) i s =
      let (e, s₁, failed, same) = fails s in
      let (e', s₂, failed', same') = rpc_loop-Fails left (i + 1) (sleep (i + 1) s₁) in
      rw failed (
        one_or_again (should_retry from_error e) e s s₁ _ same
          (e', s₂, failed', same' ∙ sleep_keeps (i + 1) s₁ ∙ same))

  -- A call that always fails and keeps a part of the state does so under the retries of rpc.
  pub rpc-Fails : (s : S) → Fails kept s (rpc from_error sleep fn s)
  unfolding rpc
  rpc-Fails s = rpc_loop-Fails max_retries 0 s
