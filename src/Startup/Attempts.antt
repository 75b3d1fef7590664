-- ===== src/Startup/Attempts.antt =====
-- How long initDB of the two services waits for PostgreSQL.
use l.Prelude.{ℕ, zero, suc, ◌<◌, ◌≤◌, ◌≡◌, refl, none, some, arith, ◌⊎◌, inl, inr}
use l.Errors.{Error}
use l.Exec.{ok, err}
use l.Startup.{Driver, configured, init_db}

module _ {S C : Type 0} (driver : Driver S C) (sleep : ℕ → S → S) where
  -- The server is reached after k failed attempts, each followed by a sleep of two seconds; the last
  -- two are the connection and the state right after it.
  pub data ReachedAfter : ℕ → S → C → S → Type 0 where
    now : (s s₁ : S) (c : C) → driver.connect s ≡ (ok c, s₁) → ReachedAfter zero s c s₁
    later :
        (k : ℕ) (s s₁ t : S) (c : C) (e : Error)
        → driver.connect s ≡ (err e, s₁)
        → ReachedAfter k (sleep 2 s₁) c t
        → ReachedAfter (suc k) s c t

  -- With n attempts, initDB returns the connection that is reached after fewer than n failures, in
  -- the state that its settings leave; if the server is reached after n failures or more, it does
  -- not return.
  pub init_db-ReachedAfter :
      (n k : ℕ) (s t : S) (c : C)
      → ReachedAfter k s c t
      → ((k < n) × (init_db driver sleep n s ≡ (some c, configured driver sleep c t)))
        ⊎ ((n ≤ k) × ((init_db driver sleep n s).0 ≡ none))
  unfolding init_db
  init_db-ReachedAfter zero k s t c h = inr (omega arith, refl)
  init_db-ReachedAfter (suc n) _ _ _ _ (ReachedAfter.now s s₁ c reached) =
      inl (omega arith, rw reached)
  init_db-ReachedAfter (suc n) _ _ _ _ (ReachedAfter.later k s s₁ t c e failed rest) =
      elim (init_db-ReachedAfter n k (sleep 2 s₁) t c rest) [
        | inl (less, connects) ↦ inl (omega arith, rw failed connects)
        | inr (most, gives_up) ↦ inr (omega arith, rw failed gives_up)
      ]
