-- ===== src/Startup.antt =====
-- initDB of user-service/internal/db/postgres.go and order-service/internal/db/db.go: the attempts to
-- connect to PostgreSQL, and the settings of the pool. sqlx and time.Sleep are parameters.
pub mod Attempts
pub mod Gateway
pub mod Logs
pub mod Programs
pub mod Signals
use l.Prelude.{ℕ, zero, suc, ◌*◌, Option, none, some}
use l.Exec.{Result, ok, err}

-- The loop bounds of user-service and of order-service.
abbrev pub user_attempts : ℕ
user_attempts = 10

abbrev pub order_attempts : ℕ
order_attempts = 11

-- SetMaxOpenConns
abbrev pub max_open_conns : ℕ
max_open_conns = 20

-- sqlx.Connect, and the methods of *sqlx.DB for its pool; times are in seconds.
pub record Driver (S C : Type 0) : Type 0 where
  pub connect : S → Result C × S
  pub set_max_open_conns : C → ℕ → S → S
  pub set_max_idle_conns : C → ℕ → S → S
  pub set_conn_max_lifetime : C → ℕ → S → S
  pub set_conn_max_idle_time : C → ℕ → S → S

module _ {S C : Type 0} (driver : Driver S C) (sleep : ℕ → S → S) where
  -- 10 idle connections, an hour, ten minutes
  abbrev pub configured : C → S → S
  configured c s =
      let s₁ = driver.set_max_idle_conns c 10 (driver.set_max_open_conns c max_open_conns s) in
      driver.set_conn_max_idle_time c (10 * 60) (driver.set_conn_max_lifetime c 3600 s₁)

  abbrev pub after_connect : Result C → S → Option C × S → Option C × S
  after_connect (ok c) s again = (some c, configured c s)
  after_connect (err e) s again = again

  -- `none` is the end of the program by log.Fatal.
  unfoldable pub init_db : ℕ → S → Option C × S
  init_db zero s = (none, s)
  init_db (suc left) s =
      let (r, s₁) = driver.connect s in
      let again = init_db left (sleep 2 s₁) in after_connect r s₁ again
