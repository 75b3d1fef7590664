-- ===== src/Startup/Programs.antt =====
-- main of user-service/main.go and order-service/main.go: from the listener to the end of
-- gracefulShutdown. net.Listen, sqlx, the ping of go-redis, the serving of calls and the signals are
-- parameters, and `clock` reads the time in seconds.
use l.Prelude.{ℕ, String, List, Option, none, some}
use l.Errors.{Error}
use l.Exec.{Result, ok, err}
use l.Startup.{Driver, init_db, user_attempts, order_attempts}
use l.Shutdown.Graceful.{Stop, user_service_shutdown, order_service_shutdown}

-- How a program ends: by log.Fatal, by a panic, not at all since no signal comes, or by gracefulShutdown with the
-- errors that it logs, at a time.
pub data Ended : Type 0 where
  fatal panicked : String → Ended
  serving : Ended
  stopped : List Error → ℕ → Ended

pub record Machine (S L C : Type 0) : Type 0 where
  pub listen : S → Result L × S
  pub postgres : Driver S C
  pub sleep : ℕ → S → S
  pub clock : S → ℕ
  -- the state when SIGINT or SIGTERM arrives, if one does
  pub next_signal : S → Option S

abbrev pub stopped_at : List Error × ℕ → Ended
stopped_at (errors, end) = Ended.stopped errors end

module _ {S : Type 0} where
  -- log.Fatal for an error
  abbrev or_fatal : {A : Type 0} → String → Result A × S → (A → S → Ended) → Ended
  or_fatal text (ok a, s) next = next a s
  or_fatal text (err e, s) next = Ended.fatal text

  -- initDB ends the program itself
  abbrev pub connected : {C : Type 0} → Option C × S → (C → S → Ended) → Ended
  connected (some c, s) next = next c s
  connected (none, s) next = Ended.fatal "Couldn't connect to DB"

  -- `<-quit`
  abbrev pub signalled : Option S → (S → Ended) → Ended
  signalled (some s) next = next s
  signalled none next = Ended.serving

module _ {S L C R : Type 0} (ctx_err : Error) (machine : Machine S L C) where
  -- NewRR
  abbrev pub new_rr : (S → Result R × S) → S → (R → S → Ended) → Ended
  new_rr ping s next = or_fatal "Failed connect to sk redis" (ping s) next

  -- main of user-service. `stops` are the gRPC server, PostgreSQL and Redis as they stop.
  unfoldable pub user_main :
      (S → Result R × S) → (L → C → R → S → S) → (S → Stop × Stop × Stop) → S → Ended
  user_main ping serve stops s =
      or_fatal "Couldn't listen tcp user-service port" (machine.listen s) λ lis s₁.
        connected (init_db machine.postgres machine.sleep user_attempts s₁) λ db s₂.
          new_rr ping s₂ λ rdb s₃. signalled (machine.next_signal (serve lis db rdb s₃)) λ v.
            let (grpc, postgres, redis) = stops v in
            stopped_at (user_service_shutdown ctx_err grpc postgres redis (machine.clock v))

module _ {S L C : Type 0} (ctx_err : Error) (machine : Machine S L C) where
  -- main of order-service
  unfoldable pub order_main : (L → C → S → S) → (S → Stop × Stop) → S → Ended
  order_main serve stops s =
      or_fatal "Couldn't listen tcp order-service port" (machine.listen s) λ lis s₁.
        connected (init_db machine.postgres machine.sleep order_attempts s₁) λ db s₂.
          signalled (machine.next_signal (serve lis db s₂)) λ v.
            let (grpc, postgres) = stops v in
            stopped_at (order_service_shutdown ctx_err grpc postgres (machine.clock v))
