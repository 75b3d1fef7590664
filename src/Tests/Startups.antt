-- ===== src/Tests/Startups.antt =====
-- A database that comes up at the third attempt, and user-service, which waits for it.
use l.Prelude.{ℕ, zero, suc, ◌+◌, ◌≡◌, refl, none, some, false, [], ◌∷◌}
use l.Errors.{Error}
use l.Exec.{Result, ok, err}
use l.Startup.{Driver, init_db}
use l.Startup.Attempts.{ReachedAfter}
use l.Startup.Programs.{Ended, Machine, user_main}
use l.Startup.Signals.{Lives, user_main-Lives}
use l.Shutdown.Graceful.{Stop, user_service_shutdown}

-- The state is the time, and a connection the time when it was made.
abbrev connect : ℕ → Result ℕ × ℕ
connect zero = (err (Error.text "refused"), zero)
connect (suc (suc zero)) = (err (Error.text "refused"), 2)
connect s = (ok s, s)

abbrev driver : Driver ℕ ℕ
driver = record {
  connect = connect;
  set_max_open_conns = λ c n s. s;
  set_max_idle_conns = λ c n s. s;
  set_conn_max_lifetime = λ c n s. s;
  set_conn_max_idle_time = λ c n s. s;
}

-- A signal comes an hour after the start of the serving.
abbrev machine : Machine ℕ Unit ℕ
machine = record {
  listen = λ s. (ok tt, s);
  postgres = driver;
  sleep = λ n s. s + n;
  clock = λ s. s;
  next_signal = λ s. some (s + 3600);
}

abbrev ping : ℕ → Result ℕ × ℕ
ping s = (ok s, s)

-- PostgreSQL takes three seconds to stop, and the server of the calls does not return.
abbrev stops : ℕ → Stop × Stop × Stop
stops s = (
  record { takes = none; outcome = none; picks_done = false },
  record { takes = some 3; outcome = none; picks_done = false },
  record { takes = some 0; outcome = none; picks_done = false },
)

abbrev too_late : Error
too_late = Error.text "context deadline exceeded"

abbrev ended : Ended
ended = user_main too_late machine ping (λ lis db rdb s. s) stops 0

-- The deadline goes by at the first stop, and each of the others is given up at once.
user_main_stops : ended ≡ Ended.stopped (too_late ∷ too_late ∷ too_late ∷ []) 3614
unfolding user_main init_db user_service_shutdown
user_main_stops = refl

third-ReachedAfter : ReachedAfter driver (λ n s. s + n) 2 0 4 4
third-ReachedAfter =
    ReachedAfter.later 1 0 0 4 4 (Error.text "refused") refl
      (ReachedAfter.later 0 2 2 4 4 (Error.text "refused") refl (ReachedAfter.now 4 4 4 refl))

user_main-Lives_example : Lives 10 2 3604 ended
user_main-Lives_example =
    user_main-Lives too_late machine ping (λ lis db rdb s. s) stops 2 0 0 4 4 3604 tt 4 4 refl
      third-ReachedAfter refl refl
