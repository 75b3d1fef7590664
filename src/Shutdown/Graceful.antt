-- ===== src/Shutdown/Graceful.antt =====
-- gracefulShutdown of the three programs (user-service/main.go, order-service/main.go,
-- api-gateway/main.go) and ShutdownServices of api-gateway/internal/routers/routers.go, in time: a stop
-- takes so many seconds, or does not return, and a Shutdown of internal/graceful/shutdown.go waits for
-- it until the deadline of the context. Where both are ready, `select` takes either: a choice.
pub mod Deadline
use l.Prelude.{ℕ, ◌+◌, List, [], ◌∷◌, Option, none, some, Bool, ltb, leb, if◌then◌else◌}
use l.Errors.{Error}
use l.Shutdown.{Outcome}

-- A function that stops something, and what `select` chooses at its call.
pub record Stop : Type 0 where
  -- the seconds until it returns, if it does
  pub takes : Option ℕ
  pub outcome : Outcome
  pub picks_done : Bool

-- Ten seconds.
abbrev pub grace : ℕ
grace = 10

-- The later of two times.
abbrev pub later : ℕ → ℕ → ℕ
later a b = if leb a b then b else a

module _ (ctx_err : Error) where
  -- The result of `select` and its time, for a channel that is ready at a time.
  abbrev pub select_done : Outcome → Bool → ℕ → ℕ → ℕ → Outcome × ℕ
  select_done outcome picks_done ready deadline now =
      if ltb ready deadline
      then (outcome, ready)
      else if leb ready (later now deadline)
      then (if picks_done then outcome else some ctx_err, ready)
      else (some ctx_err, later now deadline)

  -- Shutdown, called at a time, with a context that is done at the deadline: what it returns and when
  unfoldable pub shutdown : ℕ → Stop → ℕ → Outcome × ℕ
  shutdown deadline stop now = elim stop.takes [
    | none ↦ (some ctx_err, later now deadline)
    | some d ↦ select_done stop.outcome stop.picks_done (now + d) deadline now
  ]

  -- The error that is logged.
  abbrev pub logged : Outcome → List Error → List Error
  logged none errors = errors
  logged (some e) errors = e ∷ errors

  -- One Shutdown after the other; the errors that are logged, and the time at the end.
  unfoldable pub in_turn : ℕ → List Stop → ℕ → List Error × ℕ
  unfolding shutdown
  in_turn deadline [] now = ([], now)
  in_turn deadline (stop ∷ stops) now =
      let (outcome, after) = shutdown deadline stop now in
      let (errors, end) = in_turn deadline stops after in (logged outcome errors, end)

  -- gracefulShutdown of user-service: the gRPC server, PostgreSQL, Redis
  unfoldable pub user_service_shutdown : Stop → Stop → Stop → ℕ → List Error × ℕ
  unfolding in_turn
  user_service_shutdown grpc postgres redis now =
      in_turn (now + grace) (grpc ∷ postgres ∷ redis ∷ []) now

  -- gracefulShutdown of order-service: the gRPC server, PostgreSQL
  unfoldable pub order_service_shutdown : Stop → Stop → ℕ → List Error × ℕ
  unfolding in_turn
  order_service_shutdown grpc postgres now = in_turn (now + grace) (grpc ∷ postgres ∷ []) now

  -- The Close of every service, each in its goroutine: when the last has returned. What they return
  -- is dropped.
  unfoldable pub last_closed : ℕ → List Stop → ℕ → ℕ
  unfolding shutdown
  last_closed deadline [] now = now
  last_closed deadline (stop ∷ stops) now =
      later (shutdown deadline stop now).1 (last_closed deadline stops now)

  -- ShutdownServices: `done` is closed once every Close has returned
  unfoldable pub shutdown_services : ℕ → List Stop → Bool → ℕ → Outcome × ℕ
  unfolding last_closed
  shutdown_services deadline stops picks_done now =
      select_done none picks_done (last_closed deadline stops now) deadline now

  -- gracefulShutdown of api-gateway: the HTTP server, then the services
  unfoldable pub gateway_shutdown : Stop → List Stop → Bool → ℕ → List Error × ℕ
  unfolding shutdown shutdown_services
  gateway_shutdown server services picks_done now =
      let deadline = now + grace in
      let (stopped, after) = shutdown deadline server now in
      let (closed, end) = shutdown_services deadline services picks_done after in
      (logged stopped (logged closed []), end)
