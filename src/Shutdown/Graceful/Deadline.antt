-- ===== src/Shutdown/Graceful/Deadline.antt =====
-- How long gracefulShutdown takes and what it logs.
use l.Prelude.{
  ℕ, ◌+◌, ◌≤◌, ◌<◌, ◌≡◌, refl, ap, List, [], ◌∷◌, none, some, Bool, true, arith, ltb, Option-cases,
  inl, inr,
}
use l.Errors.{Error}
use l.Shutdown.{Outcome}
use l.Shutdown.Graceful.{
  Stop, grace, later, select_done, shutdown, logged, in_turn, user_service_shutdown,
  order_service_shutdown, last_closed, shutdown_services, gateway_shutdown,
}

-- The seconds that the stops take one after the other, and whether all return.
abbrev pub Returns : List Stop → Type 0
Returns [] = Unit
Returns (stop ∷ stops) = ((d : ℕ) × (stop.takes ≡ some d)) × Returns stops

abbrev pub total : (stops : List Stop) → Returns stops → ℕ
total [] r = 0
total (stop ∷ stops) ((d, _), r) = d + total stops r

later_bound : (a b c : ℕ) → a ≤ c → b ≤ c → later a b ≤ c
later_bound a b c p q = ground arith

≤_trans : {a b c : ℕ} → a ≤ b → b ≤ c → a ≤ c
≤_trans p q = omega arith

module _ (ctx_err : Error) where
  abbrev pub failures : List Stop → List Error
  failures [] = []
  failures (stop ∷ stops) = logged ctx_err stop.outcome (failures stops)

  select_done-bound :
      (outcome : Outcome) (b : Bool) (ready deadline now : ℕ)
      → (select_done ctx_err outcome b ready deadline now).1 ≤ later now deadline
  select_done-bound outcome b ready deadline now = ground arith

  shutdown-bound :
      (deadline : ℕ) (stop : Stop) (now : ℕ)
      → now ≤ deadline
      → (shutdown ctx_err deadline stop now).1 ≤ deadline
  unfolding shutdown
  shutdown-bound deadline stop now early = elim (Option-cases stop.takes) [
    | inl never ↦ rw never (later_bound now deadline deadline early (omega arith))
    | inr (d, takes) ↦ rw takes (
        ≤_trans (select_done-bound stop.outcome stop.picks_done (now + d) deadline now)
          (later_bound now deadline deadline early (omega arith)))
  ]

  in_turn-bound :
      (deadline : ℕ) (stops : List Stop) (now : ℕ)
      → now ≤ deadline
      → (in_turn ctx_err deadline stops now).1 ≤ deadline
  unfolding in_turn
  in_turn-bound deadline [] now early = early
  in_turn-bound deadline (stop ∷ stops) now early =
      in_turn-bound deadline stops _ (shutdown-bound deadline stop now early)

  shutdown_services-bound :
      (deadline : ℕ) (stops : List Stop) (b : Bool) (now : ℕ)
      → now ≤ deadline
      → (shutdown_services ctx_err deadline stops b now).1 ≤ deadline
  unfolding shutdown_services
  shutdown_services-bound deadline stops b now early =
      ≤_trans (select_done-bound none b (last_closed ctx_err deadline stops now) deadline now)
        (later_bound now deadline deadline early (omega arith))

  -- Whatever the stops do, return or not, gracefulShutdown of each program is over ten seconds after
  -- it began.
  pub graceful_bound :
      (a b c : Stop) (services : List Stop) (picks_done : Bool) (now : ℕ)
      → ((user_service_shutdown ctx_err a b c now).1 ≤ now + 10)
        × ((order_service_shutdown ctx_err a b now).1 ≤ now + 10)
        × ((gateway_shutdown ctx_err a services picks_done now).1 ≤ now + 10)
  unfolding user_service_shutdown order_service_shutdown gateway_shutdown
  graceful_bound a b c services picks_done now = (
    in_turn-bound (now + grace) (a ∷ b ∷ c ∷ []) now (omega arith),
    in_turn-bound (now + grace) (a ∷ b ∷ []) now (omega arith),
    shutdown_services-bound (now + grace) services picks_done _
        (shutdown-bound (now + grace) a now (omega arith)),
  )

  shutdown-returned :
      (deadline : ℕ) (stop : Stop) (now d : ℕ)
      → stop.takes ≡ some d
      → now + d < deadline
      → shutdown ctx_err deadline stop now ≡ (stop.outcome, now + d)
  unfolding shutdown
  shutdown-returned deadline stop now d takes soon =
      let before : ltb (now + d) deadline ≡ true = ground arith in rw (takes, before) refl

  in_turn-returned :
      (deadline : ℕ) (stops : List Stop) (r : Returns stops) (now : ℕ)
      → now + total stops r < deadline
      → in_turn ctx_err deadline stops now ≡ (failures stops, now + total stops r)
  unfolding in_turn
  in_turn-returned deadline [] r now soon = ap (λ t. ([], t)) (omega arith)
  in_turn-returned deadline (stop ∷ stops) ((d, takes), r) now soon =
      let first = shutdown-returned deadline stop now d takes (omega arith) in
      let rest = in_turn-returned deadline stops r (now + d) (omega arith) in
      rw (first, rest) (ap (λ t. (logged ctx_err stop.outcome (failures stops), t)) (omega arith))

  -- If the gRPC server, PostgreSQL and Redis take less than ten seconds to stop one after the other,
  -- gracefulShutdown of user-service waits for each of them, and logs the errors that they return,
  -- in that order, and no other.
  pub user_service_shutdown-returned :
      (grpc postgres redis : Stop) (r : Returns (grpc ∷ postgres ∷ redis ∷ [])) (now : ℕ)
      → total (grpc ∷ postgres ∷ redis ∷ []) r < 10
      → user_service_shutdown ctx_err grpc postgres redis now
        ≡ (failures (grpc ∷ postgres ∷ redis ∷ []), now + total (grpc ∷ postgres ∷ redis ∷ []) r)
  unfolding user_service_shutdown
  user_service_shutdown-returned grpc postgres redis r now soon =
      in_turn-returned (now + grace) (grpc ∷ postgres ∷ redis ∷ []) r now (omega arith)
