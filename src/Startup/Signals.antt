-- ===== src/Startup/Signals.antt =====
-- What user-service and order-service do from their start to a signal and its end, and
-- what api-gateway does.
use l.Prelude.{
  ℕ, ◌+◌, ◌<◌, ◌≤◌, ◌≡◌, refl, String, true, List, [], Option, none, some, ◌⊎◌, inl, inr,
}
use mathlib.Core.Option.{some-ne-none}
use l.Errors.{Error}
use l.Exec.{Result, ok}
use l.Shutdown.Graceful.{Stop}
use l.Shutdown.Graceful.Deadline.{graceful_bound}
use l.Startup.{configured, user_attempts, order_attempts}
use l.Startup.Attempts.{ReachedAfter, init_db-ReachedAfter}
use l.Startup.Gateway.{Served, Stops, gateway_main}
use l.Startup.Logs.{Core, Files, setup_log}
use l.Startup.Programs.{Ended, Machine, connected, stopped_at, user_main, order_main}

-- The program has stopped, at most ten seconds after a time.
pub StopsBy : ℕ → Ended → Type 0
StopsBy now (Ended.stopped errors end) = end ≤ now + 10
StopsBy now (Ended.fatal text) = ⊥
StopsBy now (Ended.panicked text) = ⊥
StopsBy now Ended.serving = ⊥

-- For so many attempts of initDB: after fewer failures the program comes to serve, and stops by ten
-- seconds after the signal; after as many or more it ends without having served.
abbrev pub Lives : ℕ → ℕ → ℕ → Ended → Type 0
Lives attempts failures signal ended =
    ((failures < attempts) × StopsBy signal ended)
    ⊎ ((attempts ≤ failures) × (ended ≡ Ended.fatal "Couldn't connect to DB"))

connected-none :
    {S C : Type 0} (r : Option C × S) (next : C → S → Ended)
    → r.0 ≡ none
    → connected r next ≡ Ended.fatal "Couldn't connect to DB"
connected-none (none, s) next gone = refl
connected-none (some c, s) next gone = elim (some-ne-none c gone) [ ]

stopped_at-StopsBy : (now : ℕ) (r : List Error × ℕ) → r.1 ≤ now + 10 → StopsBy now (stopped_at r)
unfolding StopsBy
stopped_at-StopsBy now (errors, end) soon = soon

module _ {S L C R : Type 0} (ctx_err : Error) (machine : Machine S L C) where
  -- user-service listens, PostgreSQL is reached after k failed attempts, Redis answers the ping, and
  -- a signal comes while it serves. If k is less than ten, main ends by gracefulShutdown, at most ten
  -- seconds after the signal, whatever its stops do; otherwise it ends by log.Fatal, without a
  -- connection.
  pub user_main-Lives :
      (ping : S → Result R × S) (serve : L → C → R → S → S) (stops : S → Stop × Stop × Stop) (k : ℕ)
      (s s₁ t u v : S) (lis : L) (db : C) (rdb : R)
      → machine.listen s ≡ (ok lis, s₁)
      → ReachedAfter machine.postgres machine.sleep k s₁ db t
      → ping (configured machine.postgres machine.sleep db t) ≡ (ok rdb, u)
      → machine.next_signal (serve lis db rdb u) ≡ some v
      → Lives 10 k (machine.clock v) (user_main ctx_err machine ping serve stops s)
  unfolding user_main
  user_main-Lives ping serve stops k s s₁ t u v lis db rdb listens reached pings signal =
      elim (init_db-ReachedAfter machine.postgres machine.sleep user_attempts k s₁ t db reached) [
        | inl (less, connects) ↦ inl (
          less,
          rw (listens, connects, pings, signal)
              (stopped_at-StopsBy (machine.clock v) _
                (graceful_bound ctx_err (stops v).0 (stops v).1 (stops v).2 [] true
                  (machine.clock v)).0),
        )
        | inr (most, gives_up) ↦ inr (most, rw listens (connected-none _ _ gives_up))
      ]

module _ {S L C : Type 0} (ctx_err : Error) (machine : Machine S L C) where
  -- The same for order-service, which has eleven attempts.
  pub order_main-Lives :
      (serve : L → C → S → S) (stops : S → Stop × Stop) (k : ℕ) (s s₁ t v : S) (lis : L) (db : C)
      → machine.listen s ≡ (ok lis, s₁)
      → ReachedAfter machine.postgres machine.sleep k s₁ db t
      → machine.next_signal (serve lis db (configured machine.postgres machine.sleep db t)) ≡ some v
      → Lives 11 k (machine.clock v) (order_main ctx_err machine serve stops s)
  unfolding order_main
  order_main-Lives serve stops k s s₁ t v lis db listens reached signal =
      elim (init_db-ReachedAfter machine.postgres machine.sleep order_attempts k s₁ t db reached) [
        | inl (less, connects) ↦ inl (
          less,
          rw (listens, connects, signal)
              (stopped_at-StopsBy (machine.clock v) _
                (graceful_bound ctx_err (stops v).0 (stops v).1 (stops v).1 [] true
                  (machine.clock v)).1),
        )
        | inr (most, gives_up) ↦ inr (most, rw listens (connected-none _ _ gives_up))
      ]

module _ {S Srv : Type 0} (ctx_err : Error) (files : Files S)
    (new_server : List Core → S → (Srv × S) ⊎ Ended) (serve : Srv → S → Served S)
    (stops : S → Stops) (clock : S → ℕ) where
  -- Once api-gateway serves, it stops at most ten seconds after a signal.
  pub gateway_main-StopsBy :
      (flag : String) (s s₁ s₂ v : S) (cores : List Core) (srv : Srv)
      → setup_log files flag s ≡ (ok cores, s₁)
      → new_server cores s₁ ≡ inl (srv, s₂)
      → serve srv s₂ ≡ Served.waits (some v)
      → StopsBy (clock v) (gateway_main ctx_err files new_server serve stops clock flag s)
  unfolding gateway_main
  gateway_main-StopsBy flag s s₁ s₂ v cores srv logs serves signal =
      let how = stops v in
      rw (logs, serves, signal)
        (stopped_at-StopsBy (clock v) _
          (graceful_bound ctx_err how.server how.server how.server how.services how.picks_done
            (clock v)).2)
