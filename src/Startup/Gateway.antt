-- ===== src/Startup/Gateway.antt =====
-- main of api-gateway/main.go, from setupLog to the end of gracefulShutdown. NewServer, with
-- the ways in which it ends the program, the listener and the signals are parameters.
use l.Prelude.{ℕ, String, Bool, List, Option, ◌⊎◌, inl, inr}
use l.Errors.{Error, error_text}
use l.Exec.{Result, ok, err}
use l.Shutdown.Graceful.{Stop, gateway_shutdown}
use l.Startup.Logs.{Core, Files, setup_log}
use l.Startup.Programs.{Ended, signalled, stopped_at}

-- What comes first: an error of ListenAndServe or the wait for a signal.
pub data Served (S : Type 0) : Type 0 where
  failed : Error → Served S
  waits : Option S → Served S

-- How the HTTP server, the connections of the services and the last `select` stop.
pub record Stops : Type 0 where
  pub server : Stop
  pub services : List Stop
  pub picks_done : Bool

module _ {S Srv : Type 0} (ctx_err : Error) (files : Files S)
    (new_server : List Core → S → (Srv × S) ⊎ Ended) (serve : Srv → S → Served S)
    (stops : S → Stops) (clock : S → ℕ) where
  -- from `<-quit` on, or the log.Fatal of the goroutine of ListenAndServe
  abbrev pub served : Served S → Ended
  served (Served.failed e) = Ended.fatal "HTTP server error"
  served (Served.waits signal) = signalled signal λ v.
      let how = stops v in
      stopped_at (gateway_shutdown ctx_err how.server how.services how.picks_done (clock v))

  abbrev pub with_server : (Srv × S) ⊎ Ended → Ended
  with_server (inl (srv, s)) = served (serve srv s)
  with_server (inr ended) = ended

  abbrev pub with_log : Result (List Core) × S → Ended
  with_log (ok cores, s) = with_server (new_server cores s)
  with_log (err e, s) = Ended.panicked (error_text e)

  -- main, with the value of the flag `level`
  unfoldable pub gateway_main : String → S → Ended
  gateway_main flag s = with_log (setup_log files flag s)
