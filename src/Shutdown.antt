-- ===== src/Shutdown.antt =====
-- internal/graceful/shutdown.go, the same file in the three programs: Shutdown runs `stop` in a
-- goroutine and waits for its result or for the context, whichever comes first. The steps of the
-- goroutine, of the context and of the caller interleave.
pub mod Safety
pub mod Graceful
pub mod Services
use l.Prelude.{Bool, true, false, Option, none, some}
use l.Errors.{Error}

-- What an error value of Go says: nil is `none`.
abbrev pub Outcome : Type 0
Outcome = Option Error

-- The goroutine: in `stop`, with the result of `stop` to send, and after the send.
pub data Goroutine : Type 0 where
  stopping : Goroutine
  stopped : Outcome → Goroutine
  sent : Outcome → Goroutine

-- The goroutine, the buffer of the channel (of capacity one), whether the context is done, and what the
-- caller has returned.
pub data State : Type 0 where
  state : Goroutine → Option Outcome → Bool → Option Outcome → State

abbrev pub start : State
start = state Goroutine.stopping none false none

-- `ctx_err` is ctx.Err() of a context that is done.
module _ (ctx_err : Error) where
  pub data Step : State → State → Type 0 where
    -- `stop` returns
    returns :
        (o : Outcome) (buffer : Option Outcome) (over : Bool) (caller : Option Outcome)
        → Step
            (state Goroutine.stopping buffer over caller)
            (state (Goroutine.stopped o) buffer over caller)
    -- `done <- stop()` into the empty buffer
    sends :
        (o : Outcome) (over : Bool) (caller : Option Outcome)
        → Step
            (state (Goroutine.stopped o) none over caller)
            (state (Goroutine.sent o) (some o) over caller)
    -- the context is done
    expires :
        (g : Goroutine) (buffer caller : Option Outcome)
        → Step (state g buffer false caller) (state g buffer true caller)
    -- `case <-ctx.Done()`
    gives_up :
        (g : Goroutine) (buffer : Option Outcome)
        → Step (state g buffer true none) (state g buffer true (some (some ctx_err)))
    -- `case err := <-done`
    receives :
        (g : Goroutine) (o : Outcome) (over : Bool)
        → Step (state g (some o) over none) (state g none over (some o))

  pub data Run : State → State → Type 0 where
    stay : (s : State) → Run s s
    then_step : (s t u : State) → Run s t → Step t u → Run s u
