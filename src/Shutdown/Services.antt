-- ===== src/Shutdown/Services.antt =====
-- ShutdownServices of api-gateway/internal/routers/routers.go with its goroutines: one for the Close of
-- each service, one that waits for the WaitGroup, and the caller. An action that cannot run changes
-- nothing.
pub mod Closed
use l.Prelude.{
  ℕ, zero, suc, ◌+◌, ◌-◌, Bool, true, false, ◌&&◌, List, [], ◌∷◌, Option, none, some, eqb,
  if◌then◌else◌,
}
use l.Errors.{Error}
use l.Shutdown.{Outcome}

-- A goroutine of a service: in Close, after it, and after `wg.Done`.
pub data Closer : Type 0 where
  closing returned released : Closer

pub record Group : Type 0 where
  -- the services whose goroutine the loop has yet to start
  pub left : ℕ
  pub closers : List Closer
  -- the counter of `wg`
  pub counter : ℕ
  -- whether the channel `done` is closed, and whether the context is over
  pub done : Bool
  pub over : Bool
  -- what ShutdownServices has returned
  pub caller : Option Outcome

pub data Action : Type 0 where
  -- a turn of the loop: `wg.Add(1)` and `go`
  starts : Action
  -- the Close of a goroutine returns, and its deferred `wg.Done`
  returns releases : ℕ → Action
  -- `wg.Wait` is over: `close(done)`
  closes_done : Action
  expires : Action
  -- the cases of `select`
  picks_ctx picks_done : Action

abbrev pub entered : ℕ → Group
entered services = record {
  left = services;
  closers = [];
  counter = 0;
  done = false;
  over = false;
  caller = none;
}

abbrev pub after_close : Closer → Closer
after_close Closer.closing = Closer.returned
after_close c = c

abbrev pub return_at : ℕ → List Closer → List Closer
return_at i [] = []
return_at zero (c ∷ cs) = after_close c ∷ cs
return_at (suc i) (c ∷ cs) = c ∷ return_at i cs

-- The goroutine after its turn, and how often it has called `wg.Done` in it.
abbrev pub after_done : Closer → Closer × ℕ
after_done Closer.returned = (Closer.released, 1)
after_done c = (c, 0)

abbrev pub release_at : ℕ → List Closer → List Closer × ℕ
release_at i [] = ([], 0)
release_at zero (c ∷ cs) = let (c', calls) = after_done c in (c' ∷ cs, calls)
release_at (suc i) (c ∷ cs) = let (cs', calls) = release_at i cs in (c ∷ cs', calls)

abbrev pub waits : Option Outcome → Bool
waits none = true
waits (some o) = false

-- The start of the next goroutine, if one is left.
abbrev pub start_next : ℕ → Group → Group
start_next zero g = g
start_next (suc n) g = record g {
  left = n;
  closers = Closer.closing ∷ g.closers;
  counter = g.counter + 1;
}

module _ (ctx_err : Error) where
  unfoldable pub perform : Action → Group → Group
  perform Action.starts g = start_next g.left g
  perform (Action.returns i) g = record g { closers = return_at i g.closers }
  perform (Action.releases i) g =
      let (cs, calls) = release_at i g.closers in
      record g { closers = cs; counter = g.counter - calls }
  perform Action.closes_done g =
      if eqb g.left 0 && eqb g.counter 0 then record g { done = true } else g
  perform Action.expires g = record g { over = true }
  perform Action.picks_ctx g =
      if eqb g.left 0 && g.over && waits g.caller
      then record g { caller = some (some ctx_err) }
      else g
  perform Action.picks_done g =
      if eqb g.left 0 && g.done && waits g.caller then record g { caller = some none } else g

  unfoldable pub perform_all : List Action → Group → Group
  unfolding perform
  perform_all [] g = g
  perform_all (a ∷ actions) g = perform_all actions (perform a g)
