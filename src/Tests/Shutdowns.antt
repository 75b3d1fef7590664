-- ===== src/Tests/Shutdowns.antt =====
-- The theorems on the shutdown of the programs, at concrete inputs.
use l.Prelude.{◌≤◌, ◌≡◌, List, refl, true, false, none, some, [], ◌∷◌, arith}
use l.Shutdown.Graceful.{Stop, user_service_shutdown, order_service_shutdown, gateway_shutdown}
use l.Shutdown.Graceful.Deadline.{graceful_bound, user_service_shutdown-returned}
use l.Prelude.Lists.{length}
use l.Errors.{Error}
use l.Shutdown.{Goroutine, State, start, Step, Run}
use l.Shutdown.Services.{Action, entered, perform_all}
use l.Shutdown.Services.Closed.{unreleased, perform_all-closed}
use l.Shutdown.Safety.{IsSound, Run-IsSound}

abbrev deadline : Error
deadline = Error.text "context deadline exceeded"

abbrev late : State
late = State.state (Goroutine.sent none) (some none) true (some (some deadline))

late-Run : Run deadline start late
late-Run =
    Run.then_step _ _ _
      (Run.then_step _ _ _
        (Run.then_step _ _ _
          (Run.then_step _ _ _ (Run.stay start) (Step.expires Goroutine.stopping none none))
          (Step.gives_up Goroutine.stopping none))
        (Step.returns none none true (some (some deadline))))
      (Step.sends none true (some (some deadline)))

Run-IsSound_example : IsSound deadline late
Run-IsSound_example = Run-IsSound deadline late late-Run

-- A server that never stops, and stops of three and of four seconds.
abbrev stuck : Stop
stuck = record { takes = none; outcome = none; picks_done = true }

abbrev slow : Stop
slow = record { takes = some 4; outcome = some (Error.text "closed"); picks_done = true }

abbrev quick : Stop
quick = record { takes = some 3; outcome = none; picks_done = false }

abbrev prompt : Stop
prompt = record { takes = some 2; outcome = none; picks_done = false }

graceful_bound_example :
    ((user_service_shutdown deadline stuck slow quick 5).1 ≤ 15)
    × ((order_service_shutdown deadline stuck slow 5).1 ≤ 15)
    × ((gateway_shutdown deadline stuck (slow ∷ quick ∷ []) true 5).1 ≤ 15)
graceful_bound_example = graceful_bound deadline stuck slow quick (slow ∷ quick ∷ []) true 5

user_service_shutdown-returned_example :
    user_service_shutdown deadline quick slow prompt 5 ≡ (Error.text "closed" ∷ [], 14)
user_service_shutdown-returned_example =
    user_service_shutdown-returned deadline quick slow prompt
      ((3, refl), ((4, refl), ((2, refl), tt))) 5 (omega arith)

-- Two services: one closes before the other has been started.
abbrev both_close : List Action
both_close =
    Action.starts
    ∷ Action.returns 0
    ∷ Action.releases 0
    ∷ Action.closes_done
    ∷ Action.starts
    ∷ Action.picks_done
    ∷ Action.returns 0
    ∷ Action.releases 0
    ∷ Action.closes_done
    ∷ Action.expires
    ∷ Action.picks_done
    ∷ []

both_returned : (perform_all deadline both_close (entered 2)).caller ≡ some none
unfolding perform_all
both_returned = refl

perform_all-closed_example :
    (length (perform_all deadline both_close (entered 2)).closers ≡ 2)
    × (unreleased (perform_all deadline both_close (entered 2)).closers ≡ 0)
perform_all-closed_example = perform_all-closed deadline 2 both_close both_returned
