-- ===== src/Shutdown/Safety.antt =====
-- What Shutdown of internal/graceful/shutdown.go returns, and that its goroutine is never stuck.
use l.Prelude.{◌≡◌, ◌⊎◌, inl, inr, refl, Bool, true, Option, none, some}
use l.Errors.{Error}
use l.Shutdown.{Outcome, Goroutine, State, start, Step, Run}

module _ (ctx_err : Error) where
  -- The caller waits, or has given up on a context that is done.
  abbrev pub Waiting : Bool → Option Outcome → Type 0
  Waiting over caller = (caller ≡ none) ⊎ ((caller ≡ some (some ctx_err)) × (over ≡ true))

  -- Before the send the buffer is empty, so the send does not block. After it the result is in the
  -- buffer or was returned, or the caller has given up on a context that is done.
  abbrev pub IsSound : State → Type 0
  IsSound (State.state (Goroutine.sent o) buffer over caller) =
      ((caller ≡ none) × (buffer ≡ some o))
      ⊎ (caller ≡ some o)
      ⊎ ((caller ≡ some (some ctx_err)) × (over ≡ true))
  IsSound (State.state _ buffer over caller) = (buffer ≡ none) × Waiting over caller

  Step-IsSound : (s t : State) → Step ctx_err s t → IsSound s → IsSound t
  Step-IsSound _ _ (Step.returns o buffer over caller) h = h
  Step-IsSound _ _ (Step.sends o over caller) (empty, inl waits) = inl (waits, refl)
  Step-IsSound _ _ (Step.sends o over caller) (empty, inr gone) = inr (inr gone)
  Step-IsSound _ _ (Step.expires Goroutine.stopping buffer caller) (empty, inl waits) =
      (empty, inl waits)
  Step-IsSound _ _ (Step.expires Goroutine.stopping buffer caller) (empty, inr (gone, over)) = cc
  Step-IsSound _ _ (Step.expires (Goroutine.stopped o) buffer caller) (empty, inl waits) =
      (empty, inl waits)
  Step-IsSound _ _ (Step.expires (Goroutine.stopped o) buffer caller) (empty, inr (gone, over)) = cc
  Step-IsSound _ _ (Step.expires (Goroutine.sent o) buffer caller) (inl h) = inl h
  Step-IsSound _ _ (Step.expires (Goroutine.sent o) buffer caller) (inr (inl h)) = inr (inl h)
  Step-IsSound _ _ (Step.expires (Goroutine.sent o) buffer caller) (inr (inr (gone, over))) = cc
  Step-IsSound _ _ (Step.gives_up Goroutine.stopping buffer) (empty, _) = (empty, inr (refl, refl))
  Step-IsSound _ _ (Step.gives_up (Goroutine.stopped o) buffer) (empty, _) =
      (empty, inr (refl, refl))
  Step-IsSound _ _ (Step.gives_up (Goroutine.sent o) buffer) h = inr (inr (refl, refl))
  Step-IsSound _ _ (Step.receives Goroutine.stopping o over) (empty, _) = cc
  Step-IsSound _ _ (Step.receives (Goroutine.stopped p) o over) (empty, _) = cc
  Step-IsSound _ _ (Step.receives (Goroutine.sent p) o over) (inl (waits, same)) = inr (inl same)
  Step-IsSound _ _ (Step.receives (Goroutine.sent p) o over) (inr (inl returned)) = cc
  Step-IsSound _ _ (Step.receives (Goroutine.sent p) o over) (inr (inr (gone, _))) = cc

  -- In every state that a run of Shutdown reaches: while `stop` has not been sent, the buffer is empty,
  -- so that the goroutine can send and end, also after the caller has left; and what the caller
  -- has returned is the result of `stop`, or the error of a context that is done.
  pub Run-IsSound : (s : State) → Run ctx_err start s → IsSound s
  Run-IsSound s (Run.stay _) = (refl, inl refl)
  Run-IsSound s (Run.then_step _ t _ before step) = Step-IsSound t s step (Run-IsSound t before)
