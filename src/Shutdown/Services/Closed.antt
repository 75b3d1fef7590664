-- ===== src/Shutdown/Services/Closed.antt =====
-- What the result nil of ShutdownServices says.
use l.Prelude.{
  ℕ, zero, suc, ◌+◌, ◌≡◌, refl, sym, ap, ◌∙◌, Bool, true, false, ◌&&◌, List, [], ◌∷◌, none, some,
  eqb, if◌then◌else◌, arith,
}
use l.Prelude.Lists.{length}
use l.Errors.{Error}
use l.Shutdown.{Outcome}
use l.Shutdown.Services.{
  Closer, Group, Action, entered, return_at, release_at, start_next, perform, perform_all,
}

abbrev one_unreleased : Closer → ℕ
one_unreleased Closer.released = 0
one_unreleased _ = 1

-- The goroutines that have not called `wg.Done`.
abbrev pub unreleased : List Closer → ℕ
unreleased [] = 0
unreleased (c ∷ cs) = one_unreleased c + unreleased cs

-- The counter is that of the goroutines that have not called `wg.Done`; `done` is closed only when all
-- have been started and have called it; and nil is returned only when `done` is closed.
record IsCounted (services : ℕ) (g : Group) : Type 0 where
  counted : g.counter ≡ unreleased g.closers
  all_there : g.left + length g.closers ≡ services
  done_last : g.done ≡ true → (g.left ≡ 0) × (unreleased g.closers ≡ 0)
  nil_last : g.caller ≡ some none → g.done ≡ true

return_at-unreleased :
    (i : ℕ) (cs : List Closer)
    → (unreleased (return_at i cs) ≡ unreleased cs) × (length (return_at i cs) ≡ length cs)
return_at-unreleased i [] = (refl, refl)
return_at-unreleased zero (Closer.closing ∷ cs) = (refl, refl)
return_at-unreleased zero (Closer.returned ∷ cs) = (refl, refl)
return_at-unreleased zero (Closer.released ∷ cs) = (refl, refl)
return_at-unreleased (suc i) (c ∷ cs) =
    let (same, long) = return_at-unreleased i cs in
    (ap (λ n. one_unreleased c + n) same, ap suc long)

release_at-unreleased :
    (i : ℕ) (cs : List Closer)
    → let (cs', calls) = release_at i cs in
      (unreleased cs' + calls ≡ unreleased cs) × (length cs' ≡ length cs)
release_at-unreleased i [] = (refl, refl)
release_at-unreleased zero (Closer.closing ∷ cs) = (omega arith, refl)
release_at-unreleased zero (Closer.returned ∷ cs) = (omega arith, refl)
release_at-unreleased zero (Closer.released ∷ cs) = (omega arith, refl)
release_at-unreleased (suc i) (c ∷ cs) =
    let (same, long) = release_at-unreleased i cs in (omega arith, ap suc long)

module _ (ctx_err : Error) (services : ℕ) where
  start_next-IsCounted :
      (n : ℕ) (g : Group) → g.left ≡ n → IsCounted services g → IsCounted services (start_next n g)
  start_next-IsCounted zero g here h = h
  start_next-IsCounted (suc n) g here h = record {
    counted = let c = h.counted in omega arith;
    all_there = let t = h.all_there in omega arith;
    done_last = λ d. let (none_left, _) = h.done_last d in absurd (omega arith);
    nil_last = h.nil_last;
  }

  closes-IsCounted :
      (g : Group) (b : Bool)
      → (eqb g.left 0 && eqb g.counter 0) ≡ b
      → IsCounted services g
      → IsCounted services (if b then record g { done = true } else g)
  closes-IsCounted g false test h = h
  closes-IsCounted g true test h = record {
    counted = h.counted;
    all_there = h.all_there;
    done_last = λ d. let c = h.counted in (ground arith, ground arith);
    nil_last = λ returned. refl;
  }

  picks-IsCounted :
      (g : Group) (o : Outcome) (b : Bool)
      → (b ≡ true → o ≡ none → g.done ≡ true)
      → IsCounted services g
      → IsCounted services (if b then record g { caller = some o } else g)
  picks-IsCounted g o false closed h = h
  picks-IsCounted g o true closed h = record {
    counted = h.counted;
    all_there = h.all_there;
    done_last = h.done_last;
    nil_last = λ returned. closed refl cc;
  }

  perform-IsCounted :
      (a : Action) (g : Group) → IsCounted services g → IsCounted services (perform ctx_err a g)
  unfolding perform
  perform-IsCounted Action.starts g h = start_next-IsCounted g.left g refl h
  perform-IsCounted (Action.returns i) g h =
      let (same, long) = return_at-unreleased i g.closers in
      record {
        counted = h.counted ∙ sym same;
        all_there = ap (λ n. g.left + n) long ∙ h.all_there;
        done_last = λ d. let (l, u) = h.done_last d in (l, same ∙ u);
        nil_last = h.nil_last;
      }
  perform-IsCounted (Action.releases i) g h =
      let (same, long) = release_at-unreleased i g.closers in
      record {
        counted = let c = h.counted in omega arith;
        all_there = ap (λ n. g.left + n) long ∙ h.all_there;
        done_last = λ d. let (l, u) = h.done_last d in (l, omega arith);
        nil_last = h.nil_last;
      }
  perform-IsCounted Action.closes_done g h = closes-IsCounted g _ refl h
  perform-IsCounted Action.expires g h = record {
    counted = h.counted;
    all_there = h.all_there;
    done_last = h.done_last;
    nil_last = h.nil_last;
  }
  perform-IsCounted Action.picks_ctx g h = picks-IsCounted g (some ctx_err) _ (λ test is_nil. cc) h
  perform-IsCounted Action.picks_done g h = picks-IsCounted g none _ (λ test is_nil. ground arith) h

  perform_all-IsCounted :
      (actions : List Action) (g : Group)
      → IsCounted services g
      → IsCounted services (perform_all ctx_err actions g)
  unfolding perform_all
  perform_all-IsCounted [] g h = h
  perform_all-IsCounted (a ∷ actions) g h =
      perform_all-IsCounted actions (perform ctx_err a g) (perform-IsCounted a g h)

  entered-IsCounted : IsCounted services (entered services)
  entered-IsCounted = record {
    counted = refl;
    all_there = omega arith;
    done_last = λ d. cc;
    nil_last = λ returned. cc;
  }

  -- However the goroutines of ShutdownServices, the context and the caller interleave: when it has
  -- returned nil, a goroutine was started for every service, and each has returned from Close and
  -- called `wg.Done`.
  pub perform_all-closed :
      (actions : List Action)
      → let g = perform_all ctx_err actions (entered services) in
        g.caller ≡ some none → (length g.closers ≡ services) × (unreleased g.closers ≡ 0)
  perform_all-closed actions returned =
      let h = perform_all-IsCounted actions (entered services) entered-IsCounted in
      let (none_left, all_released) = h.done_last (h.nil_last returned) in
      let there = h.all_there in (omega arith, all_released)
