-- ===== src/Gateway/Debug/Recursion.antt =====
-- A request for the path of the pprof server that README.md names.
use l.Prelude.{
  ℕ, zero, suc, String, ◌≡◌, refl, ◌∙◌, Bool, true, false, List, ◌∷◌, Option, none, some, ◌==◌,
}
use l.Prelude.{eq_refl}
use l.Prelude.Lists.{any}
use l.Gateway.Debug.{Target, own_mux, debug_routes, serve_mux}

-- What net/http documents of a mux: the only pattern that matches a path is chosen, one that does not
-- match it is not, and a pattern without a trailing slash and wildcards matches its own path alone.
pub record IsMux {H : Type 0} (find : List (String × Target H) → String → Option (Target H))
    (matches : String → String → Bool) : Type 0 where
  pub found :
      (p path : String) (t : Target H) (routes : List (String × Target H))
      → matches p path ≡ true
      → any (λ r. matches r.0 path) routes ≡ false
      → find ((p, t) ∷ routes) path ≡ some t
  pub skipped :
      (p path : String) (t : Target H) (routes : List (String × Target H))
      → matches p path ≡ false
      → find ((p, t) ∷ routes) path ≡ find routes path
  pub exact : (path : String) → matches "/debug/pprof" path ≡ ("/debug/pprof" == path)

module _ {H : Type 0} (find : List (String × Target H) → String → Option (Target H))
    (matches : String → String → Bool) (laws : IsMux find matches)
    (registered : List (String × Target H)) where
  loops :
      any (λ r. matches r.0 "/debug/pprof") registered ≡ false
      → (depth : ℕ) → serve_mux find depth (debug_routes registered) "/debug/pprof" ≡ none
  unfolding serve_mux debug_routes
  loops alone zero = refl
  loops alone (suc depth) =
      let self : find (debug_routes registered) "/debug/pprof" ≡ some own_mux =
        laws.found "/debug/pprof" "/debug/pprof" own_mux registered
          (laws.exact "/debug/pprof" ∙ eq_refl "/debug/pprof") alone in
      rw self (loops alone depth)

  as_before :
      (path : String)
      → ("/debug/pprof" == path) ≡ false
      → (depth : ℕ)
      → serve_mux find depth (debug_routes registered) path ≡ serve_mux find depth registered path
  unfolding serve_mux debug_routes
  as_before path differs zero = refl
  as_before path differs (suc depth) =
      let same : find (debug_routes registered) path ≡ find registered path =
        laws.skipped "/debug/pprof" path own_mux registered (laws.exact path ∙ differs) in
      rw (same, as_before path differs depth) refl

  -- Where no other pattern matches /debug/pprof, the mux answers a request for it at no depth of
  -- nested calls. Every other path is answered, within each depth, as without this registration.
  pub pprof-unanswered :
      (path : String) (depth : ℕ)
      → any (λ r. matches r.0 "/debug/pprof") registered ≡ false
      → ("/debug/pprof" == path) ≡ false
      → (serve_mux find depth (debug_routes registered) "/debug/pprof" ≡ none)
        × (serve_mux find depth (debug_routes registered) path
            ≡ serve_mux find depth registered path)
  pprof-unanswered path depth alone differs = (loops alone depth, as_before path differs depth)
