-- ===== src/Tests/Debuggers.antt =====
-- A mux that serves a path by the pattern that is equal to it, with the index page of pprof.
use l.Prelude.{String, ◌≡◌, refl, List, [], ◌∷◌, Option, none, some, ◌==◌}
use l.Prelude.Lists.{lookup}
use l.Gateway.Debug.{Target, other, debug_routes, serve_mux}
use l.Gateway.Debug.Recursion.{IsMux, pprof-unanswered}

abbrev find : List (String × Target String) → String → Option (Target String)
find routes path = lookup path routes

find-IsMux : IsMux find (λ p path. p == path)
find-IsMux = record {
  found = λ p path t routes matched alone. rw matched refl;
  skipped = λ p path t routes unmatched. rw unmatched refl;
  exact = λ path. refl;
}

abbrev registered : List (String × Target String)
registered = ("/debug/pprof/", other "index") ∷ []

index_served : serve_mux find 1 (debug_routes registered) "/debug/pprof/" ≡ some (some "index")
unfolding serve_mux debug_routes
index_served = refl

pprof-unanswered_example :
    (serve_mux find 1000 (debug_routes registered) "/debug/pprof" ≡ none)
    × (serve_mux find 1000 (debug_routes registered) "/debug/pprof/"
        ≡ serve_mux find 1000 registered "/debug/pprof/")
pprof-unanswered_example =
    pprof-unanswered find (λ p path. p == path) find-IsMux registered "/debug/pprof/" 1000 refl refl
