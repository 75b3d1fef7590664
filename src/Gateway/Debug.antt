-- ===== src/Gateway/Debug.antt =====
-- The pprof server of api-gateway/main.go: http.DefaultServeMux, which serves it, is added to itself.
-- How a mux finds the handler of a path is a parameter, and so are the patterns that net/http/pprof
-- and others register.
pub mod Recursion
use l.Prelude.{ℕ, zero, suc, String, List, ◌∷◌, Option, none, some}

-- A handler of http.DefaultServeMux: the mux itself, or another one.
pub data Target (H : Type 0) : Type 0 where
  own_mux : Target H
  other : H → Target H

module _ {H : Type 0} where
  -- http.Handle("/debug/pprof", http.DefaultServeMux)
  unfoldable pub debug_routes : List (String × Target H) → List (String × Target H)
  debug_routes registered = ("/debug/pprof", own_mux) ∷ registered

  -- The answer, given what the mux answers when it is called again.
  abbrev pub answered : Option (Target H) → Option (Option H) → Option (Option H)
  answered none again = some none
  answered (some (other h)) again = some (some h)
  answered (some own_mux) again = again

  -- ServeHTTP of the mux: the handler that answers a path, or `some none` for a 404; `none` where
  -- more calls are nested than the depth allows. A goroutine has a stack of one gigabyte at most, and
  -- a program that needs more is ended.
  unfoldable pub serve_mux :
      (List (String × Target H) → String → Option (Target H))
      → ℕ
      → List (String × Target H)
      → String
      → Option (Option H)
  serve_mux find zero routes path = none
  serve_mux find (suc depth) routes path =
      let again = serve_mux find depth routes path in answered (find routes path) again
