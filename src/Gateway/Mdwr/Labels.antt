-- ===== src/Gateway/Mdwr/Labels.antt =====
-- The labels of Metrics in api-gateway/internal/mdwr/request.go.
use Prim.Native.String.{len}
use Prim.Native.String.{◌++◌}
use l.Strings.{split, trim, trim_left, trim_right}
use l.Strings.Laws.{none_of, trim_right-append, split-one, split-none_of}
use l.Gateway.Http.{Request}
use Prim.Native.String.append
use mathlib.Core.Path.{subst, fun_ext}
use text.Mathlib.TextLemmas.{append_assoc}
use l.Prelude.{
  ℕ, refl, ap, ◌∙◌, [], ◌∷◌, ◌≡◌, ◌≢◌, ◌<◌, String, Bool, true, false, List, ◌==◌, inl, inr, arith,
  if◌then◌else◌, leb, eqb, ◌&&◌, Bool-cases,
}
use l.Prelude.Lists.{length}
use l.Gateway.Mdwr.{oper, item, path_parts}

record Short (s : String) : Type 0 where
  below : len s < 32

Short-if : (b : Bool) (s t : String) → Short s → Short t → Short (if b then s else t)
Short-if true s t short_s short_t = short_s
Short-if false s t short_s short_t = short_t

Short-by_uuid : (s : String) → Short (if leb 32 (len s) then "by_uuid" else s)
Short-by_uuid s = elim (Bool-cases (leb 32 (len s))) [
  | inl long ↦ rw long (record { below = omega arith })
  | inr short ↦ rw short (record { below = ground arith })
]

-- The operation label of Metrics is shorter than 32 bytes, whatever the path: no identifier
-- becomes a label.
pub oper-len : (method : String) (parts : List String) → len (oper method parts) < 32
oper-len method parts =
    let root : Short "root" = record { below = omega arith } in
    let api : Short "api" = record { below = omega arith } in
    let post : Short "post" = record { below = omega arith } in
    let at_api = item 0 parts == "api" in
    let short : Short (oper method parts) =
      Short-if (eqb (length parts) 1) _ _ (Short-if at_api _ _ api root) (
        Short-if (eqb (length parts) 2 && at_api) _ _ (Short-if (method == "POST") _ _ post root)
          (Short-if (leb 3 (length parts)) _ _ (Short-by_uuid (item 2 parts)) root)) in
    short.below

eqb_comm : (a b : ℕ) → eqb a b ≡ eqb b a
eqb_comm a b = ground arith

none_of_comm : (n : ℕ) (s : String) → none_of (λ c. eqb c n) s ≡ true → none_of (eqb n) s ≡ true
none_of_comm n s h = rw (fun_ext (λ c. eqb_comm n c)) h

-- One slash at the head is trimmed, and no character of "api/".
trim_left-api : (s : String) → trim_left (eqb b'/') ("/api/" ++ s) ≡ "api/" ++ s
unfolding trim_left
trim_left-api s = rw (append.cons "/" "api/" s, append.cons "a" "pi/" s) refl

trim_right-group :
    (svc s : String)
    → s ≢ ""
    → none_of (λ c. eqb c b'/') s ≡ true
    → trim_right (eqb b'/') ("api/" ++ (svc ++ ("/" ++ s))) ≡ "api/" ++ (svc ++ ("/" ++ s))
trim_right-group svc s some_s clean =
    let regrouped : ("api/" ++ (svc ++ "/")) ++ s ≡ "api/" ++ (svc ++ ("/" ++ s)) =
      simp append_assoc in
    subst (λ t. trim_right (eqb b'/') t ≡ t) regrouped
      (trim_right-append (eqb b'/') ("api/" ++ (svc ++ "/")) s some_s (none_of_comm b'/' s clean))

-- The parts of a path under the group of a service.
pub path_parts-group :
    (r : Request) (svc s : String)
    → r.path ≡ "/api/" ++ (svc ++ ("/" ++ s))
    → none_of (λ c. eqb c b'/') svc ≡ true
    → none_of (λ c. eqb c b'/') s ≡ true
    → s ≢ ""
    → path_parts r ≡ "api" ∷ svc ∷ s ∷ []
unfolding trim
path_parts-group r svc s here clean_svc clean some_s =
    rw (here, trim_left-api (svc ++ ("/" ++ s)), trim_right-group svc s some_s clean)
      (ap (split b'/') (append_assoc "api" "/" (svc ++ ("/" ++ s)))
        ∙ split-one b'/' "api" "/" (svc ++ ("/" ++ s)) refl refl
        ∙ ap (λ ps. "api" ∷ ps)
            (split-one b'/' svc "/" s clean_svc refl
              ∙ ap (λ ps. svc ∷ ps) (split-none_of b'/' s clean)))
