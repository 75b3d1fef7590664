-- ===== src/Tests/Cache.antt =====
-- A Redis server in memory.
use mathlib.Core.List.{◌++◌}
use l.Prelude.{
  ℕ, ◌+◌, String, ◌≡◌, ◌≢◌, refl, sym, ap, ◌∙◌, Bool, true, false, List, [], ◌∷◌, Option, none,
  some, ◌==◌, if◌then◌else◌, eq_refl, ne→str_ne,
}
use l.Prelude.Lists.{lookup}
use l.Exec.{Result, ok, err}
use l.Redis.{Command, hset, expire, Redis, View, Stored, overlay, IsRedis, IsUp}

pub record Cache : Type 0 where
  pub hashes : String → List (String × String)
  pub counters : String → ℕ
  pub ttls : String → Option ℕ

module _ {A : Type 0} where
  abbrev pub set : String → A → (String → A) → String → A
  set k a f j = if j == k then a else f j

  set_here : (k : String) (a : A) (f : String → A) → set k a f k ≡ a
  set_here k a f = rw (eq_refl k)

  set_other : (k j : String) (a : A) (f : String → A) → j ≢ k → set k a f j ≡ f j
  set_other k j a f other = rw (ne→str_ne j k other)

abbrev perform : Command → Cache → Cache
perform (hset k fields) s = record s { hashes = set k (fields ++ s.hashes k) s.hashes }
perform (expire k seconds) s = record s { ttls = set k (some seconds) s.ttls }

abbrev perform_all : List Command → Cache → Cache
perform_all [] s = s
perform_all (c ∷ cs) s = perform_all cs (perform c s)

abbrev pub redis : Redis Cache
redis = record {
  queue_error = λ c. none;
  exec_pipeline = λ cs s. (ok tt, perform_all cs s);
  hgetall = λ k s. (ok (s.hashes k), s);
  del = λ k s. (ok tt, record s { hashes = set k [] s.hashes });
  incr =
      λ k s. (ok (s.counters k + 1), record s { counters = set k (s.counters k + 1) s.counters });
  expire_key = λ k seconds s. (ok tt, perform (expire k seconds) s);
}

abbrev pub view : View Cache
view = record { hash = λ s. s.hashes; counter = λ s. s.counters; ttl = λ s. s.ttls }

looked_up :
    (b : Bool) (v : String) (o old o' : Option String)
    → o' ≡ overlay o old
    → Path (Option String) (if b then some v else o') (overlay (if b then some v else o) old)
looked_up true v o old o' h = refl
looked_up false v o old o' h = h

lookup-concat :
    (f : String) (xs ys : List (String × String))
    → lookup f (xs ++ ys) ≡ overlay (lookup f xs) (lookup f ys)
lookup-concat f [] ys = refl
lookup-concat f ((k, v) ∷ xs) ys =
    looked_up (k == f) v (lookup f xs) (lookup f ys) _ (lookup-concat f xs ys)

stored :
    (k : String) (fields : List (String × String)) (seconds : ℕ) (s : Cache)
    → Stored view k fields seconds s (perform_all (hset k fields ∷ expire k seconds ∷ []) s)
stored k fields seconds s = record {
  written = λ f.
      ap (lookup f) (set_here k (fields ++ s.hashes k) s.hashes)
      ∙ lookup-concat f fields (s.hashes k);
  expires = set_here k (some seconds) s.ttls;
  others_kept = λ j other. set_other k j _ s.hashes other;
}

value_of :
    {A : Type 0} (a b : A) {s s' : Cache} → Path (Result A × Cache) (ok a, s) (ok b, s') → a ≡ b
value_of a b h = ap (λ p. elim p.0 [ ok c ↦ c | err e ↦ a ]) h

pub redis-IsRedis : IsRedis redis view
redis-IsRedis = record {
  pipeline_ok = λ k fields seconds s s' h. rw (sym (ap (λ p. p.1) h)) (stored k fields seconds s);
  hgetall_ok = λ k fields s s' h f. ap (lookup f) (sym (value_of (s.hashes k) fields h));
  del_ok = λ k s s' h. (
    ap (λ p. p.1.hashes k) (sym h) ∙ set_here k [] s.hashes,
    λ j other. ap (λ p. p.1.hashes j) (sym h) ∙ set_other k j [] s.hashes other,
  );
  incr_ok = λ k n s s' h.
      let next = value_of (s.counters k + 1) n h in
      (
        sym next,
        ap (λ p. p.1.counters k) (sym h) ∙ set_here k _ s.counters ∙ next,
        λ j other. ap (λ p. p.1.counters j) (sym h) ∙ set_other k j _ s.counters other,
      );
  incr_ttl = λ k n s s' h j. ap (λ p. p.1.ttls j) (sym h);
  expire_counter = λ k seconds s j. refl;
}

pub redis-IsUp : IsUp redis view
redis-IsUp = record {
  queue_up = λ c. refl;
  pipeline_up = λ cs s. (perform_all cs s, refl);
  hgetall_up = λ k s. (s.hashes k, s, refl);
  del_up = λ k s. (record s { hashes = set k [] s.hashes }, refl);
}
