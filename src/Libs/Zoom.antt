-- ===== src/Libs/Zoom.antt =====
-- An action on one part of the world: it succeeds as its action does, and leaves the other parts.
use l.Prelude.{◌≡◌, sym, ap}
use l.Exec.{ok, Exec}
use l.Libs.{World, on_host, on_redis, on_db}

module _ {K S D A : Type 0} where
  pub on_host-eq-ok :
      (m : Exec K A) (w : World K S D) {a : A} {w' : World K S D}
      → on_host m w ≡ (ok a, w')
      → (m w.host ≡ (ok a, w'.host)) × (w'.sessions ≡ w.sessions) × (w'.db ≡ w.db)
  unfolding on_host
  on_host-eq-ok m w h =
      (ap (λ p. (p.0, p.1.host)) h, sym (ap (λ p. p.1.sessions) h), sym (ap (λ p. p.1.db) h))

  pub on_redis-eq-ok :
      (m : Exec S A) (w : World K S D) {a : A} {w' : World K S D}
      → on_redis m w ≡ (ok a, w')
      → (m w.sessions ≡ (ok a, w'.sessions)) × (w'.host ≡ w.host) × (w'.db ≡ w.db)
  unfolding on_redis
  on_redis-eq-ok m w h =
      (ap (λ p. (p.0, p.1.sessions)) h, sym (ap (λ p. p.1.host) h), sym (ap (λ p. p.1.db) h))

  pub on_db-eq-ok :
      (m : Exec D A) (w : World K S D) {a : A} {w' : World K S D}
      → on_db m w ≡ (ok a, w')
      → (m w.db ≡ (ok a, w'.db)) × (w'.host ≡ w.host) × (w'.sessions ≡ w.sessions)
  unfolding on_db
  on_db-eq-ok m w h =
      (ap (λ p. (p.0, p.1.db)) h, sym (ap (λ p. p.1.host) h), sym (ap (λ p. p.1.sessions) h))

  -- The same from the success of the part.
  pub on_host-of-ok :
      (m : Exec K A) (w : World K S D) {a : A} {k : K}
      → m w.host ≡ (ok a, k)
      → on_host m w ≡ (ok a, record w { host = k })
  unfolding on_host
  on_host-of-ok m w h = ap (λ p. (p.0, record w { host = p.1 })) h

  pub on_redis-of-ok :
      (m : Exec S A) (w : World K S D) {a : A} {s : S}
      → m w.sessions ≡ (ok a, s)
      → on_redis m w ≡ (ok a, record w { sessions = s })
  unfolding on_redis
  on_redis-of-ok m w h = ap (λ p. (p.0, record w { sessions = p.1 })) h

  pub on_db-of-ok :
      (m : Exec D A) (w : World K S D) {a : A} {d : D}
      → m w.db ≡ (ok a, d)
      → on_db m w ≡ (ok a, record w { db = d })
  unfolding on_db
  on_db-of-ok m w h = ap (λ p. (p.0, record w { db = p.1 })) h
