-- ===== src/UserService/Sessions/Keys.antt =====
-- What the session functions of user-service/internal/db/redis.go write and check.
use l.Prelude.{String, ◌≡◌, false, not, ◌||◌, [], ◌∷◌, arith, ◌==◌, eq_iff, eq_refl, ap, sym, ◌∙◌}
use l.Prelude.Lists.{index_or_empty, or_empty}
use l.Exec.{ok, ◌>>=◌}
use l.Exec.Inversion.{on_wrapping, on_require, on_pure, on_guard}
use l.Redis.{Redis, View, Stored, IsRedis, IsUp, hset, expire}
use l.UserService.Sessions.{session_seconds, session_fields, store_session, validate}

-- The session at a key is that of this user and role.
abbrev pub HasSession : {S : Type 0} → View S → S → String → String → String → Type 0
HasSession v s sk id role =
    (index_or_empty "id" (v.hash s sk) ≡ id) × (index_or_empty "role" (v.hash s sk) ≡ role)

both_equal : (a b c d : String) → (not (a == b) || not (c == d)) ≡ false → (a ≡ b) × (c ≡ d)
both_equal a b c d h = ground (arith, eq_iff a b, eq_iff c d)

module _ {S : Type 0} (redis : Redis S) (v : View S) (laws : IsRedis redis v) where
  -- Validate passes for the session of this user and role alone.
  pub validate-HasSession :
      (id role sk : String) (s : S) {s' : S}
      → validate redis id role sk s ≡ (ok tt, s')
      → HasSession v s sk id role
  unfolding validate
  validate-HasSession id role sk s h = on_wrapping _ _ _ s h λ fields s₁ got h₁.
      on_guard _ _ _ s₁ h₁ λ equal _.
        let (same_id, same_role) = both_equal _ _ _ _ equal in
        let read = laws.hgetall_ok sk fields s s₁ got in
        (ap or_empty (sym (read "id")) ∙ same_id, ap or_empty (sym (read "role")) ∙ same_role)

  -- A new session is stored under its key with its user, its role and 720 hours to live.
  pub store_session-Stored :
      (sk id role : String) (s : S) {key : String} {s' : S}
      → store_session redis sk id role s ≡ (ok key, s')
      → (key ≡ sk) × Stored v sk (session_fields id role) session_seconds s s'
  unfolding store_session
  store_session-Stored sk id role s h = on_require _ _ _ s h λ _ h₁. on_require _ _ _ s h₁ λ _ h₂.
      on_wrapping _ _ _ s h₂ λ _ s₁ stored h₃.
        on_pure _ s₁ h₃
          λ same stay. (sym same, laws.pipeline_ok sk _ _ s _ (stored ∙ ap (λ t. (ok tt, t)) stay))

  -- A session that was stored is there.
  pub HasSession-of_Stored :
      (sk id role : String) (s s' : S)
      → Stored v sk (session_fields id role) session_seconds s s'
      → HasSession v s' sk id role
  HasSession-of_Stored sk id role s s' stored =
      (ap or_empty (stored.written "id"), ap or_empty (stored.written "role"))

  -- While Redis is up, a session can be stored, and one that is there passes Validate.
  pub store_session_up :
      (up : IsUp redis v) (sk id role : String) (s : S)
      → (s' : S) × (store_session redis sk id role s ≡ (ok sk, s'))
  unfolding store_session ◌>>=◌
  store_session_up up sk id role s =
      let (s', stored) =
        up.pipeline_up (hset sk (session_fields id role) ∷ expire sk session_seconds ∷ []) s in
      (
        s',
        rw (
          up.queue_up (hset sk (session_fields id role)),
          up.queue_up (expire sk session_seconds),
          stored,
        ),
      )

  pub validate_up :
      (up : IsUp redis v) (sk id role : String) (s : S)
      → HasSession v s sk id role
      → (s' : S) × (validate redis id role sk s ≡ (ok tt, s'))
  unfolding validate ◌>>=◌
  validate_up up sk id role s (same_id, same_role) =
      let (fields, s', got) = up.hgetall_up sk s in
      let read = laws.hgetall_ok sk fields s s' got in
      (
        s',
        rw (
          got,
          ap or_empty (read "id") ∙ same_id,
          ap or_empty (read "role") ∙ same_role,
          eq_refl id,
          eq_refl role,
        ),
      )
