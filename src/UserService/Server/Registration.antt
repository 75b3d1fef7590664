-- ===== src/UserService/Server/Registration.antt =====
-- What a successful RegUser of user-service/main.go has done.
use Prim.Native.String.{◌++◌}
use mathlib.Core.Path.{subst}
use l.Prelude.{String, ◌≡◌, none, ◌∙◌, sym, ap}
use l.Exec.{ok, err}
use l.Exec.Inversion.{on_wrapping, on_require, on_pure, on_bind, on_mapping}
use l.Sql.Laws.{IsPostgres, Inserted}
use l.Sql.Laws
use l.Sql.Schema.{unique_columns}
use l.Redis.{IsRedis, Stored}
use l.Redis
use l.Libs.{Libs, World, on_host}
use l.Libs.Laws.{IsBcrypt}
use l.Libs.Zoom.{on_redis-eq-ok, on_host-eq-ok, on_db-eq-ok}
use l.Protos.User.{RegReq, RegRes, reg_req_error}
use l.UserService.Crypto.{gen_jwt, hash}
use l.UserService.Repo.Accounts.{user_row, add_user-Inserted}
use l.UserService.Sessions.{session_fields, session_seconds}
use l.UserService.Sessions.Keys.{store_session-Stored}
use l.UserService.Server.{new_id, new_session, reg_user}

module _ {K S D Q Tx : Type 0} (x : Libs K S D Q Tx) (sv : Redis.View S) (dv : Laws.View D Tx)
    (redis : IsRedis x.redis sv) (pg : IsPostgres x.pg dv unique_columns)
    (bcrypt : IsBcrypt x.bcrypt) where
  -- NewSession stores the session under the key that it returns, and does not touch the users.
  pub new_session-Stored :
      (id role : String) (w : World K S D) {sk : String} {w' : World K S D}
      → new_session x id role w ≡ (ok sk, w')
      → Stored sv sk (session_fields id role) session_seconds w.sessions w'.sessions
        × (w'.db ≡ w.db)
  unfolding new_session
  new_session-Stored id role w {w'} h = on_bind _ _ w h λ key w₁ drawn h₁.
      let (_, same_sessions, same_db) = on_host-eq-ok _ w drawn in
      let (stored, _, same_db') = on_redis-eq-ok _ w₁ h₁ in
      let (same_key, effect) =
        store_session-Stored x.redis sv redis key id role w₁.sessions stored in
      (
        subst (λ k. Stored sv k (session_fields id role) session_seconds w.sessions w'.sessions)
            (sym same_key) (rw same_sessions at effect),
        same_db' ∙ same_db,
      )

  -- An identifier that the host has drawn.
  abbrev pub Drawn : String → Type 0
  Drawn id = (k : K) × ((x.host.new_uuid k).0 ≡ id)

  new_id-Drawn :
      (w : World K S D) {id : String} {w' : World K S D} → new_id x w ≡ (ok id, w') → Drawn id
  unfolding new_id on_host
  new_id-Drawn w {id} h = (w.host, ap (λ p. elim p.0 [ ok a ↦ a | err e ↦ id ]) h)

  -- The session key that NewSession returns is drawn.
  new_session-Drawn :
      (id role : String) (w : World K S D) {sk : String} {w' : World K S D}
      → new_session x id role w ≡ (ok sk, w')
      → Drawn sk
  unfolding new_session
  new_session-Drawn id role w h = on_bind _ _ w h λ key w₁ drawn h₁.
      let (stored, _, _) = on_redis-eq-ok _ w₁ h₁ in
      let (k, same) = new_id-Drawn w drawn in
      (k, same ∙ sym (store_session-Stored x.redis sv redis key id role w₁.sessions stored).0)

  -- The effects of a registration: the user is added with a hash of its password, the session of the
  -- returned key is that of the user, and the returned token was issued for the user.
  pub record Registered (req : RegReq) (res : RegRes) (w w' : World K S D) : Type 0 where
    pub id : String
    pub hashed : String
    pub id_drawn : Drawn id
    pub key_drawn : Drawn res.session_key
    pub stored :
        Stored sv res.session_key
          (session_fields id req.role)
          session_seconds
          w.sessions
          w'.sessions
    pub added :
        Inserted dv
          (unique_columns "users")
          "users"
          (user_row id (req.name ++ req.email) req.role hashed)
          w.db
          w'.db
    pub password_kept : x.bcrypt.compare_hash hashed req.password ≡ none
    pub host_at_issue : K
    pub host_after : K
    pub issued :
        gen_jwt x.host x.jwt x.jwt_secret id req.role host_at_issue ≡ (ok res.token, host_after)

  finished :
      (req : RegReq) (w : World K S D) {res res' : RegRes} {u w' : World K S D}
      → res ≡ res'
      → u ≡ w'
      → Registered req res w u
      → Registered req res' w w'
  finished req w {res} {w'} same stay r =
      subst (λ q. Registered req q w w') same (subst (λ t. Registered req res w t) stay r)

  -- A RegUser that succeeds had a request that passes validation. It has added one user, under an id
  -- and a user name that no other row has, with a hash that its password matches; stored a session
  -- for the user under the returned key; and issued the returned token for the user and its role.
  pub reg_user-Registered :
      (req : RegReq) (w : World K S D) {res : RegRes} {w' : World K S D}
      → reg_user x req w ≡ (ok res, w')
      → (reg_req_error x.parsers req ≡ none) × Registered req res w w'
  unfolding reg_user hash
  reg_user-Registered req w h = on_require _ _ _ w h λ valid h₁. on_bind _ _ w h₁ λ id w₁ drawn h₂.
      on_wrapping _ _ _ w₁ h₂ λ hashed w₂ hashing h₃. on_wrapping _ _ _ w₂ h₃ λ token w₃ signing h₄.
        on_wrapping _ _ _ w₃ h₄ λ sk w₄ storing h₅. on_mapping _ _ _ w₄ h₅ λ _ w₅ adding h₆.
          on_pure _ w₅ h₆ λ same stay.
            let (_, s₁, d₁) = on_host-eq-ok _ w drawn in
            let (hash_made, s₂, d₂) = on_host-eq-ok _ w₁ hashing in
            let (signed, s₃, d₃) = on_host-eq-ok _ w₂ signing in
            let (stored, d₄) = new_session-Stored id req.role w₃ storing in
            let (inserted, _, s₅) = on_db-eq-ok _ w₄ adding in
            let all_sessions = s₃ ∙ s₂ ∙ s₁ in
            let all_rows = d₄ ∙ d₃ ∙ d₂ ∙ d₁ in
            (
              valid,
              finished req w same stay (record {
                id = id;
                hashed = hashed;
                id_drawn = new_id-Drawn w drawn;
                key_drawn = new_session-Drawn id req.role w₃ storing;
                stored = rw (all_sessions, ← s₅) at stored;
                added = rw all_rows at (
                    add_user-Inserted x.pg dv pg id (req.name ++ req.email) req.role hashed w₄.db
                      inserted);
                password_kept =
                    bcrypt.compare-generate req.password hashed w₁.host w₂.host hash_made;
                host_at_issue = w₂.host;
                host_after = w₃.host;
                issued = signed;
              }),
            )
