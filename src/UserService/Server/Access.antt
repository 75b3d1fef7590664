-- ===== src/UserService/Server/Access.antt =====
-- Which tokens ExtJWTData of user-service/main.go answers, and what ends a session.
use l.Prelude.{
  String, ◌≡◌, ◌⊎◌, inl, inr, refl, false, not, ◌&&◌, Option, none, some, [], arith, ◌==◌, eq_iff,
  ap, sym, ◌∙◌,
}
use l.Prelude.Lists.{index_or_empty}
use l.Errors.{Error}
use l.Exec.{ok, fail, ◌>>=◌}
use l.Exec.Inversion.{on_wrapping, on_require, on_pure, on_if}
use l.Redis.{View, IsRedis}
use l.Libs.{Libs, World, on_redis, on_db}
use l.UserService.Sessions.{del_session}
use l.Libs.Zoom.{on_redis-eq-ok}
use l.Protos.User.{ExtJwtDataReq, ExtJwtDataRes, DelUserReq, del_user_req_error}
use l.UserService.Crypto.{UserInfo, ext_jwt}
use l.UserService.Sessions.Keys.{HasSession, validate-HasSession}
use l.UserService.Server.{renew, answer, ext_jwt_data, del_user}

named : (a b : String) → (not (a == "") && not (b == "")) ≡ false → (a ≡ "") ⊎ (b ≡ "")
named a b h = ground (arith, eq_iff a "", eq_iff b "")

module _ {K S D Q Tx : Type 0} (x : Libs K S D Q Tx) (v : View S) (laws : IsRedis x.redis v) where
  -- What an answer rests on: the token was read without an error, and unless its user or its role
  -- is empty, the session at the key is theirs.
  pub record Backed (req : ExtJwtDataReq) (res : ExtJwtDataRes) (info : UserInfo) (s : S)
      : Type 0 where
    pub same_user : res.user_id ≡ info.user_id
    pub same_role : res.role ≡ info.role
    pub session :
        (info.user_id ≡ "")
        ⊎ (info.role ≡ "")
        ⊎ HasSession v s req.session_key info.user_id info.role

  renew-HasSession :
      (req : ExtJwtDataReq) (info : UserInfo) (w : World K S D) {res : ExtJwtDataRes}
      {w' : World K S D}
      → renew x req info w ≡ (ok res, w')
      → (res.user_id ≡ info.user_id)
        × (res.role ≡ info.role)
        × HasSession v w.sessions req.session_key info.user_id info.role
  unfolding renew
  renew-HasSession req info w h = on_wrapping _ _ _ w h λ _ w₁ valid h₁.
      on_wrapping _ _ _ w₁ h₁ λ _ w₂ _ h₂. on_pure _ w₂ h₂ λ same _. (
        sym (ap (λ r. r.user_id) same),
        sym (ap (λ r. r.role) same),
        validate-HasSession x.redis v laws info.user_id info.role req.session_key w.sessions
            (on_redis-eq-ok _ w valid).0,
      )

  answer-Backed :
      (req : ExtJwtDataReq) (info : UserInfo) (e : Option Error) (w : World K S D)
      {res : ExtJwtDataRes} {w' : World K S D}
      → answer x req info e w ≡ (ok res, w')
      → (e ≡ none) × Backed req res info w.sessions
  unfolding answer fail
  answer-Backed req info (some e) w h = cc
  answer-Backed req info none w h =
      on_if (not (info.user_id == "") && not (info.role == "")) (renew x req info) _ w h
        (λ _ h₁.
          let (user, role, session) = renew-HasSession req info w h₁ in
          (refl, record { same_user = user; same_role = role; session = inr (inr session) }))
        λ unnamed h₁. on_pure _ w h₁ λ same _. (
          refl,
          record {
            same_user = sym (ap (λ r. r.user_id) same);
            same_role = sym (ap (λ r. r.role) same);
            session = elim (named info.user_id info.role unnamed) [
              | inl a ↦ inl a
              | inr b ↦ inr (inl b)
            ];
          },
        )

  -- ExtJWTData answers only for a token that ExtJWT reads without an error, with the user and the
  -- role of that token; and if these are not empty, only while the session of the request is theirs.
  pub ext_jwt_data-Backed :
      (req : ExtJwtDataReq) (w : World K S D) {res : ExtJwtDataRes} {w' : World K S D}
      → ext_jwt_data x req w ≡ (ok res, w')
      → (info : UserInfo) × ((ext_jwt x.host x.jwt x.jwt_secret req.token w.host).0 ≡ (info, none))
        × Backed req res info w.sessions
  unfolding ext_jwt_data
  ext_jwt_data-Backed req w h = on_require _ _ _ w h λ _ h₁.
      let (info, e) = (ext_jwt x.host x.jwt x.jwt_secret req.token w.host).0 in
      let (no_error, backed) =
        answer-Backed req info e
          (record w { host = (ext_jwt x.host x.jwt x.jwt_secret req.token w.host).1 }) h₁ in
      (info, ap (λ o. (info, o)) no_error, backed)

  sessions-del_user :
      (req : DelUserReq) (w : World K S D) (s : S)
      → del_user_req_error req ≡ none
      → x.redis.del req.session_key w.sessions ≡ (ok tt, s)
      → (del_user x req w).1.sessions ≡ s
  unfolding del_user del_session on_redis on_db ◌>>=◌
  sessions-del_user req w s valid deleted = rw (valid, deleted)

  no_session :
      (id role sk : String) (s : S)
      → v.hash s sk ≡ []
      → HasSession v s sk id role
      → (id ≡ "") × (role ≡ "")
  no_session id role sk s gone (same_id, same_role) =
      (sym same_id ∙ ap (index_or_empty "id") gone, sym same_role ∙ ap (index_or_empty "role") gone)

  -- A DelUser request that passes its validation ends its session, if Redis deletes the key, whether
  -- the deletion of the user is then allowed or not: from the sessions that it leaves, ExtJWTData
  -- answers a request with that session key only for a token whose user or role is empty.
  pub del_user_ends_session :
      (req : DelUserReq) (w : World K S D) (s : S) (again : ExtJwtDataReq) (w₁ w₂ : World K S D)
      (res : ExtJwtDataRes)
      → del_user_req_error req ≡ none
      → x.redis.del req.session_key w.sessions ≡ (ok tt, s)
      → again.session_key ≡ req.session_key
      → w₁.sessions ≡ (del_user x req w).1.sessions
      → ext_jwt_data x again w₁ ≡ (ok res, w₂)
      → (res.user_id ≡ "") ⊎ (res.role ≡ "")
  del_user_ends_session req w s again w₁ w₂ res valid deleted same_key left answered =
      let (info, _, backed) = ext_jwt_data-Backed again w₁ answered in
      let gone : v.hash w₁.sessions again.session_key ≡ [] =
        rw (same_key, left, sessions-del_user req w s valid deleted)
          ((laws.del_ok req.session_key w.sessions s deleted).0) in
      elim backed.session [
        | inl no_user ↦ inl (backed.same_user ∙ no_user)
        | inr (inl no_role) ↦ inr (backed.same_role ∙ no_role)
        | inr (inr session) ↦
            inl (backed.same_user ∙ (no_session info.user_id info.role _ _ gone session).0)
      ]
