-- ===== src/Gateway/Users/Deletion.antt =====
-- delUser of api-gateway/internal/users/handler.go, for a validator that reads exported fields alone.
use l.Prelude.{String, ◌≡◌, ◌≢◌, refl, ap, ◌∙◌, Bool, false, List, [], ◌∷◌, none, some, ne→str_ne}
use l.Prelude.Lists.{lookup}
use l.Exec.{Result, ok, err}
use l.Gateway.Http.{Key, Request, Reply, value, as_user}
use l.Gateway.Mdwr.{request_id}
use l.Protos.User.{ExtJwtDataRes}
use l.Gateway.Users.{
  hidden_field, ext_jwt_data, Field, Validator, UsersRpc, del_user, del_request, del_fields,
  del_with_cookie, refuse, replied,
}

-- No field of the list is exported.
abbrev pub AllHidden : List Field → Type 0
AllHidden [] = Unit
AllHidden (f ∷ fields) = (f.exported ≡ false) × AllHidden fields

module _ {W : Type 0} (merged : Bool) (validator : Validator)
    (hidden : (fields : List Field) → AllHidden fields → validator fields ≡ none)
    (rpc : UsersRpc W) where
  asks :
      (r : Request) (sk : String) (w : W)
      → (let user = as_user (value merged r Key.user_key) in
          del_with_cookie merged validator rpc r user (some sk) w
          ≡ replied
              (λ done. Reply.status 200)
              (rpc.del_user (del_request merged validator rpc r user sk) w))
  asks r sk w =
      let q = del_request merged validator rpc r (as_user (value merged r Key.user_key)) sk in
      ap
        (λ o. elim o [
          | some e ↦ refuse 400 e w
          | none ↦ replied (λ done. Reply.status 200) (rpc.del_user q w)
        ])
        (hidden (del_fields merged validator rpc q) (refl, (refl, (refl, (refl, tt)))))

  -- delUser asks user-service, for a request with an id, a user with a role, and a session cookie.
  pub del_user-asks :
      (r : Request) (sk : String) (w : W)
      → request_id merged r ≢ ""
      → (as_user (value merged r Key.user_key)).user_id ≢ ""
      → (as_user (value merged r Key.user_key)).role ≢ ""
      → lookup "session_key" r.cookies ≡ some sk
      → del_user merged validator rpc r w
        ≡ replied
            (λ done. Reply.status 200)
            (rpc.del_user
              (del_request merged validator rpc r (as_user (value merged r Key.user_key)) sk)
              w)
  unfolding del_user
  del_user-asks r sk w some_rq has_id has_role cookie =
      rw
        (
          ne→str_ne (request_id merged r) "" some_rq,
          ne→str_ne (as_user (value merged r Key.user_key)).user_id "" has_id,
          ne→str_ne (as_user (value merged r Key.user_key)).role "" has_role,
          cookie,
        )
        (asks r sk w)

  -- ExtJWTData returns the user and the role that user-service answers.
  pub ext_jwt_data-answered :
      (token sk rq : String) (w w' : W) (res : ExtJwtDataRes)
      → rpc.ext_jwt_data (record { token = token; session_key = sk }) w ≡ (ok res, w')
      → ext_jwt_data merged validator rpc token sk rq w
        ≡ (ok (record { role = res.role; user_id = res.user_id }), w')
  unfolding ext_jwt_data
  ext_jwt_data-answered token sk rq w w' res called =
      ap
        (λ o. elim o [
          | some e ↦ (err e, w)
          | none ↦
              (let (res, w') = rpc.ext_jwt_data (record { token = token; session_key = sk }) w in
                elim res [
                  | err e ↦ (err e, w')
                  | ok data' ↦ (ok (record { role = data'.role; user_id = data'.user_id }), w')
                ])
        ])
        (hidden (hidden_field "" token ∷ hidden_field "" sk ∷ []) (refl, (refl, tt)))
      ∙ ap
          (λ (p : Result ExtJwtDataRes × W). elim p.0 [
            | err e ↦ (err e, p.1)
            | ok data' ↦ (ok (record { role = data'.role; user_id = data'.user_id }), p.1)
          ])
          called
