-- ===== src/Gateway/Mdwr/Auth.antt =====
-- RequestID and JWTAuth of api-gateway/internal/mdwr in the order in which routers.go puts them in
-- front of the user handlers.
use l.Prelude.{
  ℕ, String, ◌≡◌, ◌≢◌, refl, sym, ap, ◌∙◌, Bool, true, false, Option, none, some, ◌⊎◌, inl, inr,
  ne→str_ne,
}
use l.Prelude.Lists.{lookup}
use l.Errors.{error_text}
use l.Exec.{Result, ok, err, Exec}
use l.Gateway.Http.{
  UserInfo, Key, CtxValue, Request, Reply, Handler, header, value, as_user, with_value,
}
use l.Gateway.Mdwr.{
  is_public_route, bearer_token, request_id, authorized, admit, jwt_auth, set_header,
  request_id_header, request_id_mdwr,
}

module _ {W : Type 0} (merged : Bool) (ext : String → String → String → Exec W UserInfo)
    (new_uuid : W → String × W) where
  -- The handler behind RequestID and JWTAuth ran on this request, for a token of this user.
  pub record Admitted (h : Handler W) (r : Request) (id : String) (w₁ : W) (result : Reply × W)
      : Type 0 where
    pub token : String
    pub session_key : String
    pub user : UserInfo
    pub seen : Request
    pub after : W
    pub bearer : bearer_token (header r "Authorization") ≡ inr token
    pub cookie : lookup "session_key" r.cookies ≡ some session_key
    pub accepted : ext token session_key id w₁ ≡ (ok user, after)
    pub user_seen : as_user (value merged seen Key.user_key) ≡ user
    pub id_seen : request_id merged seen ≡ id
    pub same_cookies : seen.cookies ≡ r.cookies
    pub same_params : seen.params ≡ r.params
    pub same_path : seen.path ≡ r.path
    pub same_method : seen.method ≡ r.method
    pub ran : result ≡ h seen after

  -- The handler did not run: the reply is an error, and the state is as the lookup of the token left
  -- it, if that was made.
  pub record Refused (id : String) (w₁ : W) (result : Reply × W) : Type 0 where
    pub code : ℕ
    pub text : String
    pub is_error : result.0 ≡ Reply.error code text
    pub untouched :
        (result.1 ≡ w₁)
        ⊎ ((token : String) × (session_key : String) × (result.1 ≡ (ext token session_key id w₁).1))

  prepared : String → Request → Request
  prepared id r = set_header request_id_header id (with_value Key.req_key (CtxValue.text id) r)

  -- Whichever way the two keys compare, the id set by RequestID is found again.
  kept_id :
      (b : Bool) (id : String) (user : UserInfo) (r : Request)
      → merged ≡ b
      → id ≢ ""
      → request_id merged (authorized id user (prepared id r)) ≡ id
  unfolding prepared
  kept_id true id user r is_merged some_id = rw is_merged
  kept_id false id user r is_merged some_id = rw is_merged (rw (ne→str_ne id "" some_id))

  first_id : (id : String) (r : Request) → id ≢ "" → request_id merged (prepared id r) ≡ id
  unfolding prepared
  first_id id r some_id = rw (ne→str_ne id "" some_id)

  answered :
      (h : Handler W) (r : Request) (id token sk : String) (w₁ : W) (found : Result UserInfo × W)
      (result : Reply × W)
      → id ≢ ""
      → bearer_token (header r "Authorization") ≡ inr token
      → lookup "session_key" r.cookies ≡ some sk
      → ext token sk id w₁ ≡ found
      → result ≡ elim found.0 [
        | ok user ↦ h (authorized id user (prepared id r)) found.1
        | err e ↦ (Reply.error 500 (error_text e), found.1)
      ]
      → Refused id w₁ result ⊎ Admitted h r id w₁ result
  unfolding prepared
  answered h r id token sk w₁ (ok user, w') result some_id bearer cookie called same = inr (record {
    token = token;
    session_key = sk;
    user = user;
    seen = authorized id user (prepared id r);
    after = w';
    bearer = bearer;
    cookie = cookie;
    accepted = called;
    user_seen = refl;
    id_seen = kept_id _ id user r refl some_id;
    same_cookies = refl;
    same_params = refl;
    same_path = refl;
    same_method = refl;
    ran = same;
  })
  answered h r id token sk w₁ (err e, w') result some_id bearer cookie called same = inl (record {
    code = 500;
    text = error_text e;
    is_error = rw same;
    untouched = inr (token, sk, ap (λ p. p.1) same ∙ sym (ap (λ p. p.1) called));
  })

  asked :
      (h : Handler W) (r : Request) (id token sk : String) (w₁ : W)
      → is_public_route r.url ≡ false
      → id ≢ ""
      → bearer_token (header r "Authorization") ≡ inr token
      → lookup "session_key" r.cookies ≡ some sk
      → jwt_auth merged ext h (prepared id r) w₁ ≡ elim (ext token sk id w₁).0 [
        | ok user ↦ h (authorized id user (prepared id r)) (ext token sk id w₁).1
        | err e ↦ (Reply.error 500 (error_text e), (ext token sk id w₁).1)
      ]
  unfolding jwt_auth prepared
  asked h r id token sk w₁ guarded some_id p q =
      rw (guarded, p, q, jwt_auth)
        (ap (λ rq. admit ext h token sk rq (prepared id r) w₁) (first_id id r some_id)
          ∙ rw (ne→str_ne id "" some_id, admit))

  -- The request that the handler sees.
  abbrev pub passed_on : String → UserInfo → Request → Request
  passed_on id user r =
      authorized id user
        (set_header request_id_header id (with_value Key.req_key (CtxValue.text id) r))

  -- A bearer token and a session cookie that the user service accepts let a request pass.
  pub jwt_auth-accepts :
      (h : Handler W) (r : Request) (w : W) (token sk : String) (user : UserInfo) (w₂ : W)
      → is_public_route r.url ≡ false
      → (new_uuid w).0 ≢ ""
      → bearer_token (header r "Authorization") ≡ inr token
      → lookup "session_key" r.cookies ≡ some sk
      → ext token sk (new_uuid w).0 (new_uuid w).1 ≡ (ok user, w₂)
      → let q = passed_on (new_uuid w).0 user r in
        (request_id_mdwr new_uuid (jwt_auth merged ext h) r w ≡ h q w₂)
        × (request_id merged q ≡ (new_uuid w).0)
  unfolding request_id_mdwr prepared
  jwt_auth-accepts h r w token sk user w₂ guarded some_id bearer cookie accepted =
      let (id, w₁) = new_uuid w in
      (
        asked h r id token sk w₁ guarded some_id bearer cookie
            ∙ ap
                (λ (p : Result UserInfo × W). elim p.0 [
                  | ok found ↦ h (passed_on id found r) p.1
                  | err e ↦ (Reply.error 500 (error_text e), p.1)
                ])
                accepted,
        kept_id _ id user r refl some_id,
      )

  authenticate :
      (h : Handler W) (r : Request) (id : String) (w₁ : W) (bearer : String ⊎ String)
      (cookie : Option String)
      → is_public_route r.url ≡ false
      → id ≢ ""
      → bearer_token (header r "Authorization") ≡ bearer
      → lookup "session_key" r.cookies ≡ cookie
      → let result = jwt_auth merged ext h (prepared id r) w₁ in
        Refused id w₁ result ⊎ Admitted h r id w₁ result
  unfolding jwt_auth prepared
  authenticate h r id w₁ (inl problem) cookie guarded some_id p q = inl (record {
    code = 400;
    text = problem;
    is_error = rw (guarded, p, jwt_auth);
    untouched = inl (rw (guarded, p, jwt_auth));
  })
  authenticate h r id w₁ (inr token) none guarded some_id p q = inl (record {
    code = 400;
    text = "http: named cookie not present";
    is_error = rw (guarded, p, q, jwt_auth);
    untouched = inl (rw (guarded, p, q, jwt_auth));
  })
  authenticate h r id w₁ (inr token) (some sk) guarded some_id p q =
      answered h r id token sk w₁ (ext token sk id w₁) _ some_id p q refl
        (asked h r id token sk w₁ guarded some_id p q)

  -- On a route that is not public, with the id that RequestID draws not empty: either the reply is
  -- an error and the handler did not run, or the session cookie and a bearer token are there,
  -- the user service accepted them, and the handler ran once, on a request in which it reads
  -- the user of the token and the id, whichever way the two context keys compare.
  pub jwt_auth-Admitted :
      (h : Handler W) (r : Request) (w : W)
      → is_public_route r.url ≡ false
      → (new_uuid w).0 ≢ ""
      → let (id, w₁) = new_uuid w in
        let result = request_id_mdwr new_uuid (jwt_auth merged ext h) r w in
        Refused id w₁ result ⊎ Admitted h r id w₁ result
  unfolding request_id_mdwr prepared
  jwt_auth-Admitted h r w guarded some_id =
      let (id, w₁) = new_uuid w in authenticate h r id w₁ _ _ guarded some_id refl refl
