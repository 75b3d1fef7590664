-- ===== src/Protos/User/Accepted.antt =====
-- What a request of the user service satisfies once its `Validate` has passed
-- (protos/generated-user/user-service.pb.validate.go).
use Prim.Native.String.{count}
use l.Prelude.{Bool, ℕ, String, true, false, ◌&&◌, ◌≡◌, ◌≤◌, none, leb, arith}
use l.Prelude.Lists.{contains}
use l.Protos.Address.{Parsers, validate_email}
use l.Errors.{Error}
use l.Protos.Rules.{
  run_checks, to_error, field_check, roles, check_min_runes, check_uuid, check_email, validate_uuid,
  uuid_pattern,
}
use l.Protos.Rules.Verdicts.{
  check_uuid-none, run_checks-AllPass, field_check-none, because-none, leb→≤,
}
use l.Protos.User.{
  RegReq, reg_req_checks, del_user_req_checks, reg_req_error, validate_reg_req, DelUserReq,
  ExtJwtDataReq, ext_jwt_data_req_error, validate_ext_jwt_data_req, too_short, del_user_req_error,
  validate_del_user_req,
}

between : (a b c : ℕ) → (leb a b && leb b c) ≡ true → (a ≤ b) × (b ≤ c)
between a b c h = ground arith

check_min_runes-none :
    (least : ℕ) (message field reason value : String)
    → check_min_runes least message field reason value ≡ none
    → least ≤ count value
unfolding check_min_runes
check_min_runes-none least message field reason value h = leb→≤ _ _ (field_check-none _ _ h)

check_email-none :
    (p : Parsers) (message field value : String)
    → check_email p message field value ≡ none
    → validate_email p value ≡ none
unfolding check_email
check_email-none p message field value h = because-none message field _ _ h

-- A registration that passes has a name of 2 to 50 runes, an email that the email check accepts, one
-- of the roles admin, dev and guest, and a password of at least 8 runes.
pub reg_req_error-none :
    (p : Parsers) (m : RegReq)
    → reg_req_error p m ≡ none
    → (2 ≤ count m.name)
      × (count m.name ≤ 50)
      × (validate_email p m.email ≡ none)
      × (contains roles m.role ≡ true)
      × (8 ≤ count m.password)
unfolding reg_req_error validate_reg_req
reg_req_error-none p m h =
    let (name, (email, (role, (password, _)))) = run_checks-AllPass false (reg_req_checks p m) h in
    let (least, most) = between 2 (count m.name) 50 (field_check-none _ _ name) in
    (
      least,
      most,
      check_email-none p _ _ _ email,
      field_check-none _ _ role,
      check_min_runes-none 8 _ _ _ _ password,
    )

-- A deletion request that passes has one of the three roles, and UUIDs as its user and its session
-- key. Nothing is said of the user to delete.
pub del_user_req_error-none :
    (m : DelUserReq)
    → del_user_req_error m ≡ none
    → (contains roles m.role ≡ true)
      × (uuid_pattern m.user_id ≡ true)
      × (uuid_pattern m.session_key ≡ true)
unfolding del_user_req_error validate_del_user_req
del_user_req_error-none m h =
    let (role, (user, (key, _))) = run_checks-AllPass false (del_user_req_checks m) h in
    (field_check-none _ _ role, check_uuid-none _ _ _ user, check_uuid-none _ _ _ key)

field_check-of : (good : Bool) (e : Error) → good ≡ true → field_check good e ≡ none
field_check-of good e h = rw h

check_uuid-of :
    (message field value : String)
    → uuid_pattern value ≡ true
    → check_uuid message field value ≡ none
unfolding check_uuid validate_uuid
check_uuid-of message field value h = rw h

-- The converse for a deletion request.
pub del_user_req_error-of :
    (m : DelUserReq)
    → contains roles m.role ≡ true
    → uuid_pattern m.user_id ≡ true
    → uuid_pattern m.session_key ≡ true
    → del_user_req_error m ≡ none
unfolding del_user_req_error validate_del_user_req run_checks to_error
del_user_req_error-of m role user key = rw (
  role,
  check_uuid-of "DelUserReq" "UserId" m.user_id user,
  check_uuid-of "DelUserReq" "SessionKey" m.session_key key,
)

check_min_runes-of :
    (least : ℕ) (message field reason value : String)
    → least ≤ count value
    → check_min_runes least message field reason value ≡ none
unfolding check_min_runes
check_min_runes-of least message field reason value h =
    field_check-of (leb least (count value)) _ (ground arith)

-- A request for the data of a token passes if the token has at least 100 runes and the session key is
-- a UUID.
pub ext_jwt_data_req_error-of :
    (m : ExtJwtDataReq)
    → 100 ≤ count m.token
    → uuid_pattern m.session_key ≡ true
    → ext_jwt_data_req_error m ≡ none
unfolding ext_jwt_data_req_error validate_ext_jwt_data_req run_checks to_error
ext_jwt_data_req_error-of m long key = rw (
  check_min_runes-of 100 "ExtJWTDataReq" "Token" too_short m.token long,
  check_uuid-of "ExtJWTDataReq" "SessionKey" m.session_key key,
)
