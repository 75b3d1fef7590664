-- ===== src/Tests/Tokens.antt =====
-- A clock with a fixed identifier, a password hash that shows the password, and tokens that spell out
-- their key and their claims.
use Prim.Native.Char.{Char, code}
use Prim.Native.String.{[], ◌∷◌, ◌++◌}
use l.Prelude.{
  ℕ, zero, suc, String, ◌≡◌, refl, ap, Bool, true, false, ◌&&◌, List, Option, none, some, ◌==◌,
  if◌then◌else◌, arith, eq_refl, eq_iff, eqb,
}
use l.Errors.{Error}
use l.Exec.{Result, ok, err}
use l.Libs.{Host, Bcrypt, text, int64, MapClaims, Method, hmac, Jwt}
use l.Libs.Laws.{json_claims, IsJwt, IsBcrypt}
use l.UserService.Crypto.{claims_of}
use l.UserService.Server.Login.{Signs}

abbrev pub uuid : String
uuid = "408683b6-b476-4471-950f-63599ed51bd6"

-- The state is the time.
abbrev pub host : Host ℕ
host = record { new_uuid = λ k. (uuid, k); now = λ k. (k, k) }

abbrev pub bcrypt : Bcrypt ℕ
bcrypt = record {
  generate = λ password k. (ok ("$2a$" ++ password), k);
  compare_hash = λ hashed password.
      if hashed == "$2a$" ++ password
      then none
      else some (Error.text "crypto/bcrypt: wrong password");
}

-- A mark before each character, another at the end.
abbrev spell : String → String → String
spell [] rest = "e" ∷ rest
spell (c ∷ s) rest = "c" ∷ c ∷ spell s rest

abbrev more : Char → Option (String × String) → Option (String × String)
more c none = none
more c (some (s, rest)) = some (c ∷ s, rest)

-- Reading stops at the end mark; any other mark is taken for the one before a character.
abbrev read_text : String → Option (String × String)
read_text [] = none
read_text (m ∷ []) = some ("", "")
read_text (m ∷ c ∷ rest) =
    let later = read_text rest in if eqb (code m) b'e' then some ("", c ∷ rest) else more c later

read_text-spell : (s rest : String) → read_text (spell s rest) ≡ some (s, rest)
read_text-spell [] [] = refl
read_text-spell [] (c ∷ rest) = refl
read_text-spell (c ∷ s) rest = rw (read_text-spell s rest)

abbrev unary : ℕ → String
unary zero = ""
unary (suc n) = "1" ∷ unary n

abbrev marks : String → ℕ
marks [] = 0
marks (c ∷ s) = suc (marks s)

marks-unary : (n : ℕ) → marks (unary n) ≡ n
marks-unary zero = refl
marks-unary (suc n) = ap suc (marks-unary n)

-- The user, the role and the time of claims of the form that GenJWT makes.
abbrev as_user : MapClaims → Option (String × (String × ℕ))
as_user (List.◌∷◌ (a, text role) (List.◌∷◌ (b, text id) (List.◌∷◌ (c, int64 exp) List.[]))) =
    if a == "role" && b == "user_id" && c == "exp" then some (id, (role, exp)) else none
as_user _ = none

all_keys :
    (a b c : String)
    → (a == "role" && b == "user_id" && c == "exp") ≡ true
    → (a ≡ "role") × ((b ≡ "user_id") × (c ≡ "exp"))
all_keys a b c h = ground (arith, eq_iff a "role", eq_iff b "user_id", eq_iff c "exp")

three :
    (a b c r i : String) (e : ℕ) (id role : String) (exp : ℕ) (t : Bool)
    → (a == "role" && b == "user_id" && c == "exp") ≡ t
    → Path
        (Option (String × (String × ℕ)))
        (if t then some (i, (r, e)) else none)
        (some (id, (role, exp)))
    → Path MapClaims
        (List.◌∷◌ (a, text r) (List.◌∷◌ (b, text i) (List.◌∷◌ (c, int64 e) List.[])))
        (claims_of id role exp)
three a b c r i e id role exp true keys h =
    let (same_a, (same_b, same_c)) = all_keys a b c keys in
    let user : Path (String × (String × ℕ)) (i, (r, e)) (id, (role, exp)) =
      ap (λ o. elim o [ none ↦ (i, (r, e)) | some u ↦ u ]) h in
    let same_i : i ≡ id = ap (λ u. u.0) user in
    let same_r : r ≡ role = ap (λ u. u.1.0) user in
    let same_e : e ≡ exp = ap (λ u. u.1.1) user in
    rw (same_a, same_b, same_c, same_i, same_r, same_e)
three a b c r i e id role exp false keys h = cc

as_user-claims_of :
    (claims : MapClaims) (id role : String) (exp : ℕ)
    → as_user claims ≡ some (id, (role, exp))
    → claims ≡ claims_of id role exp
as_user-claims_of (List.◌∷◌ (a, text r) (List.◌∷◌ (b, text i) (List.◌∷◌ (c, int64 e) List.[]))) id
      role exp h =
    three a b c r i e id role exp _ refl h
as_user-claims_of _ id role exp h = cc

abbrev pub spell_all : String → String → String → ℕ → String
spell_all key id role exp = spell key (spell id (spell role (unary exp)))

abbrev sign_user : Option (String × (String × ℕ)) → String → Result String
sign_user none key = err (Error.text "claims are not supported")
sign_user (some (id, (role, exp))) key = ok (spell_all key id role exp)

abbrev bind_text : {A : Type 0} → Option (String × String) → (String → String → Result A) → Result A
bind_text none f = err (Error.text "token is malformed")
bind_text (some (s, rest)) f = f s rest

abbrev check_key : Result String → String → MapClaims → Result (Option MapClaims)
check_key (err e) key claims = err e
check_key (ok given) key claims =
    if given == key then ok (some (json_claims claims)) else err (Error.text "signature is invalid")

abbrev parse_token : String → (Method → Result String) → Result (Option MapClaims)
parse_token token key_of = bind_text (read_text token) λ key rest.
    bind_text (read_text rest) λ id rest'.
      bind_text (read_text rest')
        λ role exp. check_key (key_of hmac) key (claims_of id role (marks exp))

abbrev pub jwt : Jwt
jwt = record { sign = λ claims key. sign_user (as_user claims) key; parse = parse_token }

parse-spell_all :
    (key id role : String) (exp : ℕ) (key_of : Method → Result String)
    → key_of hmac ≡ ok key
    → parse_token (spell_all key id role exp) key_of
      ≡ ok (some (json_claims (claims_of id role exp)))
parse-spell_all key id role exp key_of same = rw (
  read_text-spell key (spell id (spell role (unary exp))),
  read_text-spell id (spell role (unary exp)),
  read_text-spell role (unary exp),
  same,
  eq_refl key,
  marks-unary exp,
)

parse-signed :
    (claims : MapClaims) (key token : String) (key_of : Method → Result String)
    (user : Option (String × (String × ℕ)))
    → as_user claims ≡ user
    → sign_user user key ≡ ok token
    → key_of hmac ≡ ok key
    → parse_token token key_of ≡ ok (some (json_claims claims))
parse-signed claims key token key_of none found signed same = cc
parse-signed claims key token key_of (some (id, (role, exp))) found signed same =
    let shape = as_user-claims_of claims id role exp found in
    let spelled : spell_all key id role exp ≡ token =
      ap (λ r. elim r [ ok t ↦ t | err e ↦ token ]) signed in
    rw (shape, ← spelled) (parse-spell_all key id role exp key_of same)

pub jwt-IsJwt : IsJwt jwt
jwt-IsJwt = record {
  parse-sign = λ claims key token key_of exact signed same.
      parse-signed claims key token key_of _ refl signed same;
}

pub jwt-Signs : (secret : String) → Signs jwt secret
jwt-Signs secret id role exp = (spell_all secret id role exp, refl)

pub bcrypt-IsBcrypt : IsBcrypt bcrypt
bcrypt-IsBcrypt = record {
  compare-generate = λ password hashed k k' h.
      let same : "$2a$" ++ password ≡ hashed = ap (λ p. elim p.0 [ ok t ↦ t | err e ↦ hashed ]) h in
      rw (← same, eq_refl ("$2a$" ++ password));
}
