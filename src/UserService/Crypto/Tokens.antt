-- ===== src/UserService/Crypto/Tokens.antt =====
-- Tokens that the service issues, read back by the service.
use l.Prelude.{ℕ, ◌+◌, ◌≤◌, String, ◌≡◌, refl, ap, none, some, ltb, if◌then◌else◌, arith}
use l.Errors.{text}
use l.Exec.{ok}
use l.Libs.{Host, Jwt}
use l.Libs.Laws.{IsJwt, json_claims, max_exact}
use l.UserService.Crypto.{claims_of, key_of, token_seconds, read_token, gen_jwt, ext_jwt}

-- What the claims of an issued token say at a time.
read_token-claims_of :
    (id role : String) (exp now : ℕ)
    → read_token (ok (some (json_claims (claims_of id role exp)))) now ≡ (
      record { role = role; user_id = id },
      if ltb exp now then some (text "Token has expired") else none,
    )
read_token-claims_of id role exp now = ground arith

module _ {K : Type 0} (host : Host K) (jwt : Jwt) (secret : String) (laws : IsJwt jwt) where
  -- A token that GenJWT issued at a time is read by ExtJWT as the same user and role. It is refused,
  -- with the user and role beside the error, exactly when more than 15 minutes have passed.
  pub ext_jwt-gen_jwt :
      (id role token : String) (k k' later : K)
      → (host.now k).0 + token_seconds ≤ max_exact
      → gen_jwt host jwt secret id role k ≡ (ok token, k')
      → (ext_jwt host jwt secret token later).0 ≡ (
        record { role = role; user_id = id },
        if ltb ((host.now k).0 + token_seconds) (host.now later).0
            then some (text "Token has expired")
            else none,
      )
  unfolding gen_jwt ext_jwt
  ext_jwt-gen_jwt id role token k k' later fits issued =
      let signed = ap (λ p. p.0) issued in
      rw
        (laws.parse-sign (claims_of id role ((host.now k).0 + token_seconds)) secret token
          (key_of secret) (fits, tt) signed refl)
        (read_token-claims_of id role ((host.now k).0 + token_seconds) (host.now later).0)
