-- ===== src/Gateway/Backend/LostAnswer.antt =====
-- A call that rpc of api-gateway/internal/service/service.go repeats although user-service has served it.
use Prim.Native.String.{◌++◌}
use l.Prelude.{ℕ, String, ◌≡◌, refl, ap, ◌∙◌, true, false, Option, some, eq_refl}
use l.Prelude.Lists.{any}
use l.Errors.{Error, Code, error_text}
use l.Exec.{Result, ok, err, Exec}
use l.Sql.{text}
use l.Sql.Laws.{IsPostgres, ReportsClash, has}
use l.Sql.Laws
use l.Sql.Schema.{unique_columns}
use l.Sql.Unique.{any-concat}
use l.Redis.{IsRedis}
use l.Redis
use l.Libs.{Libs, World}
use l.Libs.Laws.{IsBcrypt}
use l.Protos.User.{RegReq, RegRes}
use l.UserService.Repo.Accounts.{user_row}
use l.UserService.Server.{reg_user}
use l.UserService.Server.Registration.{Registered, reg_user-Registered}
use l.UserService.Server.Login.{Signs}
use l.UserService.Server.Duplicates.{reg_user-taken}
use l.Gateway.Service.{should_retry, rpc}

-- What a gRPC client gets of an answer that arrives: an error without a status has the code Unknown.
abbrev pub conveyed : {W A : Type 0} → Result A × W → Result A × W
conveyed (ok a, w) = (ok a, w)
conveyed (err e, w) = (err (Error.status Code.unknown (error_text e)), w)

module _ {S A : Type 0} (from_error : Error → Option Code) (sleep : ℕ → S → S) (fn : Exec S A) where
  -- A call that is repeated once, with an error that is not.
  rpc-second :
      (s s₁ s₂ : S) (lost e : Error)
      → fn s ≡ (err lost, s₁)
      → should_retry from_error lost ≡ true
      → fn (sleep 1 s₁) ≡ (err e, s₂)
      → should_retry from_error e ≡ false
      → rpc from_error sleep fn s ≡ (err e, s₂)
  unfolding rpc
  rpc-second s s₁ s₂ lost e first again second last = rw (first, again, second, last) refl

module _ {K S D Q Tx : Type 0} (x : Libs K S D Q Tx) (sv : Redis.View S) (dv : Laws.View D Tx)
    (redis : IsRedis x.redis sv) (pg : IsPostgres x.pg dv unique_columns)
    (bcrypt : IsBcrypt x.bcrypt) (redis_up : Redis.IsUp x.redis sv)
    (pg_up : Laws.IsUp x.pg dv unique_columns) (signs : Signs x.jwt x.jwt_secret)
    (clashes : ReportsClash x.pg dv unique_columns) (from_error : Error → Option Code)
    (status_code : (c : Code) (s : String) → from_error (Error.status c s) ≡ some c)
    (sleep : ℕ → World K S D → World K S D)
    (sleep_keeps : (n : ℕ) (w : World K S D) → (sleep n w).db ≡ w.db)
    (dial : (A : Type 0) → Exec (World K S D) A → Exec (World K S D) A)
    (hashes : (pswd : String) (k : K)
      → (hashed : String) × (k' : K) × (x.bcrypt.generate pswd k ≡ (ok hashed, k'))) where
  -- The user name of a registration is taken once it has had its effects.
  taken_after :
      (req : RegReq) (res : RegRes) (u u₁ : World K S D)
      → Registered x sv dv redis pg bcrypt req res u u₁
      → any (λ row. has row "user_name" (text (req.name ++ req.email))) (dv.rows u₁.db "users")
        ≡ true
  taken_after req res u u₁ a =
      ap (any (λ row. has row "user_name" (text (req.name ++ req.email)))) a.added.added
      ∙ any-concat (λ row. has row "user_name" (text (req.name ++ req.email)))
          (dv.rows u.db "users") (user_row a.id (req.name ++ req.email) req.role a.hashed)
          (eq_refl (req.name ++ req.email))

  -- A registration whose answer is lost on the way, so that the gateway sees the code Unavailable, is
  -- sent again. Then, while PostgreSQL, Redis, bcrypt and the signing work, rpc ends with the error
  -- that the user exists, although the registration has had its effects: its user is among the
  -- users, and its token and session key have reached nobody.
  pub rpc-lost_answer :
      (req : RegReq) (res : RegRes) (u u₁ : World K S D) (lost : Error)
      → reg_user x req u ≡ (ok res, u₁)
      → dial RegRes (reg_user x req) u ≡ (err lost, u₁)
      → from_error lost ≡ some Code.unavailable
      → dial RegRes (reg_user x req) (sleep 1 u₁) ≡ conveyed (reg_user x req (sleep 1 u₁))
      → (w' : World K S D) × (rpc from_error sleep (dial RegRes (reg_user x req)) u ≡ (
        err (
            Error.status Code.unknown
              "UserService.ReqUser: user with this email or username already exists"),
        w',
      ))
        × Registered x sv dv redis pg bcrypt req res u u₁
        × (dv.rows w'.db "users" ≡ dv.rows u₁.db "users")
  unfolding error_text should_retry
  rpc-lost_answer req res u u₁ lost served dropped unavailable answered =
      let (valid, a) = reg_user-Registered x sv dv redis pg bcrypt req u served in
      let same_db = sleep_keeps 1 u₁ in
      let (w', sk, refused, rows, _) =
        reg_user-taken x sv dv redis pg bcrypt redis_up pg_up signs clashes req (sleep 1 u₁)
          (hashes req.password) valid
          (ap
              (λ d.
                any (λ row. has row "user_name" (text (req.name ++ req.email))) (dv.rows d "users"))
              same_db
            ∙ taken_after req res u u₁ a) in
      (
        w',
        rpc-second from_error sleep (dial RegRes (reg_user x req)) u u₁ w' lost _ dropped
            (rw (unavailable, should_retry) refl) (answered ∙ ap conveyed refused)
            (rw (status_code, should_retry) refl),
        a,
        rows ∙ ap (λ d. dv.rows d "users") same_db,
      )
