-- ===== src/UserService/Server/Duplicates.antt =====
-- RegUser of user-service/main.go for a user name that is taken.
use Prim.Native.String.{◌++◌}
use l.Prelude.{String, ◌≡◌, refl, ap, ◌∙◌, Bool, true, Option, none, some, arith, ◌||◌, false}
use l.Prelude.Lists.{any}
use l.Errors
use l.Errors.{Error, as_pq}
use l.Exec.{ok, err, Exec, mapping, require, ◌>>=◌}
use l.Exec.Inversion.{bind-of-ok, bind-of-err, wrapping-of-ok}
use l.Libs.Zoom.{on_host-of-ok}
use l.Sql.{text, insert}
use l.Sql.Laws.{IsPostgres, ReportsClash, Quiet, has, clash, row_of}
use l.Sql.Laws
use l.Sql.Schema.{unique_columns}
use l.Redis.{IsRedis}
use l.Redis
use l.Libs.{Libs, World, on_host, on_db}
use l.Libs.Laws.{IsBcrypt}
use l.Protos.User.{RegReq, reg_req_error}
use l.UserService.Crypto.{hash, gen_jwt}
use l.UserService.Repo.{add_user, user_columns, user_values}
use l.UserService.Sessions.Keys.{HasSession}
use l.UserService.Server.{new_id, reg_user, add_user_error}
use l.UserService.Server.Registration.{new_session-Stored}
use l.UserService.Server.Login.{Signs, gen_jwt_up, new_session_up}

second_clash : (a b : Bool) → b ≡ true → (a || (b || false)) ≡ true
second_clash a b h = ground arith

module _ {K S D Q Tx : Type 0} (x : Libs K S D Q Tx) (sv : Redis.View S) (dv : Laws.View D Tx)
    (redis : IsRedis x.redis sv) (pg : IsPostgres x.pg dv unique_columns)
    (bcrypt : IsBcrypt x.bcrypt) (redis_up : Redis.IsUp x.redis sv)
    (pg_up : Laws.IsUp x.pg dv unique_columns) (signs : Signs x.jwt x.jwt_secret)
    (clashes : ReportsClash x.pg dv unique_columns) where
  abbrev name_taken : String → D → Bool
  name_taken user_name d = any (λ row. has row "user_name" (text user_name)) (dv.rows d "users")

  -- AddUser returns the error of PostgreSQL under its prefix.
  add_user-taken :
      (id user_name role pswd : String) (d : D)
      → name_taken user_name d ≡ true
      → (e : Error) × (d' : D) × (add_user x.pg id user_name role pswd d ≡ (err e, d'))
        × (as_pq e ≡ some "23505")
        × Quiet dv d d'
  unfolding add_user ◌>>=◌
  add_user-taken id user_name role pswd d taken =
      let (query, built) =
        pg_up.to_sql_up (insert "users" user_columns (user_values id user_name role pswd)) in
      let (e, d', refused, code, quiet) =
        clashes.clash_err "users" user_columns (user_values id user_name role pswd) query d built
          (second_clash _ _ taken) in
      (
        Errors.wrapped "UserPostgresRepository.AddUser: execute query: " e,
        d',
        rw (built, refused) refl,
        code,
        quiet,
      )

  -- RegUser turns that error into a text.
  exists_text : Error
  exists_text = Errors.text "UserService.ReqUser: user with this email or username already exists"

  told_apart :
      (m : Exec D Unit) (w : World K S D) (e : Error) (d : D)
      → m w.db ≡ (err e, d)
      → as_pq e ≡ some "23505"
      → mapping add_user_error (on_db m) w ≡ (err exists_text, record w { db = d })
  unfolding mapping on_db exists_text
  told_apart m w e d refused code = rw (refused, code, add_user_error)

  valid_passes :
      (prefix : String) (o : Option Error) (w : World K S D)
      → o ≡ none
      → require prefix o w ≡ (ok tt, w)
  unfolding require
  valid_passes prefix o w valid = rw valid

  new_id-eq :
      (w : World K S D)
      → new_id x w ≡ (ok (x.host.new_uuid w.host).0, record w { host = (x.host.new_uuid w.host).1 })
  unfolding new_id on_host
  new_id-eq w = refl

  -- While PostgreSQL, Redis, bcrypt and the signing work, a valid RegUser whose name and email,
  -- joined, are the user name of a row is refused with the text that the user exists, and leaves
  -- the users as they are. But a session of the new identifier and the role has been stored before.
  pub reg_user-taken :
      (req : RegReq) (w : World K S D)
      (hashes : (k : K)
        → (hashed : String) × (k' : K) × (x.bcrypt.generate req.password k ≡ (ok hashed, k')))
      → reg_req_error x.parsers req ≡ none
      → any (λ row. has row "user_name" (text (req.name ++ req.email))) (dv.rows w.db "users")
        ≡ true
      → (w' : World K S D) × (sk : String) × (reg_user x req w ≡ (
        err (Errors.text "UserService.ReqUser: user with this email or username already exists"),
        w',
      ))
        × (dv.rows w'.db "users" ≡ dv.rows w.db "users")
        × HasSession sv w'.sessions sk (x.host.new_uuid w.host).0 req.role
  unfolding reg_user hash exists_text
  reg_user-taken req w hashes valid taken =
      let (id, k) = x.host.new_uuid w.host in
      let (hashed, k₁, hashing) = hashes k in
      let (token, signing) =
        gen_jwt_up x sv dv redis pg bcrypt redis_up pg_up signs id req.role k₁ in
      let (sk, w₁, stored, session) =
        new_session_up x sv dv redis pg bcrypt redis_up pg_up signs id req.role
          (record w { host = (x.host.now k₁).1 }) in
      let (_, same_db) = new_session-Stored x sv dv redis pg bcrypt id req.role _ stored in
      let (e, d, refused, code, quiet) =
        add_user-taken id (req.name ++ req.email) req.role hashed w₁.db (rw same_db taken) in
      (
        record w₁ { db = d },
        sk,
        bind-of-ok _ _ w (valid_passes _ _ w valid)
            ∙ bind-of-ok _ _ w (new_id-eq w)
            ∙ bind-of-ok _ _ (record w { host = k })
                (wrapping-of-ok _ _ (record w { host = k })
                  (on_host-of-ok (hash x.host x.bcrypt req.password) (record w { host = k })
                    hashing))
            ∙ bind-of-ok _ _ (record w { host = k₁ })
                (wrapping-of-ok _ _ (record w { host = k₁ })
                  (on_host-of-ok (gen_jwt x.host x.jwt x.jwt_secret id req.role)
                    (record w { host = k₁ }) signing))
            ∙ bind-of-ok _ _ (record w { host = (x.host.now k₁).1 })
                (wrapping-of-ok _ _ (record w { host = (x.host.now k₁).1 }) stored)
            ∙ bind-of-err _ _ w₁ (told_apart _ w₁ e d refused code),
        quiet.rows_kept "users" ∙ ap (λ db. dv.rows db "users") same_db,
        session,
      )
