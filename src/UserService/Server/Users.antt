-- ===== src/UserService/Server/Users.antt =====
-- What every run of the handlers of user-service/main.go keeps of the table of users.
use mathlib.Core.Path.{subst}
use mathlib.Core.List.{◌++◌}
use l.Prelude.{
  String, ◌≡◌, sym, ap, ◌∙◌, Bool, true, false, not, ◌||◌, List, [], ◌∷◌, arith, str_eq→eq,
}
use l.Prelude.Lists.{any, reject, contains}
use l.Exec.{ok}
use l.Exec.Inversion.{on_wrapping, on_require, on_lift, on_last_lift, wrapping-eq-ok}
use l.Exec.Moves.{Moves, moved, moves_rules}
use l.Sql.{text}
use l.Sql.Laws.{Row, IsPostgres, Inserted, Quiet, has, clash, matches}
use l.Sql.Laws
use l.Sql.Keys.{AtMostOnce, AtMostOnce-concat, AtMostOnce-reject, any-concat_miss, any-reject}
use l.Sql.Schema.{unique_columns}
use l.Redis.{IsRedis}
use l.Redis
use l.Libs.{Libs, World}
use l.Libs.Laws.{IsBcrypt}
use l.Libs.Zoom.{on_db-eq-ok, on_redis-eq-ok}
use l.Protos.Rules.{roles}
use l.Protos.User.{RegReq, RegRes, LogReq, LogRes, ExtJwtDataReq, ExtJwtDataRes, DelUserReq}
use l.Protos.User.Accepted.{reg_req_error-none}
use l.UserService.Repo.{User, log_user}
use l.UserService.Repo.Accounts.{user_row}
use l.UserService.Repo.Deletion.{del_user-MayDelete}
use l.UserService.Server.{
  reg_user, log_user_handler, ext_jwt_data, del_user, admit_user, issue_session, new_session,
}
use l.UserService.Server.Registration.{reg_user-Registered}
use l.UserService.Server.OwnAccount.{
  SameDb, SameDb-order, on_host-SameDb, on_redis-SameDb, ext_jwt_data-SameDb,
}

-- The row has one of the roles of the service.
abbrev pub known_role : Row → Bool
known_role row = any (λ role. has row "role" (text role)) roles

-- A column with no text twice.
abbrev pub HasUnique : String → List Row → Type 0
HasUnique column rows = (s : String) → AtMostOnce (λ row. has row column (text s)) rows

pub record IsWellFormed (rows : List Row) : Type 0 where
  pub roles_known : any (λ row. not (known_role row)) rows ≡ false
  pub ids_unique : HasUnique "id" rows
  pub names_unique : HasUnique "user_name" rows

no_clash_on : (a b : Bool) → (a || (b || false)) ≡ false → (a ≡ false) × (b ≡ false)
no_clash_on a b h = ground arith

IsWellFormed-add :
    (id user_name role pswd : String) (rows : List Row)
    → contains roles role ≡ true
    → clash (unique_columns "users") (user_row id user_name role pswd) rows ≡ false
    → IsWellFormed rows
    → IsWellFormed (rows ++ user_row id user_name role pswd ∷ [])
IsWellFormed-add id user_name role pswd rows good free w =
    let new = user_row id user_name role pswd in
    let (free_id, free_name) = no_clash_on _ _ free in
    record {
      roles_known = any-concat_miss (λ row. not (known_role row)) rows new w.roles_known (rw good);
      ids_unique = λ s.
          AtMostOnce-concat (λ row. has row "id" (text s)) rows new (w.ids_unique s)
            (λ same. rw (sym (str_eq→eq id s same)) free_id);
      names_unique = λ s.
          AtMostOnce-concat (λ row. has row "user_name" (text s)) rows new (w.names_unique s)
            (λ same. rw (sym (str_eq→eq user_name s same)) free_name);
    }

IsWellFormed-reject :
    (p : Row → Bool) (rows : List Row) → IsWellFormed rows → IsWellFormed (reject p rows)
IsWellFormed-reject p rows w = record {
  roles_known = any-reject (λ row. not (known_role row)) p rows w.roles_known;
  ids_unique = λ s. AtMostOnce-reject _ p rows (w.ids_unique s);
  names_unique = λ s. AtMostOnce-reject _ p rows (w.names_unique s);
}

module _ {K S D Q Tx : Type 0} (x : Libs K S D Q Tx) where
  new_session-SameDb : (id role : String) → Moves SameDb (new_session x id role)
  unfolding new_session
  new_session-SameDb id role =
      search (moves_rules, SameDb-order, on_host-SameDb, on_redis-SameDb) depth 9

  issue_session-SameDb : (user : User) → Moves SameDb (issue_session x user)
  unfolding issue_session
  issue_session-SameDb user =
      search (moves_rules, SameDb-order, on_host-SameDb, new_session-SameDb) depth 9

  admit_user-SameDb : (password : String) (user : User) → Moves SameDb (admit_user x password user)
  unfolding admit_user
  admit_user-SameDb password user = search (moves_rules, SameDb-order, issue_session-SameDb) depth 9

module _ {K S D Q Tx : Type 0} (x : Libs K S D Q Tx) (sv : Redis.View S) (dv : Laws.View D Tx)
    (redis : IsRedis x.redis sv) (pg : IsPostgres x.pg dv unique_columns)
    (bcrypt : IsBcrypt x.bcrypt) where
  abbrev pub users : World K S D → List Row
  users w = dv.rows w.db "users"

  log_user-rows :
      (user_name password : String) (d : D) {user : User} {d' : D}
      → log_user x.pg user_name password d ≡ (ok user, d')
      → dv.rows d' "users" ≡ dv.rows d "users"
  unfolding log_user
  log_user-rows user_name password d h = on_lift _ _ _ d h λ query built h₁.
      on_wrapping _ _ _ d h₁ λ row d₁ got h₂. on_last_lift _ _ d₁ h₂ λ _ same.
        let (_, _, quiet) = pg.select_ok _ _ _ query _ d d₁ row built got in
        rw (← same) (quiet.rows_kept "users")

  log_user_handler-users :
      (req : LogReq) (w : World K S D) {res : LogRes} {w' : World K S D}
      → log_user_handler x req w ≡ (ok res, w')
      → users w' ≡ users w
  unfolding log_user_handler
  log_user_handler-users req w h = on_require _ _ _ w h λ _ h₁.
      on_wrapping _ _ _ w h₁ λ user w₁ found h₂.
        let (looked, _, _) = on_db-eq-ok _ w found in
        ap (λ d. dv.rows d "users") (moved _ w₁ (admit_user-SameDb x req.password user) h₂)
        ∙ log_user-rows _ req.password w.db looked

  del_user-users :
      (req : DelUserReq) (w : World K S D) {w' : World K S D}
      → del_user x req w ≡ (ok tt, w')
      → users w' ≡ reject (matches (("id", text req.del_user_id) ∷ [])) (users w)
  unfolding del_user
  del_user-users req w h = on_require _ _ _ w h λ _ h₁. on_wrapping _ _ _ w h₁ λ _ w₁ ended h₂.
      let (_, _, same_db) = on_redis-eq-ok _ w ended in
      let (deleted, _, _) = on_db-eq-ok _ w₁ (wrapping-eq-ok _ _ w₁ h₂) in
      let (_, rows, _) =
        del_user-MayDelete x.pg dv unique_columns pg req.user_id req.role req.del_user_id w₁.db
          deleted in
      rows
      ∙ ap (λ d. reject (matches (("id", text req.del_user_id) ∷ [])) (dv.rows d "users")) same_db

  -- Requests that the service answers without an error, one after the other. Between them the users
  -- stay the same, while everything else may change.
  pub data Answers : World K S D → World K S D → Type 0 where
    over : (w : World K S D) → Answers w w
    idle : (w w₁ w₂ : World K S D) → users w₁ ≡ users w → Answers w₁ w₂ → Answers w w₂
    registers :
        (w w₁ w₂ : World K S D) (req : RegReq) (res : RegRes)
        → reg_user x req w ≡ (ok res, w₁)
        → Answers w₁ w₂
        → Answers w w₂
    logs_in :
        (w w₁ w₂ : World K S D) (req : LogReq) (res : LogRes)
        → log_user_handler x req w ≡ (ok res, w₁)
        → Answers w₁ w₂
        → Answers w w₂
    extracts :
        (w w₁ w₂ : World K S D) (req : ExtJwtDataReq) (res : ExtJwtDataRes)
        → ext_jwt_data x req w ≡ (ok res, w₁)
        → Answers w₁ w₂
        → Answers w w₂
    deletes :
        (w w₁ w₂ : World K S D) (req : DelUserReq)
        → del_user x req w ≡ (ok tt, w₁)
        → Answers w₁ w₂
        → Answers w w₂

  reg_user-IsWellFormed :
      (req : RegReq) (w : World K S D) {res : RegRes} {w' : World K S D}
      → reg_user x req w ≡ (ok res, w')
      → IsWellFormed (users w)
      → IsWellFormed (users w')
  reg_user-IsWellFormed req w h formed =
      let (valid, a) = reg_user-Registered x sv dv redis pg bcrypt req w h in
      let (_, _, _, good_role, _) = reg_req_error-none x.parsers req valid in
      subst IsWellFormed (sym a.added.added)
        (IsWellFormed-add a.id _ req.role a.hashed (users w) good_role a.added.no_clash formed)

  -- Whatever requests the service answers, and in whatever order: if each user has one of the roles
  -- admin, dev and guest, and no two have one id or one user name, it stays so.
  pub Answers-IsWellFormed :
      (w w' : World K S D) → Answers w w' → IsWellFormed (users w) → IsWellFormed (users w')
  Answers-IsWellFormed w w' (Answers.over _) formed = formed
  Answers-IsWellFormed w w' (Answers.idle _ w₁ _ same rest) formed =
      Answers-IsWellFormed w₁ w' rest (subst IsWellFormed (sym same) formed)
  Answers-IsWellFormed w w' (Answers.registers _ w₁ _ req res h rest) formed =
      Answers-IsWellFormed w₁ w' rest (reg_user-IsWellFormed req w h formed)
  Answers-IsWellFormed w w' (Answers.logs_in _ w₁ _ req res h rest) formed =
      Answers-IsWellFormed w₁ w' rest
        (subst IsWellFormed (sym (log_user_handler-users req w h)) formed)
  Answers-IsWellFormed w w' (Answers.extracts _ w₁ _ req res h rest) formed =
      Answers-IsWellFormed w₁ w' rest (
        subst IsWellFormed
          (sym (ap (λ d. dv.rows d "users") (moved _ w (ext_jwt_data-SameDb x req) h))) formed)
  Answers-IsWellFormed w w' (Answers.deletes _ w₁ _ req h rest) formed =
      Answers-IsWellFormed w₁ w' rest
        (subst IsWellFormed (sym (del_user-users req w h)) (IsWellFormed-reject _ (users w) formed))
