-- ===== src/Tests/Deletions.antt =====
-- The theorems on the deletion of users and on refused requests of user-service, at concrete inputs.
use l.Prelude.{eq_iff, ℕ, String, ◌≡◌, ◌≢◌, ◌⊎◌, refl, [], ◌∷◌, none, arith}
use l.Prelude.Lists.{reject}
use l.Errors.{Error}
use l.Exec.{ok, err}
use l.Sql.{text}
use l.Sql.Laws.{matches}
use l.Sql.Schema.{unique_columns}
use l.Libs.{Libs, World}
use l.Protos.User.{
  ExtJwtDataReq, ExtJwtDataRes, DelUserReq, reg_req_error, ext_jwt_data_req_error,
  del_user_req_error,
}
use l.UserService.Repo.{del_user}
use l.UserService.Repo.Deletion.{MayDelete, del_user-MayDelete}
use l.UserService.Repo.Leak.{attempts, attempts_leak}
use l.UserService.Server.{reg_user, log_user_handler, ext_jwt_data}
use l.UserService.Server
use l.UserService.Server.Access.{del_user_ends_session}
use l.UserService.Server.Users.{IsWellFormed, Answers, Answers-IsWellFormed}
use l.UserService.Server.Duplicates.{reg_user-taken}
use l.UserService.Sessions.Keys.{HasSession}
use l.Tests.Store.{Db, postgres}
use l.Tests.Store.Queries.{postgres-IsUp, postgres-ReportsClash}
use l.Tests.Store.Transactions.{postgres-IsPostgres}
use l.Tests.Store
use l.Tests.Cache.{Cache, redis, redis-IsRedis, redis-IsUp}
use l.Tests.Cache
use l.Tests.Tokens.{uuid, jwt-Signs, bcrypt-IsBcrypt, spell_all}
use l.Tests.Users.{
  parsers, libs, empty, ann, res_of_ann, with_ann, ann_registered, ask, told, ann_told,
}

ann_deleted :
    del_user postgres "root" "admin" uuid with_ann.db
    ≡ (ok tt, (del_user postgres "root" "admin" uuid with_ann.db).1)
unfolding del_user l.Exec.◌>>=◌
ann_deleted = refl

del_user-MayDelete_example :
    MayDelete Store.view "root" "admin" uuid with_ann.db
    × ((del_user postgres "root" "admin" uuid with_ann.db).1.tables "users"
        ≡ reject (matches (("id", text uuid) ∷ [])) (with_ann.db.tables "users"))
    × (Store.view.open_txs (del_user postgres "root" "admin" uuid with_ann.db).1 ≡ 0)
del_user-MayDelete_example =
    del_user-MayDelete postgres Store.view unique_columns postgres-IsPostgres "root" "admin" uuid
      with_ann.db ann_deleted

two_users : ◌≢◌ {A = String} "eve" "ann"
two_users h = ground (arith, eq_iff "eve" "ann")

no_admin : ◌≢◌ {A = String} "guest" "admin"
no_admin h = ground (arith, eq_iff "guest" "admin")

attempts_leak_example :
    Store.view.open_txs (
      attempts postgres Store.view unique_columns postgres-IsPostgres "eve" "guest" "ann" 20
        empty.db)
    ≡ 20
attempts_leak_example =
    attempts_leak postgres Store.view unique_columns postgres-IsPostgres "eve" "guest" "ann" 20
      empty.db two_users no_admin (λ s room. (tt, _, refl)) (omega arith)

abbrev leave : DelUserReq
leave = record { role = "guest"; user_id = uuid; del_user_id = "ann"; session_key = uuid }

leave_valid : del_user_req_error leave ≡ none
unfolding del_user_req_error l.Protos.Rules.check_uuid
leave_valid = refl

abbrev nobody : ExtJwtDataReq
nobody = record { token = spell_all "secret" "" "guest" 1000; session_key = uuid }

abbrev nobody_told : ExtJwtDataRes
nobody_told = record { role = "guest"; user_id = ""; token = spell_all "secret" "" "guest" 1000 }

nobody_answered :
    ext_jwt_data libs nobody (Server.del_user libs leave with_ann).1
    ≡ (ok nobody_told, (ext_jwt_data libs nobody (Server.del_user libs leave with_ann).1).1)
unfolding ext_jwt_data Server.del_user l.Exec.◌>>=◌ ext_jwt_data_req_error
    l.Protos.Rules.check_min_runes l.Protos.Rules.check_uuid del_user_req_error l.Libs.on_redis
    l.Libs.on_db
nobody_answered = refl

del_user_ends_session_example : (nobody_told.user_id ≡ "") ⊎ (nobody_told.role ≡ "")
del_user_ends_session_example =
    del_user_ends_session libs Cache.view redis-IsRedis leave with_ann _ nobody
      (Server.del_user libs leave with_ann).1 _ nobody_told leave_valid refl refl refl
      nobody_answered

-- A registration, a lookup of its token, and the deletion of the account.
abbrev ann_leaves : DelUserReq
ann_leaves = record { role = "guest"; user_id = uuid; del_user_id = uuid; session_key = uuid }

abbrev without_ann : World ℕ Cache Db
without_ann = (Server.del_user libs ann_leaves with_ann).1

ann_left : Server.del_user libs ann_leaves with_ann ≡ (ok tt, without_ann)
unfolding Server.del_user l.Exec.◌>>=◌ l.Protos.Rules.check_uuid del_user_req_error l.Libs.on_redis
    l.Libs.on_db
ann_left = refl

Answers-IsWellFormed_example : IsWellFormed (without_ann.db.tables "users")
Answers-IsWellFormed_example =
    Answers-IsWellFormed libs Cache.view Store.view redis-IsRedis postgres-IsPostgres
      bcrypt-IsBcrypt empty without_ann
      (Answers.registers empty with_ann without_ann ann res_of_ann ann_registered (
        Answers.extracts with_ann with_ann without_ann ask told ann_told (
          Answers.deletes with_ann without_ann without_ann ann_leaves ann_left
            (Answers.over without_ann))))
      (record { roles_known = refl; ids_unique = λ s. tt; names_unique = λ s. tt })

ann_valid : reg_req_error parsers ann ≡ none
unfolding reg_req_error l.Protos.Rules.check_email l.Strings.split l.Protos.Rules.check_min_runes
ann_valid = refl

reg_user-taken_example :
    (w' : World ℕ Cache Db) × (sk : String) × (reg_user libs ann with_ann ≡ (
      err (Error.text "UserService.ReqUser: user with this email or username already exists"),
      w',
    ))
    × (w'.db.tables "users" ≡ with_ann.db.tables "users")
    × HasSession Cache.view w'.sessions sk uuid "guest"
reg_user-taken_example =
    reg_user-taken libs Cache.view Store.view redis-IsRedis postgres-IsPostgres bcrypt-IsBcrypt
      redis-IsUp postgres-IsUp (jwt-Signs "secret") postgres-ReportsClash ann with_ann
      (λ k. (_, _, refl)) ann_valid refl
