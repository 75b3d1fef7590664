-- ===== src/UserService/Server/OwnAccount.antt =====
-- DelUser of user-service/main.go for the caller's own account, and what ExtJWTData keeps.
use l.Prelude.{ℕ, ◌<◌, String, ◌≡◌, refl, ◌∙◌, true, [], ◌∷◌, Option, none, some}
use l.Prelude.Lists.{contains, reject}
use l.Errors.{Error}
use l.Exec.{ok, Exec, ◌>>=◌}
use l.Exec.Moves.{Moves, IsPreorder, moves_rules, Moves-bind, Moves-require}
use l.Sql.{text}
use l.Sql.Laws.{IsPostgres, IsTxUp, matches}
use l.Sql.Laws
use l.Sql.Schema.{unique_columns}
use l.Redis.{IsRedis}
use l.Redis
use l.Libs.{Libs, World, on_host, on_redis, on_db}
use l.Protos.Rules.{roles, uuid_pattern}
use l.Protos.User.{DelUserReq, ExtJwtDataReq, ext_jwt_data_req_error}
use l.Protos.User.Accepted.{del_user_req_error-of}
use l.UserService.Crypto.{UserInfo, ext_jwt}
use l.UserService.Repo.Deletion.{del_user-MayDelete}
use l.UserService.Repo.OwnAccount.{del_user_up}
use l.UserService.Sessions.{del_session}
use l.UserService.Server.{del_user, ext_jwt_data, answer, renew}

module _ {K S D : Type 0} where
  -- The rows and the transactions of the database are as before.
  abbrev pub SameDb : World K S D → World K S D → Type 0
  SameDb w w' = w'.db ≡ w.db

  pub SameDb-order : IsPreorder SameDb
  SameDb-order = record { stay = λ s. refl; chain = λ s t u p q. q ∙ p }

  pub on_host-SameDb : {A : Type 0} (m : Exec K A) → Moves SameDb (on_host m)
  unfolding on_host
  on_host-SameDb m = record { at = λ w. refl }

  pub on_redis-SameDb : {A : Type 0} (m : Exec S A) → Moves SameDb (on_redis m)
  unfolding on_redis
  on_redis-SameDb m = record { at = λ w. refl }

module _ {K S D Q Tx : Type 0} (x : Libs K S D Q Tx) where
  renew-SameDb : (req : ExtJwtDataReq) (info : UserInfo) → Moves SameDb (renew x req info)
  unfolding renew
  renew-SameDb req info =
      search (moves_rules, SameDb-order, on_host-SameDb, on_redis-SameDb) depth 9

  answer-SameDb :
      (req : ExtJwtDataReq) (info : UserInfo) (e : Option Error)
      → Moves SameDb (answer x req info e)
  unfolding answer
  answer-SameDb req info none = search (moves_rules, SameDb-order, renew-SameDb) depth 9
  answer-SameDb req info (some e) = search (moves_rules, SameDb-order) depth 9

  -- ExtJWTData does not touch the database.
  pub ext_jwt_data-SameDb : (req : ExtJwtDataReq) → Moves SameDb (ext_jwt_data x req)
  unfolding ext_jwt_data
  ext_jwt_data-SameDb req =
      Moves-bind SameDb-order _ _ (Moves-require SameDb-order _ (ext_jwt_data_req_error req)) λ _.
        record {
          at = λ w.
              let ((info, e), k) = ext_jwt x.host x.jwt x.jwt_secret req.token w.host in
              (answer-SameDb req info e).at (record w { host = k });
        }

module _ {K S D Q Tx : Type 0} (x : Libs K S D Q Tx) (sv : Redis.View S) (dv : Laws.View D Tx)
    (redis : IsRedis x.redis sv) (pg : IsPostgres x.pg dv unique_columns)
    (redis_up : Redis.IsUp x.redis sv) (pg_up : Laws.IsUp x.pg dv unique_columns) {limit : ℕ}
    (tx_up : IsTxUp x.pg dv unique_columns limit) where
  -- While Redis and PostgreSQL are up and the pool has a connection, DelUser deletes the caller's own
  -- account and ends its session.
  pub del_user-own :
      (id role sk : String) (w : World K S D)
      → contains roles role ≡ true
      → uuid_pattern id ≡ true
      → uuid_pattern sk ≡ true
      → dv.open_txs w.db < limit
      → (w' : World K S D) × (del_user x
            (record { role = role; user_id = id; del_user_id = id; session_key = sk })
            w
          ≡ (ok tt, w'))
        × (dv.rows w'.db "users" ≡ reject (matches (("id", text id) ∷ [])) (dv.rows w.db "users"))
        × (sv.hash w'.sessions sk ≡ [])
  unfolding del_user del_session on_redis on_db ◌>>=◌
  del_user-own id role sk w good_role good_id good_key room =
      let req : DelUserReq = record {
        role = role;
        user_id = id;
        del_user_id = id;
        session_key = sk;
      } in
      let (s, ended) = redis_up.del_up sk w.sessions in
      let (d, deleted) = del_user_up x.pg dv unique_columns pg pg_up tx_up id role w.db room in
      let (_, rows, _) = del_user-MayDelete x.pg dv unique_columns pg id role id w.db deleted in
      (
        record w { sessions = s; db = d },
        rw (del_user_req_error-of req good_role good_id good_key, ended, deleted),
        rows,
        (redis.del_ok sk w.sessions s ended).0,
      )
