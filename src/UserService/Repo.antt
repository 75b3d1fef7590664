-- ===== src/UserService/Repo.antt =====
-- user-service/internal/db/postgres.go: the users in PostgreSQL.
pub mod Deletion
pub mod Leak
pub mod Accounts
pub mod OwnAccount
use l.Prelude.{String, not, List, [], ◌∷◌, ◌==◌, if◌then◌else◌}
use l.Errors.{Error}
use l.Errors
use l.Exec.{Result, ok, err, Exec, pure, fail, lift, mapping, wrapping, ◌>>=◌, ◌>>◌}
use l.Sql.{Value, text, insert, select, delete, variables, Postgres}

pub record User : Type 0 where
  pub id : String
  pub role : String
  pub pswd : String

abbrev pub user_columns : List String
user_columns = "id" ∷ "user_name" ∷ "role" ∷ "pswd" ∷ []

abbrev pub user_values : String → String → String → String → List Value
user_values id user_name role pswd = text id ∷ text user_name ∷ text role ∷ text pswd ∷ []

-- Scan(&data.ID, &data.Role, &data.Pswd) on the values of the selected columns.
abbrev pub scan_user : List Value → Result User
scan_user (text id ∷ text role ∷ text pswd ∷ []) = ok (record { id = id; role = role; pswd = pswd })
scan_user _ = err (Errors.text "sql: Scan error")

-- Get into a string.
abbrev pub scan_role : List Value → Result String
scan_role (text role ∷ []) = ok role
scan_role _ = err (Errors.text "sql: Scan error")

module _ {D Q Tx : Type 0} (pg : Postgres D Q Tx) where
  -- AddUser
  unfoldable pub add_user : String → String → String → String → Exec D Unit
  add_user id user_name role pswd = do
    query ←
        wrapping "UserPostgresRepository.AddUser: create query: "
          (lift (pg.to_sql (insert "users" user_columns (user_values id user_name role pswd))))
    wrapping "UserPostgresRepository.AddUser: execute query: " (pg.exec query)

  -- LogUser. The source takes the password and does not use it.
  unfoldable pub log_user : String → String → Exec D User
  log_user user_name pswd = do
    query ← wrapping "UserPostgresRepository.LogUser: create query: " (
        lift (
          pg.to_sql
            (select ("id" ∷ "role" ∷ "pswd" ∷ []) "users" (("user_name", text user_name) ∷ []))))
    row ← wrapping "UserPostgresRepository.LogUser: execute query: " (pg.query_row query variables)
    wrapping "UserPostgresRepository.LogUser: execute query: " (lift (scan_user row))

  -- getUserRole
  unfoldable pub get_user_role : String → Tx → Exec D String
  get_user_role user_id tx = do
    query ←
        wrapping "UserPostgresRepository.getUserRole: create query: "
          (lift (pg.to_sql (select ("role" ∷ []) "users" (("id", text user_id) ∷ []))))
    row ←
        wrapping "UserPostgresRepository.getUserRole: execute query: "
          (pg.tx_get tx query variables)
    wrapping "UserPostgresRepository.getUserRole: execute query: " (lift (scan_role row))

  -- Whether `role` may delete the user of another id: only an admin, and no admin. The error of the
  -- query is dropped for a fixed text.
  unfoldable pub check_other : String → String → Tx → Exec D Unit
  unfolding get_user_role
  check_other role del_user_id tx =
      if not (role == "admin")
      then fail (Errors.text "UserPostgresRepository.DelUser: match id's: User ID's don't match")
      else (do
        del_role ←
            mapping
              (λ _.
                Errors.text
                  "UserPostgresRepository.DelUser: get user role: Couldn't find deleting user's role")
              (get_user_role del_user_id tx)
        (if del_role == "admin"
            then fail (
                Errors.text "UserPostgresRepository.DelUser: check role: Admin cannot delete admin")
            else pure tt))

  -- The statement and the commit that end DelUser.
  unfoldable pub delete_in_tx : String → Tx → Exec D Unit
  delete_in_tx del_user_id tx = do
    query ←
        wrapping "UserPostgresRepository.DelUser: create tx query: "
          (lift (pg.to_sql (delete "users" (("id", text del_user_id) ∷ []))))
    wrapping "UserPostgresRepository.DelUser: execute tx query: " (pg.tx_exec tx query)
    wrapping "UserPostgresRepository.DelUser: commit transaction: " (pg.commit tx)

  -- DelUser. An error after Beginx returns with no Rollback.
  unfoldable pub del_user : String → String → String → Exec D Unit
  unfolding check_other delete_in_tx
  del_user user_id role del_user_id = do
    tx ← wrapping "UserPostgresRepository.DelUser: create transaction: " pg.begin
    (if not (user_id == del_user_id) then check_other role del_user_id tx else pure tt)
    delete_in_tx del_user_id tx
