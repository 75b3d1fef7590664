-- ===== src/UserService/Repo/Accounts.antt =====
-- AddUser and LogUser of user-service/internal/db/postgres.go: a user that was added is found again
-- under its user name, and no other is.
use l.Prelude.{String, ◌≡◌, refl, true, false, List, [], ◌∷◌, arith, ap, ◌∙◌, eq_refl}
use l.Prelude.Lists.{any, reject}
use l.Exec.{ok, ◌>>=◌}
use l.Exec.Inversion.{on_lift, wrapping-eq-ok}
use l.Sql.{Value, text, select, variables, Postgres}
use l.Sql.Laws.{View, IsPostgres, IsUp, Inserted, Row, row_of, matches, has, clash, project}
use l.Sql.Schema.{unique_columns}
use l.Sql.Unique.{any-concat, eq-last_of_Member, reject-concat}
use l.UserService.Repo.{User, user_columns, user_values, scan_user, add_user, log_user}

abbrev pub user_row : String → String → String → String → Row
user_row id user_name role pswd = row_of user_columns (user_values id user_name role pswd)

any_condition :
    (c : String) (w : Value) (rows : List Row)
    → any (matches ((c, w) ∷ [])) rows ≡ any (λ row. has row c w) rows
any_condition c w [] = refl
any_condition c w (row ∷ rows) = ground (arith, any_condition c w rows)

-- No row has the user name of a row that clashes with none.
name_free :
    (id user_name role pswd : String) (rows : List Row)
    → clash (unique_columns "users") (user_row id user_name role pswd) rows ≡ false
    → any (matches (("user_name", text user_name) ∷ [])) rows ≡ false
name_free id user_name role pswd rows h =
    any_condition "user_name" (text user_name) rows ∙ ground arith

-- The same for the id.
id_free :
    (id user_name role pswd : String) (rows : List Row)
    → clash (unique_columns "users") (user_row id user_name role pswd) rows ≡ false
    → any (matches (("id", text id) ∷ [])) rows ≡ false
id_free id user_name role pswd rows h = any_condition "id" (text id) rows ∙ ground arith

matches_new :
    (id user_name role pswd : String)
    → matches (("user_name", text user_name) ∷ []) (user_row id user_name role pswd) ≡ true
matches_new id user_name role pswd = rw (eq_refl user_name)

-- The deletion of a user that was added leaves the rows that there were.
pub reject_added :
    {D Tx : Type 0} (v : View D Tx) (id user_name role pswd : String) (d d₁ : D)
    → Inserted v (unique_columns "users") "users" (user_row id user_name role pswd) d d₁
    → reject (matches (("id", text id) ∷ [])) (v.rows d₁ "users") ≡ v.rows d "users"
reject_added v id user_name role pswd d d₁ added =
    ap (reject (matches (("id", text id) ∷ []))) added.added
    ∙ reject-concat (matches (("id", text id) ∷ [])) (v.rows d "users")
        (user_row id user_name role pswd)
        (id_free id user_name role pswd (v.rows d "users") added.no_clash) (rw (eq_refl id))

module _ {D Q Tx : Type 0} (pg : Postgres D Q Tx) (v : View D Tx)
    (laws : IsPostgres pg v unique_columns) where
  -- AddUser adds one row, where no other has its id or its user name.
  pub add_user-Inserted :
      (id user_name role pswd : String) (d : D) {d' : D}
      → add_user pg id user_name role pswd d ≡ (ok tt, d')
      → Inserted v (unique_columns "users") "users" (user_row id user_name role pswd) d d'
  unfolding add_user
  add_user-Inserted id user_name role pswd d h = on_lift _ _ _ d h λ query built h₁.
      (laws.insert_ok "users" user_columns _ query d _ built (wrapping-eq-ok _ _ d h₁)).1

  log_user_of_row :
      (user_name given : String) (d : D) (query : Q) (vs : List Value) (user : User) {d' : D}
      → pg.to_sql
          (select ("id" ∷ "role" ∷ "pswd" ∷ []) "users" (("user_name", text user_name) ∷ []))
        ≡ ok query
      → pg.query_row query variables d ≡ (ok vs, d')
      → scan_user vs ≡ ok user
      → log_user pg user_name given d ≡ (ok user, d')
  unfolding log_user ◌>>=◌
  log_user_of_row user_name given d query vs user built found scanned = rw (built, found, scanned)

  -- In a table where the user was added last, LogUser finds it under its user name.
  pub log_user-Inserted :
      (up : IsUp pg v unique_columns) (id user_name role pswd given : String) (d d₁ : D)
      → Inserted v (unique_columns "users") "users" (user_row id user_name role pswd) d d₁
      → (d₂ : D) × (log_user pg user_name given d₁
          ≡ (ok (record { id = id; role = role; pswd = pswd }), d₂))
  log_user-Inserted up id user_name role pswd given d d₁ added =
      let (query, built) =
        up.to_sql_up
          (select ("id" ∷ "role" ∷ "pswd" ∷ []) "users" (("user_name", text user_name) ∷ [])) in
      let new = user_row id user_name role pswd in
      let listed =
        any-concat (matches (("user_name", text user_name) ∷ [])) (v.rows d "users") new
          (matches_new id user_name role pswd) in
      let (vs, d₂, found) =
        up.select_up _ "users" (("user_name", text user_name) ∷ []) query variables d₁ built refl
          (rw added.added listed) in
      let (result, _, _) = laws.select_ok _ "users" _ query variables d₁ d₂ vs built found in
      let same_row =
        eq-last_of_Member (matches (("user_name", text user_name) ∷ [])) (v.rows d "users") new
          result.row (name_free id user_name role pswd (v.rows d "users") added.no_clash)
          (rw added.added at result.listed) result.matching in
      let values = result.selected ∙ ap (project ("id" ∷ "role" ∷ "pswd" ∷ [])) same_row in
      (d₂, log_user_of_row user_name given d₁ query vs _ built found (ap scan_user values))
