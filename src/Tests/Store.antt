-- ===== src/Tests/Store.antt =====
-- A database in memory: tables, the transaction that was begun last, and how many earlier ones were
-- left open.
pub mod Queries
pub mod Transactions
use mathlib.Core.List.{◌++◌}
use l.Prelude.{
  ℕ, ◌+◌, String, ◌≡◌, refl, sym, ap, ◌∙◌, Bool, true, false, List, [], ◌∷◌, Option, none, some,
  ◌==◌, ◌||◌, inl, inr, if◌then◌else◌, arith, eq_refl, ne→str_ne,
}
use l.Prelude.Lists.{find, reject, any, Member}
use l.Errors.{Error}
use l.Exec.{Result, ok, err, Exec}
use l.Sql.{Value, Stmt, insert, select, delete, Dest, Postgres}
use l.Sql.Laws.{
  Row, row_of, new_row, project, matches, clash, takes, View, Found, InTx, Inserted, Ended,
  IsPostgres, IsUp, IsTxUp, ReportsClash,
}
use l.Sql.Schema.{unique_columns}

pub record Db : Type 0 where
  pub tables : String → List Row
  pub begun : Option (String → List Row)
  pub left_open : ℕ

abbrev pub put : String → List Row → (String → List Row) → String → List Row
put t rows tables u = if u == t then rows else tables u

abbrev pub fetch : List String → Dest → Option Row → Result (List Value)
fetch columns dest none = err (Error.text "sql: no rows in result set")
fetch columns dest (some row) = ok (project columns row)

abbrev pub query : Stmt → Dest → (String → List Row) → Result (List Value)
query (select columns t conditions) dest tables =
    if takes dest columns
    then fetch columns dest (find (matches conditions) (tables t))
    else err (Error.text "missing destination name")
query _ dest tables = err (Error.text "sql: no rows in result set")

abbrev pub run : Stmt → Exec Db Unit
run (insert t columns values) d =
    if clash (unique_columns t) (row_of columns values) (d.tables t)
    then (err (Error.pq "23505" "duplicate key value"), d)
    else (
      ok tt,
      record d { tables = put t (d.tables t ++ new_row "now" t columns values ∷ []) d.tables },
    )
run _ d = (err (Error.text "not supported"), d)

abbrev pub seen : Db → String → List Row
seen d t = elim d.begun [ none ↦ d.tables t | some s ↦ s t ]

abbrev pub is_some : {A : Type 0} → Option A → Bool
is_some none = false
is_some (some a) = true

abbrev pub one_if : {A : Type 0} → Option A → ℕ
one_if none = 0
one_if (some a) = 1

abbrev pub tx_run : Stmt → Option (String → List Row) → Exec Db Unit
tx_run (delete t conditions) (some s) d =
    (ok tt, record d { begun = some (put t (reject (matches conditions) (s t)) s) })
tx_run _ _ d = (err (Error.text "sql: transaction has already been committed or rolled back"), d)

abbrev pub finish : Option (String → List Row) → Exec Db Unit
finish none d = (err (Error.text "sql: transaction has already been committed or rolled back"), d)
finish (some s) d = (ok tt, record d { tables = s; begun = none })

abbrev pub postgres : Postgres Db Stmt (Unit {0})
postgres = record {
  to_sql = λ st. ok st;
  exec = run;
  query_row = λ q dest d. (query q dest d.tables, d);
  begin =
      λ d. (ok tt, record d { begun = some d.tables; left_open = d.left_open + one_if d.begun });
  tx_get = λ tx q dest d. (query q dest (seen d), d);
  tx_exec = λ tx q d. tx_run q d.begun d;
  commit = λ tx d. finish d.begun d;
  rollback = λ tx d. record d { begun = none };
}

abbrev pub view : View Db (Unit {0})
view = record {
  rows = λ d. d.tables;
  sees = λ d tx. seen d;
  active = λ d tx. is_some d.begun;
  open_txs = λ d. d.left_open + one_if d.begun;
}
