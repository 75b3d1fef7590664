-- ===== src/Sql.antt =====
-- The database as the repositories see it (user-service/internal/db/postgres.go,
-- order-service/internal/db/db.go): the statements that they build with squirrel, and the calls of
-- sqlx that they make, which are parameters. `Q` is what ToSql returns (the query text and its
-- arguments), `Tx` a *sqlx.Tx, `D` the state of the connection pool and the server.
pub mod Laws
pub mod Schema
pub mod Transactions
pub mod Unique
pub mod Keys
use l.Prelude.{String, List, Bool}
use l.Prelude.Int.{ℤ}
use l.Exec.{Result, Exec}

pub data Value : Type 0 where
  text : String → Value
  int : ℤ → Value

-- Insert(table).Columns(…).Values(…); Select(…).From(table).Where(sq.Eq{…})…;
-- Delete(table).Where(sq.Eq{…})…
pub data Stmt : Type 0 where
  insert : String → List String → List Value → Stmt
  select : List String → String → List (String × Value) → Stmt
  delete : String → List (String × Value) → Stmt

-- Where sqlx puts the columns of a row: into plain variables in their order, or into the fields of a
-- struct, each with its `db` tag and whether it is exported.
pub data Dest : Type 0 where
  variables : Dest
  fields : List (String × Bool) → Dest

pub record Postgres (D Q Tx : Type 0) : Type 0 where
  -- ToSql
  pub to_sql : Stmt → Result Q
  -- db.Exec
  pub exec : Q → Exec D Unit
  -- db.QueryRow(…).Scan(…), db.QueryRowx(…).StructScan(…): the values of the selected columns
  pub query_row : Q → Dest → Exec D (List Value)
  -- db.Beginx
  pub begin : Exec D Tx
  -- tx.Get
  pub tx_get : Tx → Q → Dest → Exec D (List Value)
  -- tx.Exec
  pub tx_exec : Tx → Q → Exec D Unit
  -- tx.Commit
  pub commit : Tx → Exec D Unit
  -- tx.Rollback, whose error the source drops
  pub rollback : Tx → D → D
