-- ===== src/Sql/Laws.antt =====
-- What the proofs assume of PostgreSQL and sqlx, in documented terms: the rows of a table, the rows
-- that a transaction sees, and the number of transactions that hold a connection. The unique columns
-- of a table are those of the init.sql files, and so are the columns that are filled with the time.
use mathlib.Core.List.{◌++◌}
use l.Prelude.{
  ℕ, ◌+◌, ◌<◌, String, ◌≡◌, ◌≢◌, Bool, true, false, ◌&&◌, ◌||◌, List, [], ◌∷◌, none, some, ◌==◌,
}
use l.Prelude.Int.{ℤ, pos, negsuc}
use l.Prelude.{eqb}
use l.Prelude.Lists.{lookup, any, reject, contains, Member}
use l.Errors.{Error, as_pq}
use l.Exec.{ok, err}
use l.Sql.Schema.{now_columns}
use l.Sql.{Value, text, int, Stmt, insert, select, delete, Dest, variables, fields, Postgres}

abbrev pub Row : Type 0
Row = List (String × Value)

abbrev pub int_eq : ℤ → ℤ → Bool
int_eq (pos a) (pos b) = eqb a b
int_eq (negsuc a) (negsuc b) = eqb a b
int_eq _ _ = false

abbrev pub value_eq : Value → Value → Bool
value_eq (text s) (text t) = s == t
value_eq (int a) (int b) = int_eq a b
value_eq _ _ = false

-- The column of the row has this value.
abbrev pub has : Row → String → Value → Bool
has row column v = elim (lookup column row) [ none ↦ false | some w ↦ value_eq w v ]

-- The condition of the Where clauses, which are joined by AND.
abbrev pub matches : List (String × Value) → Row → Bool
matches [] row = true
matches ((column, v) ∷ conditions) row = has row column v && matches conditions row

abbrev pub row_of : List String → List Value → Row
row_of (c ∷ cs) (v ∷ vs) = (c, v) ∷ row_of cs vs
row_of _ _ = []

-- The columns with DEFAULT NOW() that an insertion does not list get the time of the transaction.
abbrev pub stamped : String → List String → Row
stamped now [] = []
stamped now (c ∷ cs) = (c, text now) ∷ stamped now cs

-- The row that an insertion makes of the columns and values that it lists, at a time.
abbrev pub new_row : String → String → List String → List Value → Row
new_row now t columns values =
    row_of columns values ++ stamped now (reject (contains columns) (now_columns t))

-- The selected columns of a row. The tables of init.sql have each column that the source selects, so
-- that a row which lacks one stands for no row of theirs.
abbrev pub project : List String → Row → List Value
project [] row = []
project (c ∷ cs) row = elim (lookup c row) [ none ↦ project cs row | some v ↦ v ∷ project cs row ]

-- Some row has the value of `new` in the column.
abbrev pub taken : Row → List Row → String → Bool
taken new rows column = elim (lookup column new) [
  | none ↦ false
  | some v ↦ any (λ row. has row column v) rows
]

-- The insertion would break a UNIQUE or PRIMARY KEY constraint.
abbrev pub clash : List String → Row → List Row → Bool
clash unique new rows = any (taken new rows) unique

-- A column has an exported field of its tag.
abbrev pub has_field : List (String × Bool) → String → Bool
has_field [] column = false
has_field ((tag, exported) ∷ fs) column = (exported && tag == column) || has_field fs column

-- sqlx fills exported fields alone, and returns an error for a column that has none.
abbrev pub takes : Dest → List String → Bool
takes variables columns = true
takes (fields fs) [] = true
takes (fields fs) (c ∷ cs) = has_field fs c && takes (fields fs) cs

-- What can be said of a state: the committed rows of a table, the rows of a table inside a
-- transaction, whether a transaction is neither committed nor rolled back, and how many are so.
pub record View (D Tx : Type 0) : Type 0 where
  pub rows : D → String → List Row
  pub sees : D → Tx → String → List Row
  pub active : D → Tx → Bool
  pub open_txs : D → ℕ

-- The result of a query is the selected columns of one of the rows that match.
pub record Found (columns : List String) (conditions : List (String × Value)) (rows : List Row)
    (result : List Value) : Type 0 where
  pub row : Row
  pub listed : Member row rows
  pub matching : matches conditions row ≡ true
  pub selected : result ≡ project columns row

module _ {D Tx : Type 0} (v : View D Tx) where
  -- Nothing is committed, and no transaction begins or ends.
  pub record Quiet (d d' : D) : Type 0 where
    pub rows_kept : (t : String) → v.rows d' t ≡ v.rows d t
    pub txs_kept : v.open_txs d' ≡ v.open_txs d

  -- The transaction goes on: nothing is committed, and it still holds its connection.
  pub record InTx (tx : Tx) (d d' : D) : Type 0 where
    pub rows_kept : (t : String) → v.rows d' t ≡ v.rows d t
    pub txs_kept : v.open_txs d' ≡ v.open_txs d
    pub still_active : v.active d tx ≡ true → v.active d' tx ≡ true

  pub record Inserted (unique : List String) (t : String) (new : Row) (d d' : D) : Type 0 where
    pub no_clash : clash unique new (v.rows d t) ≡ false
    pub added : v.rows d' t ≡ v.rows d t ++ new ∷ []
    pub others_kept : (u : String) → u ≢ t → v.rows d' u ≡ v.rows d u
    pub txs_kept : v.open_txs d' ≡ v.open_txs d

  pub record Begun (tx : Tx) (d d' : D) : Type 0 where
    pub rows_kept : (t : String) → v.rows d' t ≡ v.rows d t
    pub snapshot : (t : String) → v.sees d' tx t ≡ v.rows d t
    pub one_more : v.open_txs d' ≡ v.open_txs d + 1
    pub is_active : v.active d' tx ≡ true

  -- A transaction that was active has ended.
  pub record Ended (tx : Tx) (d d' : D) : Type 0 where
    pub one_less : v.active d tx ≡ true → v.open_txs d' + 1 ≡ v.open_txs d
    pub not_active : v.active d' tx ≡ false

module _ {D Q Tx : Type 0} (pg : Postgres D Q Tx) (v : View D Tx)
    (unique : String → List String) where
  -- A call that fails may still have had its effect on the server; the laws claim nothing then, but
  -- that a transaction keeps its connection until Commit or Rollback.
  pub record IsPostgres : Type 0 where
    pub insert_ok :
        (t : String) (columns : List String) (values : List Value) (q : Q) (d d' : D)
        → pg.to_sql (insert t columns values) ≡ ok q
        → pg.exec q d ≡ (ok tt, d')
        → (now : String) × Inserted v (unique t) t (new_row now t columns values) d d'
    pub select_ok :
        (columns : List String) (t : String) (conditions : List (String × Value)) (q : Q)
        (dest : Dest) (d d' : D) (vs : List Value)
        → pg.to_sql (select columns t conditions) ≡ ok q
        → pg.query_row q dest d ≡ (ok vs, d')
        → Found columns conditions (v.rows d t) vs × (takes dest columns ≡ true) × Quiet v d d'
    pub begin_ok : (d d' : D) (tx : Tx) → pg.begin d ≡ (ok tx, d') → Begun v tx d d'
    pub begin_err : (d d' : D) (e : Error) → pg.begin d ≡ (err e, d') → Quiet v d d'
    pub tx_get_ok :
        (columns : List String) (t : String) (conditions : List (String × Value)) (q : Q) (tx : Tx)
        (dest : Dest) (d d' : D) (vs : List Value)
        → pg.to_sql (select columns t conditions) ≡ ok q
        → pg.tx_get tx q dest d ≡ (ok vs, d')
        → Found columns conditions (v.sees d tx t) vs
          × (takes dest columns ≡ true)
          × ((u : String) → v.sees d' tx u ≡ v.sees d tx u)
    pub tx_get_in : (q : Q) (tx : Tx) (dest : Dest) (d : D) → InTx v tx d (pg.tx_get tx q dest d).1
    pub tx_delete_ok :
        (t : String) (conditions : List (String × Value)) (q : Q) (tx : Tx) (d d' : D)
        → pg.to_sql (delete t conditions) ≡ ok q
        → pg.tx_exec tx q d ≡ (ok tt, d')
        → v.sees d' tx t ≡ reject (matches conditions) (v.sees d tx t)
    pub tx_exec_in : (q : Q) (tx : Tx) (d : D) → InTx v tx d (pg.tx_exec tx q d).1
    pub commit_ok :
        (tx : Tx) (d d' : D)
        → pg.commit tx d ≡ (ok tt, d')
        → (t : String) → v.rows d' t ≡ v.sees d tx t
    pub commit_end : (tx : Tx) (d : D) → Ended v tx d (pg.commit tx d).1
    -- Rollback of an ended transaction returns ErrTxDone and does nothing.
    pub rollback_active : (tx : Tx) (d : D) → v.active d tx ≡ true → Ended v tx d (pg.rollback tx d)
    pub rollback_rows : (tx : Tx) (d : D) (t : String) → v.rows (pg.rollback tx d) t ≡ v.rows d t
    pub rollback_done :
        (tx : Tx) (d : D) → v.active d tx ≡ false → v.open_txs (pg.rollback tx d) ≡ v.open_txs d

  -- An insertion that would break a constraint is refused with the error unique_violation.
  pub record ReportsClash : Type 0 where
    pub clash_err :
        (t : String) (columns : List String) (values : List Value) (q : Q) (d : D)
        → pg.to_sql (insert t columns values) ≡ ok q
        → clash (unique t) (row_of columns values) (v.rows d t) ≡ true
        → (e : Error) × (d' : D) × (pg.exec q d ≡ (err e, d'))
          × (as_pq e ≡ some "23505")
          × Quiet v d d'

  -- The server is up and every call that can succeed does.
  pub record IsUp : Type 0 where
    pub to_sql_up : (st : Stmt) → (q : Q) × (pg.to_sql st ≡ ok q)
    pub insert_up :
        (t : String) (columns : List String) (values : List Value) (q : Q) (d : D)
        → pg.to_sql (insert t columns values) ≡ ok q
        → clash (unique t) (row_of columns values) (v.rows d t) ≡ false
        → (d' : D) × (pg.exec q d ≡ (ok tt, d'))
    pub select_up :
        (columns : List String) (t : String) (conditions : List (String × Value)) (q : Q)
        (dest : Dest) (d : D)
        → pg.to_sql (select columns t conditions) ≡ ok q
        → takes dest columns ≡ true
        → any (matches conditions) (v.rows d t) ≡ true
        → (vs : List Value) × (d' : D) × (pg.query_row q dest d ≡ (ok vs, d'))

  -- The same for transactions, while the pool has a connection: fewer than `limit` are open.
  pub record IsTxUp (limit : ℕ) : Type 0 where
    pub begin_up :
        (d : D) → v.open_txs d < limit → (tx : Tx) × (d' : D) × (pg.begin d ≡ (ok tx, d'))
    pub delete_up :
        (t : String) (conditions : List (String × Value)) (q : Q) (tx : Tx) (d : D)
        → pg.to_sql (delete t conditions) ≡ ok q
        → v.active d tx ≡ true
        → (d' : D) × (pg.tx_exec tx q d ≡ (ok tt, d'))
    pub commit_up :
        (tx : Tx) (d : D) → v.active d tx ≡ true → (d' : D) × (pg.commit tx d ≡ (ok tt, d'))
