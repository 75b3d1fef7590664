-- ===== src/Tests/Store/Queries.antt =====
-- The queries and the insertions of the database in memory.
use mathlib.Core.List.{◌++◌, append-nil}
use l.Prelude.{
  ◌+◌, String, ◌≡◌, refl, sym, ap, ◌∙◌, Bool, true, false, List, [], ◌∷◌, Option, none, some, ◌||◌,
  inl, inr, if◌then◌else◌, eq_refl, ne→str_ne, Bool-cases, str_eq→eq, ◌==◌,
}
use l.Prelude.Lists.{find, any, lookup, reject, contains, Member}
use l.Errors.{Error}
use l.Exec.{Result, ok, err}
use l.Sql.{Value, insert, select, Dest}
use l.Sql.Laws.{
  Row, row_of, stamped, new_row, project, matches, clash, has, takes, Found, Inserted, IsUp,
  ReportsClash,
}
use l.Sql.Schema.{unique_columns}
use l.Tests.Store.{Db, put, fetch, query, run, one_if, postgres, view}

pub same_stmt : {A : Type 0} (a b : A) → Path (Result A) (ok a) (ok b) → a ≡ b
same_stmt a b h = ap (λ r. elim r [ ok c ↦ c | err e ↦ a ]) h

found_at :
    (p : Row → Bool) (r : Row) (rows : List Row) (row : Row) (b : Bool)
    → p r ≡ b
    → (find p rows ≡ some row → Member row rows × (p row ≡ true))
    → (if b then some r else find p rows) ≡ some row
    → Member row (r ∷ rows) × (p row ≡ true)
found_at p r rows row true here later h =
    let same : r ≡ row = cc in (inl (sym same), ap p (sym same) ∙ here)
found_at p r rows row false here later h =
    let (listed, matching) = later h in (inr listed, matching)

found_row :
    (p : Row → Bool) (rows : List Row) (row : Row)
    → find p rows ≡ some row
    → Member row rows × (p row ≡ true)
found_row p [] row h = cc
found_row p (r ∷ rows) row h = found_at p r rows row (p r) refl (found_row p rows row) h

listed_row :
    (p : Row → Bool) (r : Row) (rows : List Row) (b : Bool)
    → (any p rows ≡ true → (row : Row) × (find p rows ≡ some row))
    → (b || any p rows) ≡ true
    → (row : Row) × (Path (Option Row) (if b then some r else find p rows) (some row))
listed_row p r rows true later h = (r, refl)
listed_row p r rows false later h = later h

any_row :
    (p : Row → Bool) (rows : List Row) → any p rows ≡ true → (row : Row) × (find p rows ≡ some row)
any_row p [] h = cc
any_row p (r ∷ rows) h = listed_row p r rows (p r) (any_row p rows) h

query_at :
    (columns : List String) (t : String) (conditions : List (String × Value)) (dest : Dest)
    (tables : String → List Row) (vs : List Value) (b : Bool) (o : Option Row)
    → takes dest columns ≡ b
    → find (matches conditions) (tables t) ≡ o
    → (if b then fetch columns dest o else err (Error.text "missing destination name")) ≡ ok vs
    → Found columns conditions (tables t) vs × (takes dest columns ≡ true)
query_at columns t conditions dest tables vs true (some row) fits found h =
    let (listed, matching) = found_row (matches conditions) (tables t) row found in
    (
      record {
        row = row;
        listed = listed;
        matching = matching;
        selected = sym (same_stmt (project columns row) vs h);
      },
      fits,
    )
query_at columns t conditions dest tables vs true none fits found h = cc
query_at columns t conditions dest tables vs false o fits found h = cc

pub query_ok :
    (columns : List String) (t : String) (conditions : List (String × Value)) (dest : Dest)
    (tables : String → List Row) (vs : List Value)
    → query (select columns t conditions) dest tables ≡ ok vs
    → Found columns conditions (tables t) vs × (takes dest columns ≡ true)
query_ok columns t conditions dest tables vs h =
    query_at columns t conditions dest tables vs _ _ refl refl h

query_up :
    (columns : List String) (t : String) (conditions : List (String × Value)) (dest : Dest)
    (tables : String → List Row)
    → takes dest columns ≡ true
    → any (matches conditions) (tables t) ≡ true
    → (vs : List Value) × (query (select columns t conditions) dest tables ≡ ok vs)
query_up columns t conditions dest tables fits there =
    let (row, found) = any_row (matches conditions) (tables t) there in
    (project columns row, rw (fits, found))

-- A column that is not stamped has the value that is listed.
lookup-concat :
    (k : String) (row filled : Row)
    → lookup k filled ≡ none
    → lookup k (row ++ filled) ≡ lookup k row
lookup-concat k [] filled absent = absent
lookup-concat k ((j, v) ∷ row) filled absent = elim (Bool-cases (j == k)) [
  | inl same ↦ rw same refl
  | inr other ↦ rw other (lookup-concat k row filled absent)
]

id-not_stamped :
    (now : String) (listed : String → Bool)
    → lookup "id" (stamped now (reject listed ("created_at" ∷ "updated_at" ∷ []))) ≡ none
id-not_stamped now listed = elim (Bool-cases (listed "created_at")) [
  | inl a ↦ elim (Bool-cases (listed "updated_at")) [
    | inl b ↦ rw (a, b) refl
    | inr b ↦ rw (a, b) refl
  ]
  | inr a ↦ elim (Bool-cases (listed "updated_at")) [
    | inl b ↦ rw (a, b) refl
    | inr b ↦ rw (a, b) refl
  ]
]

-- The columns with DEFAULT NOW() are not unique.
clash-new_row :
    (now t : String) (columns : List String) (values : List Value) (rows : List Row)
    → clash (unique_columns t) (new_row now t columns values) rows
      ≡ clash (unique_columns t) (row_of columns values) rows
clash-new_row now t columns values rows = elim (Bool-cases (t == "orders")) [
  | inl orders ↦ rw (str_eq→eq t "orders" orders) (
      ap (λ o. elim o [ none ↦ false | some v ↦ any (λ row. has row "id" v) rows ] || false)
        (lookup-concat "id" (row_of columns values) _ (id-not_stamped now (contains columns))))
  | inr others ↦ rw (others, append-nil (row_of columns values)) refl
]

insert_at :
    (t : String) (columns : List String) (values : List Value) (d d' : Db) (b : Bool)
    → clash (unique_columns t) (row_of columns values) (d.tables t) ≡ b
    → Path
        (Result (Unit {0}) × Db)
        (if b then (err (Error.pq "23505" "duplicate key value"), d) else (
          ok tt,
          record d { tables = put t (d.tables t ++ new_row "now" t columns values ∷ []) d.tables },
        ))
        (ok tt, d')
    → Inserted view (unique_columns t) t (new_row "now" t columns values) d d'
insert_at t columns values d d' true test h = cc
insert_at t columns values d d' false test h =
    let same = ap (λ p. p.1) h in
    record {
      no_clash = clash-new_row "now" t columns values (d.tables t) ∙ test;
      added = ap (λ s. s.tables t) (sym same) ∙ rw (eq_refl t);
      others_kept = λ u other. ap (λ s. s.tables u) (sym same) ∙ rw (ne→str_ne u t other);
      txs_kept = ap (λ s. s.left_open + one_if s.begun) (sym same);
    }

pub insert_ok :
    (t : String) (columns : List String) (values : List Value) (d d' : Db)
    → run (insert t columns values) d ≡ (ok tt, d')
    → (now : String) × Inserted view (unique_columns t) t (new_row now t columns values) d d'
insert_ok t columns values d d' h = ("now", insert_at t columns values d d' _ refl h)

insert_up :
    (t : String) (columns : List String) (values : List Value) (d : Db)
    → clash (unique_columns t) (row_of columns values) (d.tables t) ≡ false
    → (d' : Db) × (run (insert t columns values) d ≡ (ok tt, d'))
insert_up t columns values d free = (
  record d { tables = put t (d.tables t ++ new_row "now" t columns values ∷ []) d.tables },
  rw free,
)

pub postgres-IsUp : IsUp postgres view unique_columns
postgres-IsUp = record {
  to_sql_up = λ st. (st, refl);
  insert_up = λ t columns values q d built free.
      let (d', h) = insert_up t columns values d free in
      (d', sym (ap (λ st. run st d) (same_stmt _ q built)) ∙ h);
  select_up = λ columns t conditions q dest d built fits there.
      let (vs, h) = query_up columns t conditions dest d.tables fits there in
      (vs, d, ap (λ r. (r, d)) (sym (ap (λ st. query st dest d.tables) (same_stmt _ q built)) ∙ h));
}

pub postgres-ReportsClash : ReportsClash postgres view unique_columns
postgres-ReportsClash = record {
  clash_err = λ t columns values q d built clashes. (
    Error.pq "23505" "duplicate key value",
    d,
    sym (ap (λ st. run st d) (same_stmt _ q built)) ∙ rw clashes refl,
    refl,
    record { rows_kept = λ u. refl; txs_kept = refl },
  );
}
