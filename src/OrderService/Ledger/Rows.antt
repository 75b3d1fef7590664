-- ===== src/OrderService/Ledger/Rows.antt =====
-- The ledger of the rows of the table of orders, and what an insertion and a deletion do to it.
use mathlib.Core.Path.{fun_ext}
use mathlib.Core.List.{◌++◌}
use l.Prelude.{
  String, ◌≡◌, refl, sym, ◌∙◌, Bool, true, false, List, [], ◌∷◌, Option, none, some, ◌==◌, ◌&&◌,
  ◌||◌, arith, eq_refl, Bool-cases, inl, inr, str_eq→eq, str_eq→ne, ne→str_ne,
}
use l.Prelude.Lists.{lookup, find, reject, any}
use l.Sql.{Value, text, int}
use l.Sql.Laws.{Row, has, value_eq}
use l.Sql.Keys.{AtMostOnce, find-concat_hit, find-concat_miss, find-reject_both, find-reject_other}
use l.OrderService.Repo.Deletion.{owned}
use l.OrderService.Ledger.{Ledger, belongs, enter, strike}

abbrev pub with_id : String → Row → Bool
with_id id row = has row "id" (text id)

-- The first order of each id.
abbrev pub ledger_of : List Row → Ledger
ledger_of rows id = find (with_id id) rows

-- No two orders have one id.
abbrev pub HasUniqueIds : List Row → Type 0
HasUniqueIds rows = (id : String) → AtMostOnce (with_id id) rows

-- A column has one text.
same_text :
    (row : Row) (column s t : String)
    → has row column (text s) ≡ true
    → has row column (text t) ≡ true
    → s ≡ t
same_text row column s t h k = one_value (lookup column row) h k
  where
    one_value :
        (o : Option Value)
        → elim o [ none ↦ false | some w ↦ value_eq w (text s) ] ≡ true
        → elim o [ none ↦ false | some w ↦ value_eq w (text t) ] ≡ true
        → s ≡ t
    one_value (some (text r)) a b = sym (str_eq→eq r s a) ∙ str_eq→eq r t b
    one_value (some (int z)) a b = cc
    one_value none a b = cc

-- An order with the text of an id in its column has that id alone.
has_own_id :
    (id k : String) (row : Row) → lookup "id" row ≡ some (text id) → with_id k row ≡ (id == k)
has_own_id id k row here = rw (here, has) refl

pub or_false : (b : Bool) → (b || false) ≡ false → b ≡ false
or_false b h = ground arith

pub both_hold : (a b : Bool) → (a && (b && true)) ≡ true → (a ≡ true) × (b ≡ true)
both_hold a b h = ground arith

pub entered :
    (id : String) (new : Row) (rows : List Row)
    → lookup "id" new ≡ some (text id)
    → any (with_id id) rows ≡ false
    → ledger_of (rows ++ new ∷ []) ≡ enter id new (ledger_of rows)
entered id new rows here free = fun_ext (λ k. elim (Bool-cases (k == id)) [
  | inl same ↦
      let free_here = rw (sym (str_eq→eq k id same)) at free in
      rw same (
        find-concat_hit (with_id k) rows new free_here
          (has_own_id id k new here ∙ rw (str_eq→eq k id same) (eq_refl id)))
  | inr other ↦ rw other (
      find-concat_miss (with_id k) rows new
        (has_own_id id k new here ∙ ne→str_ne id k (λ e. str_eq→ne k id other (sym e))))
])

pub struck :
    (id user_id : String) (rows : List Row)
    → HasUniqueIds rows
    → ledger_of (reject (owned id user_id) rows) ≡ strike id user_id (ledger_of rows)
struck id user_id rows unique = fun_ext (λ k. elim (Bool-cases (k == id)) [
  | inl same ↦
      rw (same, str_eq→eq k id same)
        (find-reject_both (with_id id) (owned id user_id) (belongs user_id) rows
          (λ row. ground arith) (unique id))
  | inr other ↦ rw other (
      find-reject_other (with_id k) (owned id user_id) rows (λ row here.
        elim (Bool-cases (with_id id row)) [
          | inl both ↦ absurd (str_eq→ne k id other (same_text row "id" k id here both))
          | inr apart ↦ rw apart refl
        ]))
])
