-- ===== src/Tests/Store/Transactions.antt =====
-- The transactions of the database in memory.
use l.Prelude.{
  ℕ, ◌+◌, String, ◌≡◌, refl, sym, ap, ◌∙◌, true, false, List, Option, none, some, arith, eq_refl,
}
use l.Prelude.Lists.{reject}
use l.Exec.{ok}
use l.Sql.{Value, Stmt, insert, select, delete}
use l.Sql.Laws.{Row, matches, InTx, Ended, IsPostgres, IsTxUp}
use l.Sql.Schema.{unique_columns}
use l.Tests.Store.{Db, put, query, run, seen, is_some, one_if, tx_run, finish, postgres, view}
use l.Tests.Store.Queries.{same_stmt, query_ok, insert_ok}

delete_at :
    (t : String) (conditions : List (String × Value)) (d d' : Db) (o : Option (String → List Row))
    → d.begun ≡ o
    → tx_run (delete t conditions) o d ≡ (ok tt, d')
    → seen d' t ≡ reject (matches conditions) (seen d t)
delete_at t conditions d d' none here h = cc
delete_at t conditions d d' (some s) here h =
    ap (λ e. seen e t) (sym (ap (λ p. p.1) h)) ∙ rw (eq_refl t, here)

unchanged : (d : Db) → InTx view tt d d
unchanged d = record { rows_kept = λ t. refl; txs_kept = refl; still_active = λ h. h }

InTx-tx_run :
    (st : Stmt) (d : Db) (o : Option (String → List Row))
    → d.begun ≡ o
    → InTx view tt d (tx_run st o d).1
InTx-tx_run (delete t conditions) d (some s) here = record {
  rows_kept = λ u. refl;
  txs_kept = rw here;
  still_active = λ h. refl;
}
InTx-tx_run (delete t conditions) d none here = unchanged d
InTx-tx_run (insert t columns values) d o here = unchanged d
InTx-tx_run (select columns t conditions) d o here = unchanged d

finish_ok :
    (d d' : Db) (o : Option (String → List Row))
    → d.begun ≡ o
    → finish o d ≡ (ok tt, d')
    → (t : String) → d'.tables t ≡ seen d t
finish_ok d d' none here h t = cc
finish_ok d d' (some s) here h t = ap (λ e. e.tables t) (sym (ap (λ p. p.1) h)) ∙ rw here

finish_end :
    (d : Db) (o : Option (String → List Row)) → d.begun ≡ o → Ended view tt d (finish o d).1
finish_end d none here = record {
  one_less = λ active. let ended = ap is_some here in cc;
  not_active = rw here;
}
finish_end d (some s) here = record {
  one_less = λ active. let one = ap one_if here in omega arith;
  not_active = refl;
}

rollback_end :
    (d : Db) (o : Option (String → List Row))
    → d.begun ≡ o
    → is_some d.begun ≡ true
    → Ended view tt d (record d { begun = none })
rollback_end d none here active = let ended = ap is_some here in cc
rollback_end d (some s) here active = record {
  one_less = λ active. let one = ap one_if here in omega arith;
  not_active = refl;
}

rollback_open :
    (d : Db) (o : Option (String → List Row))
    → d.begun ≡ o
    → is_some d.begun ≡ false
    → d.left_open + 0 ≡ d.left_open + one_if d.begun
rollback_open d none here ended = rw here
rollback_open d (some s) here ended = let active = ap is_some here in cc

pub postgres-IsPostgres : IsPostgres postgres view unique_columns
postgres-IsPostgres = record {
  insert_ok = λ t columns values q d d' built h.
      insert_ok t columns values d d' (ap (λ st. run st d) (same_stmt _ q built) ∙ h);
  select_ok = λ columns t conditions q dest d d' vs built h.
      let (found, fits) =
        query_ok columns t conditions dest d.tables vs
          (ap (λ st. query st dest d.tables) (same_stmt _ q built) ∙ ap (λ p. p.0) h) in
      (
        found,
        fits,
        record {
          rows_kept = λ u. ap (λ p. p.1.tables u) (sym h);
          txs_kept = ap (λ p. p.1.left_open + one_if p.1.begun) (sym h);
        },
      );
  begin_ok = λ d d' tx h.
      let same = ap (λ p. p.1) h in
      record {
        rows_kept = λ t. ap (λ e. e.tables t) (sym same);
        snapshot = λ t. ap (λ e. seen e t) (sym same);
        one_more = ap (λ e. e.left_open + one_if e.begun) (sym same);
        is_active = ap (λ e. is_some e.begun) (sym same);
      };
  begin_err = λ d d' e h. cc;
  tx_get_ok = λ columns t conditions q tx dest d d' vs built h.
      let (found, fits) =
        query_ok columns t conditions dest (seen d) vs
          (ap (λ st. query st dest (seen d)) (same_stmt _ q built) ∙ ap (λ p. p.0) h) in
      (found, fits, λ u. ap (λ p. seen p.1 u) (sym h));
  tx_get_in = λ q tx dest d. unchanged d;
  tx_delete_ok = λ t conditions q tx d d' built h.
      delete_at t conditions d d' _ refl (ap (λ st. tx_run st d.begun d) (same_stmt _ q built) ∙ h);
  tx_exec_in = λ q tx d. InTx-tx_run q d _ refl;
  commit_ok = λ tx d d' h. finish_ok d d' _ refl h;
  commit_end = λ tx d. finish_end d _ refl;
  rollback_active = λ tx d h. rollback_end d _ refl h;
  rollback_rows = λ tx d t. refl;
  rollback_done = λ tx d h. rollback_open d _ refl h;
}

delete_up :
    (t : String) (conditions : List (String × Value)) (d : Db) (o : Option (String → List Row))
    → d.begun ≡ o
    → is_some d.begun ≡ true
    → (d' : Db) × (tx_run (delete t conditions) o d ≡ (ok tt, d'))
delete_up t conditions d none here active = let ended = ap is_some here in cc
delete_up t conditions d (some s) here active =
    (record d { begun = some (put t (reject (matches conditions) (s t)) s) }, refl)

commit_up :
    (d : Db) (o : Option (String → List Row))
    → d.begun ≡ o
    → is_some d.begun ≡ true
    → (d' : Db) × (finish o d ≡ (ok tt, d'))
commit_up d none here active = let ended = ap is_some here in cc
commit_up d (some s) here active = (record d { tables = s; begun = none }, refl)

pub postgres-IsTxUp : (limit : ℕ) → IsTxUp postgres view unique_columns limit
postgres-IsTxUp limit = record {
  begin_up = λ d room. (tt, _, refl);
  delete_up = λ t conditions q tx d built active.
      let (d', h) = delete_up t conditions d _ refl active in
      (d', sym (ap (λ st. tx_run st d.begun d) (same_stmt _ q built)) ∙ h);
  commit_up = λ tx d active. commit_up d _ refl active;
}
