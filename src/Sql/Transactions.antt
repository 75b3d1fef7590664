-- ===== src/Sql/Transactions.antt =====
-- How the calls of a transaction move the database, in the form that the rules for actions take.
use l.Prelude.{String, List, refl, ◌∙◌}
use l.Exec.Moves.{IsPreorder, Moves}
use l.Sql.{Dest, Postgres}
use l.Sql.Laws.{View, IsPostgres, InTx, Ended}

module _ {D Tx : Type 0} (v : View D Tx) where
  pub InTx-order : (tx : Tx) → IsPreorder (InTx v tx)
  InTx-order tx = record {
    stay = λ s. record { rows_kept = λ t. refl; txs_kept = refl; still_active = λ h. h };
    chain = λ s t u a b. record {
      rows_kept = λ n. b.rows_kept n ∙ a.rows_kept n;
      txs_kept = b.txs_kept ∙ a.txs_kept;
      still_active = λ h. b.still_active (a.still_active h);
    };
  }

module _ {D Q Tx : Type 0} (pg : Postgres D Q Tx) (v : View D Tx) (unique : String → List String)
    (laws : IsPostgres pg v unique) where
  pub tx_exec_in : (tx : Tx) (q : Q) → Moves (InTx v tx) (pg.tx_exec tx q)
  tx_exec_in tx q = record { at = λ s. laws.tx_exec_in q tx s }

  pub commit_ends : (tx : Tx) → Moves (Ended v tx) (pg.commit tx)
  commit_ends tx = record { at = λ s. laws.commit_end tx s }

  pub tx_get_in : (tx : Tx) (q : Q) (dest : Dest) → Moves (InTx v tx) (pg.tx_get tx q dest)
  tx_get_in tx q dest = record { at = λ s. laws.tx_get_in q tx dest s }
