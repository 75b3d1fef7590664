-- ===== src/UserService/Repo/OwnAccount.antt =====
-- DelUser of user-service/internal/db/postgres.go for the caller's own account, while PostgreSQL is up.
use mathlib.Core.List.{List}
use l.Prelude.{ℕ, ◌<◌, String, ◌≡◌, refl, [], ◌∷◌, eq_refl, true, ◌∙◌}
use l.Exec.{ok, pure, ◌>>=◌}
use l.Exec.Inversion.{bind-of-ok, wrapping-of-ok}
use l.Exec.Moves.{moved}
use l.Sql.{text, delete, Postgres}
use l.Sql.Laws.{View, IsPostgres, IsUp, IsTxUp}
use l.Sql.Transactions.{tx_exec_in}
use l.UserService.Repo.{delete_in_tx, del_user}

module _ {D Q Tx : Type 0} (pg : Postgres D Q Tx) (v : View D Tx) (unique : String → List String)
    (laws : IsPostgres pg v unique) (up : IsUp pg v unique) {limit : ℕ}
    (tx_up : IsTxUp pg v unique limit) where
  delete_in_tx_up :
      (del_user_id : String) (tx : Tx) (d : D)
      → v.active d tx ≡ true
      → (d' : D) × (delete_in_tx pg del_user_id tx d ≡ (ok tt, d'))
  unfolding delete_in_tx ◌>>=◌
  delete_in_tx_up del_user_id tx d active =
      let (query, built) = up.to_sql_up (delete "users" (("id", text del_user_id) ∷ [])) in
      let (d₁, done) = tx_up.delete_up "users" _ query tx d built active in
      let still =
        (moved (pg.tx_exec tx query) d (tx_exec_in pg v unique laws tx query) done).still_active
          active in
      let (d₂, committed) = tx_up.commit_up tx d₁ still in (d₂, rw (built, done, committed))

  -- A user can delete its own account while PostgreSQL is up and the pool has a connection.
  pub del_user_up :
      (id role : String) (d : D)
      → v.open_txs d < limit
      → (d' : D) × (del_user pg id role id d ≡ (ok tt, d'))
  unfolding del_user pure
  del_user_up id role d room =
      let (tx, d₁, began) = tx_up.begin_up d room in
      let (d₂, deleted) = delete_in_tx_up id tx d₁ (laws.begin_ok d d₁ tx began).is_active in
      (
        d₂,
        bind-of-ok _ _ d (wrapping-of-ok _ pg.begin d began)
            ∙ rw (eq_refl id) (bind-of-ok _ _ d₁ refl ∙ deleted),
      )
