-- ===== src/OrderService/Repo/Connections.antt =====
-- DelOrder of order-service/internal/db/db.go gives its connection back, whatever happens.
use mathlib.Core.List.{List}
use l.Prelude.{◌+◌, String, ◌≡◌, ◌⊎◌, inl, inr, refl, ◌∙◌, Bool, true, false, arith, if◌then◌else◌}
use l.Exec.{Result, ok, err, Exec, pure, lift, wrap, settle, ◌>>=◌}
use l.Exec.Moves.{Moves, moves_rules}
use l.Sql.{Postgres}
use l.Sql.Laws.{View, IsPostgres, InTx, Begun}
use l.Sql.Transactions.{InTx-order, tx_get_in, tx_exec_in}
use l.OrderService.Repo.{get_user_info, check_owner, delete_in_tx, with_rollback, del_order}

module _ {D Q Tx : Type 0} (pg : Postgres D Q Tx) (v : View D Tx) (unique : String → List String)
    (laws : IsPostgres pg v unique) where
  -- An active transaction either goes on, or has ended and holds no connection.
  Settles : Tx → D → D → Type 0
  Settles tx d d' =
      v.active d tx ≡ true
      → ((v.active d' tx ≡ true) × (v.open_txs d' ≡ v.open_txs d))
        ⊎ ((v.active d' tx ≡ false) × (v.open_txs d' + 1 ≡ v.open_txs d))

  Settles-InTx : (tx : Tx) (d d' : D) → InTx v tx d d' → Settles tx d d'
  unfolding Settles
  Settles-InTx tx d d' h active = inl (h.still_active active, h.txs_kept)

  settled :
      {A : Type 0} (tx : Tx) (s t : D) (r : Result A) (f : A → Exec D (Unit {0}))
      → InTx v tx s t
      → ((a : A) → Moves (Settles tx) (f a))
      → Settles tx s (settle r f t).1
  unfolding Settles
  settled tx s t (ok a) f before rest active = elim ((rest a).at t (before.still_active active)) [
    | inl (on, same) ↦ inl (on, same ∙ before.txs_kept)
    | inr (off, less) ↦ inr (off, less ∙ before.txs_kept)
  ]
  settled tx s t (err e) f before rest active = inl (before.still_active active, before.txs_kept)

  Settles-bind :
      {A : Type 0} (tx : Tx) (m : Exec D A) (f : A → Exec D (Unit {0}))
      → Moves (InTx v tx) m
      → ((a : A) → Moves (Settles tx) (f a))
      → Moves (Settles tx) (m >>= f)
  unfolding ◌>>=◌
  Settles-bind tx m f first rest = record {
    at = λ s. let (r, t) = m s in settled tx s t r f (first.at s) rest;
  }

  Settles-commit : (tx : Tx) → Moves (Settles tx) (pg.commit tx)
  unfolding Settles
  Settles-commit tx = record {
    at = λ s active.
        let ended = laws.commit_end tx s in inr (ended.not_active, ended.one_less active);
  }

  get_user_info-InTx : (id : String) (tx : Tx) → Moves (InTx v tx) (get_user_info pg id tx)
  unfolding get_user_info
  get_user_info-InTx id tx = search (moves_rules, InTx-order, tx_get_in pg v unique laws)

  check_owner-InTx :
      (id user_id role : String) (tx : Tx) → Moves (InTx v tx) (check_owner pg id user_id role tx)
  unfolding check_owner
  check_owner-InTx id user_id role tx = search (moves_rules, InTx-order, get_user_info-InTx) depth 9

  guard-InTx :
      (b : Bool) (id user_id role : String) (tx : Tx)
      → Moves (InTx v tx) (if b then pure tt else check_owner pg id user_id role tx)
  guard-InTx b id user_id role tx = search (moves_rules, InTx-order, check_owner-InTx)

  lift-InTx : (tx : Tx) (r : Result Q) → Moves (InTx v tx) (lift r)
  lift-InTx tx r = search (moves_rules, InTx-order)

  delete_in_tx-Settles :
      (id user_id role : String) (tx : Tx) → Moves (Settles tx) (delete_in_tx pg id user_id role tx)
  unfolding delete_in_tx
  delete_in_tx-Settles id user_id role tx =
      Settles-bind tx _ _ (guard-InTx _ id user_id role tx) λ _.
        Settles-bind tx _ _ (lift-InTx tx _)
          λ query. Settles-bind tx _ _ (tx_exec_in pg v unique laws tx query) λ _. Settles-commit tx

  rolled_back :
      (tx : Tx) (d d₁ d₂ : D)
      → Begun v tx d d₁
      → Settles tx d₁ d₂
      → v.open_txs (pg.rollback tx d₂) ≡ v.open_txs d
  unfolding Settles
  rolled_back tx d d₁ d₂ begun ends =
      let more = begun.one_more in
      elim (ends begun.is_active) [
        | inl (on, same) ↦ (let less = (laws.rollback_active tx d₂ on).one_less on in omega arith)
        | inr (off, less) ↦ (let kept = laws.rollback_done tx d₂ off in omega arith)
      ]

  begun_at :
      (id user_id role prefix : String) (d : D) (p : Result Tx × D)
      → pg.begin d ≡ p
      → v.open_txs
          (settle
            (wrap prefix p.0)
            (λ tx. with_rollback pg tx (delete_in_tx pg id user_id role tx))
            p.1).1
        ≡ v.open_txs d
  unfolding with_rollback
  begun_at id user_id role prefix d (ok tx, d₁) began =
      rolled_back tx d d₁ _ (laws.begin_ok d d₁ tx began)
        ((delete_in_tx-Settles id user_id role tx).at d₁)
  begun_at id user_id role prefix d (err e, d₁) failed = (laws.begin_err d d₁ e failed).txs_kept

  -- After DelOrder, refused or not, as many transactions are open as before.
  pub del_order-open_txs :
      (id user_id role : String) (d : D)
      → v.open_txs (del_order pg id user_id role d).1 ≡ v.open_txs d
  unfolding del_order ◌>>=◌
  del_order-open_txs id user_id role d = begun_at id user_id role _ d (pg.begin d) refl
