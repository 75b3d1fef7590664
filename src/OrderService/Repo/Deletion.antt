-- ===== src/OrderService/Repo/Deletion.antt =====
-- DelOrder of order-service/internal/db/db.go: which orders it deletes, and that it gives its
-- connection back.
use mathlib.Core.List.{List}
use l.Prelude.{String, ◌≡◌, ◌≢◌, Bool, true, false, not, [], ◌∷◌, arith, ◌==◌, eq_iff, ap, ◌∙◌, sym}
use l.Prelude.Lists.{reject}
use l.Exec.{ok}
use l.Exec.Inversion.{on_bind, on_wrapping, on_lift, on_pure, on_if, lift-eq-ok}
use l.Exec.Moves.{moved}
use l.Sql.{text, delete, Postgres}
use l.Sql.Laws.{Row, View, IsPostgres, matches}
use l.Sql.Transactions.{commit_ends}
use l.OrderService.Repo.{
  owner_fields, get_user_info, check_owner, delete_in_tx, with_rollback, deleted_rows, del_order,
}

-- The row of an order of the user.
abbrev pub owned : String → String → Row → Bool
owned id user_id = matches (("id", text id) ∷ ("user_id", text user_id) ∷ [])

module _ {D Q Tx : Type 0} (pg : Postgres D Q Tx) (v : View D Tx) (unique : String → List String)
    (laws : IsPostgres pg v unique) where
  -- The struct of getUserInfo takes no column, so its query never succeeds.
  get_user_info_fails :
      (id : String) (tx : Tx) (d : D) {owner : String × String} {d' : D}
      → get_user_info pg id tx d ≢ (ok owner, d')
  unfolding get_user_info
  get_user_info_fails id tx d h = on_lift _ _ _ d h λ query built h₁.
      on_wrapping _ _ _ d h₁ λ row d₁ got h₂.
        let (_, taken, _) = laws.tx_get_ok _ _ _ query tx owner_fields d d₁ row built got in
        cc taken

  check_owner_fails :
      (id user_id role : String) (tx : Tx) (d : D) {d' : D}
      → check_owner pg id user_id role tx d ≢ (ok tt, d')
  unfolding check_owner
  check_owner_fails id user_id role tx d h =
      on_wrapping _ _ _ d h λ owner d₁ got _. get_user_info_fails id tx d got

  deleted_by_user :
      (id user_id role : String) (query : Q)
      → not (role == "admin") ≡ true
      → pg.to_sql (delete "orders" (deleted_rows id user_id role)) ≡ ok query
      → pg.to_sql (delete "orders" (("id", text id) ∷ ("user_id", text user_id) ∷ [])) ≡ ok query
  deleted_by_user id user_id role query other h = rw other at h

  not_admin : (role : String) → not (role == "admin") ≡ true → role ≢ "admin"
  not_admin role h = ground (arith, eq_iff role "admin")

  -- A deletion that reaches its end was not asked for by an admin, and what the transaction saw
  -- without the matching rows is committed.
  delete_in_tx-eq-ok :
      (id user_id role : String) (tx : Tx) (d : D) {d' : D}
      → delete_in_tx pg id user_id role tx d ≡ (ok tt, d')
      → (role ≢ "admin")
        × (v.rows d' "orders" ≡ reject (owned id user_id) (v.sees d tx "orders"))
        × (v.active d' tx ≡ false)
  unfolding delete_in_tx
  delete_in_tx-eq-ok id user_id role tx d h = on_bind _ _ d h λ _ d₁ checked h₁.
      on_if (not (role == "admin")) _ _ d checked
        (λ other passed. on_pure _ d passed λ _ same. on_bind _ _ d₁ h₁ λ query d₂ built h₂.
          on_bind _ _ d₂ h₂ λ _ d₃ done committed.
            let (sql, same') = lift-eq-ok _ d₁ built in
            let user_rows = deleted_by_user id user_id role query other sql in
            (
              not_admin role other,
              laws.commit_ok tx d₃ _ committed "orders"
                  ∙ laws.tx_delete_ok "orders" _ query tx d₂ d₃ user_rows done
                  ∙ ap (λ s. reject (owned id user_id) (v.sees s tx "orders")) (sym (same ∙ same')),
              (moved (pg.commit tx) d₃ (commit_ends pg v unique laws tx) committed).not_active,
            ))
        λ admin passed. absurd (check_owner_fails id user_id role tx d passed)

  -- A deletion that succeeds was not asked for by an admin. It leaves the orders without the rows
  -- that have both the id and the user of the request.
  pub del_order-eq-ok :
      (id user_id role : String) (d : D) {d' : D}
      → del_order pg id user_id role d ≡ (ok tt, d')
      → (role ≢ "admin") × (v.rows d' "orders" ≡ reject (owned id user_id) (v.rows d "orders"))
  unfolding del_order with_rollback
  del_order-eq-ok id user_id role d h = on_wrapping _ _ _ d h λ tx d₁ began h₁.
      let b = laws.begin_ok d d₁ tx began in
      let (body, d₂) = delete_in_tx pg id user_id role tx d₁ in
      let finished : delete_in_tx pg id user_id role tx d₁ ≡ (ok tt, d₂) = ap (λ p. (p.0, d₂)) h₁ in
      let (no_admin, rows, _) = delete_in_tx-eq-ok id user_id role tx d₁ finished in
      (
        no_admin,
        ap (λ p. v.rows p.1 "orders") (sym h₁)
            ∙ laws.rollback_rows tx d₂ "orders"
            ∙ rows
            ∙ ap (reject (owned id user_id)) (b.snapshot "orders"),
      )
