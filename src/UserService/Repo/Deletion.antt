-- ===== src/UserService/Repo/Deletion.antt =====
-- DelUser of user-service/internal/db/postgres.go: who may delete whom, and what a deletion leaves in
-- the table.
use mathlib.Core.List.{List}
use mathlib.Core.Path.{subst}
use l.Prelude.{
  ◌+◌, String, ◌≡◌, ◌≢◌, ◌⊎◌, refl, Bool, true, false, not, [], ◌∷◌, arith, ◌==◌, if◌then◌else◌,
  not_str_eq→eq, str_eq→ne, inl, inr, ap, ◌∙◌,
}
use l.Prelude.Lists.{reject}
use l.Exec.{ok, pure}
use l.Exec.Inversion.{
  wrapping-eq-ok, on_bind, on_wrapping, on_mapping, on_guard, on_pure, on_lift, on_last_lift,
}
use l.Exec.Moves.{Moves, moved, moves_rules}
use l.Sql.{Value, text, variables, Postgres}
use l.Sql.Laws.{View, IsPostgres, Found, InTx, Begun, matches}
use l.Sql.Transactions.{InTx-order, tx_get_in, tx_exec_in, commit_ends}
use l.UserService.Repo.{scan_role, get_user_role, check_other, delete_in_tx, del_user}

module _ {D Tx : Type 0} (v : View D Tx) where
  -- An admin may delete a listed user whose role is not admin.
  pub record AdminMay (role del_user_id : String) (d : D) : Type 0 where
    pub is_admin : role ≡ "admin"
    pub target_role : String
    pub not_admin : target_role ≢ "admin"
    pub target :
        Found
          ("role" ∷ [])
          (("id", text del_user_id) ∷ [])
          (v.rows d "users")
          (text target_role ∷ [])

  -- Who may delete: the user, or an admin.
  abbrev pub MayDelete : String → String → String → D → Type 0
  MayDelete user_id role del_user_id d = (user_id ≡ del_user_id) ⊎ AdminMay role del_user_id d

module _ {D Q Tx : Type 0} (pg : Postgres D Q Tx) (v : View D Tx) (unique : String → List String)
    (laws : IsPostgres pg v unique) where
  get_user_role_in : (user_id : String) (tx : Tx) → Moves (InTx v tx) (get_user_role pg user_id tx)
  unfolding get_user_role
  get_user_role_in user_id tx = search (moves_rules, InTx-order, tx_get_in pg v unique laws)

  -- The checks of DelUser end no transaction and commit nothing.
  pub check_other_in :
      (role del_user_id : String) (tx : Tx) → Moves (InTx v tx) (check_other pg role del_user_id tx)
  unfolding check_other
  check_other_in role del_user_id tx = search (moves_rules, InTx-order, get_user_role_in) depth 9

  text-eq_of_scan : (vs : List Value) (role : String) → scan_role vs ≡ ok role → vs ≡ text role ∷ []
  text-eq_of_scan (text r ∷ []) role h = ground arith
  text-eq_of_scan _ role h = cc

  -- The role that is read is that of a user of this id.
  get_user_role-Found :
      (user_id : String) (tx : Tx) (d : D) {d' : D} {role : String}
      → get_user_role pg user_id tx d ≡ (ok role, d')
      → Found ("role" ∷ []) (("id", text user_id) ∷ []) (v.sees d tx "users") (text role ∷ [])
        × ((t : String) → v.sees d' tx t ≡ v.sees d tx t)
  unfolding get_user_role
  get_user_role-Found user_id tx d h = on_lift _ _ _ d h λ query built h₁.
      on_wrapping _ _ _ d h₁ λ row d₂ got h₂. on_last_lift _ _ d₂ h₂ λ scanned same.
        let (found, _, kept) = laws.tx_get_ok _ _ _ query tx variables d d₂ row built got in
        (subst (Found _ _ _) (text-eq_of_scan row _ scanned) found, λ t. rw (← same) (kept t))

  -- The checks pass for an admin alone, and for a target that is listed and no admin.
  pub check_other-eq-ok :
      (role del_user_id : String) (tx : Tx) (d : D) {d' : D}
      → check_other pg role del_user_id tx d ≡ (ok tt, d')
      → (role ≡ "admin")
        × (r : String) × (r ≢ "admin")
        × Found ("role" ∷ []) (("id", text del_user_id) ∷ []) (v.sees d tx "users") (text r ∷ [])
        × ((t : String) → v.sees d' tx t ≡ v.sees d tx t)
  unfolding check_other
  check_other-eq-ok role del_user_id tx d h = on_guard _ _ _ d h λ admin h₁.
      on_mapping _ _ _ d h₁ λ r d₁ got h₂. on_guard _ _ _ d₁ h₂ λ other h₃.
        on_pure _ d₁ h₃ λ _ same.
          let (found, kept) = get_user_role-Found del_user_id tx d got in
          (
            not_str_eq→eq role "admin" admin,
            r,
            str_eq→ne r "admin" other,
            found,
            λ t. rw (← same) (kept t),
          )

  -- The deletion itself: what the transaction saw without the target becomes the table, and the
  -- connection goes back.
  delete_in_tx-eq-ok :
      (del_user_id : String) (tx : Tx) (d : D) {d' : D}
      → delete_in_tx pg del_user_id tx d ≡ (ok tt, d')
      → v.active d tx ≡ true
      → (v.rows d' "users" ≡ reject (matches (("id", text del_user_id) ∷ [])) (v.sees d tx "users"))
        × (v.open_txs d' + 1 ≡ v.open_txs d)
  unfolding delete_in_tx
  delete_in_tx-eq-ok del_user_id tx d h active = on_lift _ _ _ d h λ query built h₁.
      on_wrapping _ _ _ d h₁ λ _ d₁ done h₂.
        let committed = wrapping-eq-ok _ _ d₁ h₂ in
        let in_tx = moved (pg.tx_exec tx query) d (tx_exec_in pg v unique laws tx query) done in
        let ended = moved (pg.commit tx) d₁ (commit_ends pg v unique laws tx) committed in
        (
          laws.commit_ok tx d₁ _ committed "users"
              ∙ laws.tx_delete_ok "users" _ query tx d d₁ built done,
          ended.one_less (in_tx.still_active active) ∙ in_tx.txs_kept,
        )

  -- The test of DelUser on the two ids, after Beginx.
  caller_checked :
      (b : Bool) (user_id role del_user_id : String) (tx : Tx) (d d₁ : D) {d₂ : D}
      → not (user_id == del_user_id) ≡ b
      → Begun v tx d d₁
      → (if b then check_other pg role del_user_id tx else pure tt) d₁ ≡ (ok tt, d₂)
      → MayDelete v user_id role del_user_id d × ((t : String) → v.sees d₂ tx t ≡ v.rows d t)
  caller_checked true user_id role del_user_id tx d d₁ other b h =
      let (admin, r, not_admin, found, kept) = check_other-eq-ok role del_user_id tx d₁ h in
      (
        inr (record {
          is_admin = admin;
          target_role = r;
          not_admin = not_admin;
          target = rw (b.snapshot "users") at found;
        }),
        λ t. kept t ∙ b.snapshot t,
      )
  caller_checked false user_id role del_user_id tx d d₁ same b h =
      on_pure _ d₁ h
        λ _ stay. (inl (not_str_eq→eq user_id del_user_id same), λ t. rw (← stay) (b.snapshot t))

  caller_in :
      (b : Bool) (role del_user_id : String) (tx : Tx)
      → Moves (InTx v tx) (if b then check_other pg role del_user_id tx else pure tt)
  caller_in b role del_user_id tx = search (moves_rules, InTx-order, check_other_in)

  -- A deletion that succeeds was allowed: the user asked for its own, or an admin for one that is
  -- listed and no admin. It leaves the table without the rows of that id, and no transaction open
  -- that was not open before.
  pub del_user-MayDelete :
      (user_id role del_user_id : String) (d : D) {d' : D}
      → del_user pg user_id role del_user_id d ≡ (ok tt, d')
      → MayDelete v user_id role del_user_id d
        × (v.rows d' "users" ≡ reject (matches (("id", text del_user_id) ∷ [])) (v.rows d "users"))
        × (v.open_txs d' ≡ v.open_txs d)
  unfolding del_user
  del_user-MayDelete user_id role del_user_id d h = on_wrapping _ _ _ d h λ tx d₁ began h₁.
      on_bind _ _ d₁ h₁ λ _ d₂ checked h₂.
        let b = laws.begin_ok d d₁ tx began in
        let (may, seen) = caller_checked _ user_id role del_user_id tx d d₁ refl b checked in
        let in_tx = moved _ d₁ (caller_in _ role del_user_id tx) checked in
        let (rows, one_less) =
          delete_in_tx-eq-ok del_user_id tx d₂ h₂ (in_tx.still_active b.is_active) in
        (
          may,
          rows ∙ ap (reject _) (seen "users"),
          omega (arith, one_less, in_tx.txs_kept, b.one_more),
        )
