-- ===== src/UserService/Repo/Leak.antt =====
-- The connections that refused deletions of user-service/internal/db/postgres.go keep: DelUser returns
-- from its checks without Rollback.
use mathlib.Core.List.{List}
use l.Prelude.{ℕ, zero, suc, ◌+◌, ◌≤◌, ◌<◌, String, ◌≡◌, ◌≢◌, arith, ap, ◌∙◌, ne→str_ne}
use l.Errors.{Error}
use l.Exec.{ok, err, fail}
use l.Exec.Inversion.{bind-of-ok, bind-of-err, wrapping-of-ok}
use l.Exec.Moves.{moved}
use l.Sql.{Postgres}
use l.Sql.Laws.{View, IsPostgres}
use l.Startup.{max_open_conns}
use l.UserService.Repo.{check_other, del_user}
use l.UserService.Repo.Deletion.{check_other_in}

module _ {D Q Tx : Type 0} (pg : Postgres D Q Tx) (v : View D Tx) (unique : String → List String)
    (laws : IsPostgres pg v unique) where
  -- A refusal of the checks is the result of DelUser. It leaves the table as it was, and one more
  -- transaction open.
  pub del_user_refused :
      (user_id role del_user_id : String) (d d₁ d₂ : D) (tx : Tx) (e : Error)
      → user_id ≢ del_user_id
      → pg.begin d ≡ (ok tx, d₁)
      → check_other pg role del_user_id tx d₁ ≡ (err e, d₂)
      → (del_user pg user_id role del_user_id d ≡ (err e, d₂))
        × ((t : String) → v.rows d₂ t ≡ v.rows d t)
        × (v.open_txs d₂ ≡ v.open_txs d + 1)
  unfolding del_user
  del_user_refused user_id role del_user_id d d₁ d₂ tx e other began refused =
      let b = laws.begin_ok d d₁ tx began in
      let in_tx = moved _ d₁ (check_other_in pg v unique laws role del_user_id tx) refused in
      (
        rw (ne→str_ne user_id del_user_id other) (
            bind-of-ok _ _ d (wrapping-of-ok _ pg.begin d began)
            ∙ bind-of-err (check_other pg role del_user_id tx) _ d₁ refused),
        λ t. in_tx.rows_kept t ∙ b.rows_kept t,
        in_tx.txs_kept ∙ b.one_more,
      )

  -- The same request of a user who is no admin, sent n times.
  unfoldable pub attempts : String → String → String → ℕ → D → D
  attempts user_id role del_user_id zero d = d
  attempts user_id role del_user_id (suc n) d =
      attempts user_id role del_user_id n (del_user pg user_id role del_user_id d).1

  refused_without_admin :
      (role del_user_id : String) (tx : Tx) (d : D)
      → role ≢ "admin"
      → check_other pg role del_user_id tx d
        ≡ (err (Error.text "UserPostgresRepository.DelUser: match id's: User ID's don't match"), d)
  unfolding check_other fail
  refused_without_admin role del_user_id tx d no_admin = rw (ne→str_ne role "admin" no_admin)

  one_attempt :
      (user_id role del_user_id : String) (d : D)
      → user_id ≢ del_user_id
      → role ≢ "admin"
      → ((tx : Tx) × (d₁ : D) × (pg.begin d ≡ (ok tx, d₁)))
      → v.open_txs (del_user pg user_id role del_user_id d).1 ≡ v.open_txs d + 1
  one_attempt user_id role del_user_id d other no_admin (tx, d₁, began) =
      let (result, _, leaked) =
        del_user_refused user_id role del_user_id d d₁ d₁ tx _ other began
          (refused_without_admin role del_user_id tx d₁ no_admin) in
      ap (λ p. v.open_txs p.1) result ∙ leaked

  -- While the pool has a connection for each of them, n deletions of another user by one who is no
  -- admin leave n more transactions open. So 20 of them use up the pool of 20 connections.
  pub attempts_leak :
      (user_id role del_user_id : String) (n : ℕ) (d : D)
      → user_id ≢ del_user_id
      → role ≢ "admin"
      → ((s : D)
          → v.open_txs s < max_open_conns
          → (tx : Tx) × (s' : D) × (pg.begin s ≡ (ok tx, s')))
      → v.open_txs d + n ≤ max_open_conns
      → v.open_txs (attempts user_id role del_user_id n d) ≡ v.open_txs d + n
  unfolding attempts
  attempts_leak user_id role del_user_id zero d other no_admin up room = omega arith
  attempts_leak user_id role del_user_id (suc n) d other no_admin up room =
      let one = one_attempt user_id role del_user_id d other no_admin (up d (omega arith)) in
      omega (
        arith,
        one,
        attempts_leak user_id role del_user_id n (del_user pg user_id role del_user_id d).1 other
            no_admin up (omega (arith, one)),
      )
