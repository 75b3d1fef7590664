-- ===== src/OrderService/Ledger.antt =====
-- What order-service/main.go promises of its orders, apart from tables and columns: a ledger that has
-- at most one order for each id, and the three calls with their answers.
pub mod Rows
pub mod Refinement
pub mod Contents
use l.Prelude.{String, ◌≡◌, ◌≢◌, Bool, true, List, [], ◌∷◌, Option, none, some, ◌==◌, if◌then◌else◌}
use l.Exec.{ok}
use l.Sql.{text}
use l.Sql.Laws.{Row, has, project}
use l.Sql.Keys.{unless}
use l.Protos.Order.{AddOrderReq, AddOrderRes, OrderInfoReq, OrderInfoRes, DelOrderReq}
use l.OrderService.Repo.{Order, info_columns, scan_order}
use l.OrderService.Repo.Statements.{order_row}
use l.OrderService.Server.{new_order, info_of}

-- The order of each id, with its columns.
abbrev pub Ledger : Type 0
Ledger = String → Option Row

pub data Call : Type 0 where
  add : AddOrderReq → Call
  info : OrderInfoReq → Call
  del : DelOrderReq → Call

pub data Answer : Type 0 where
  added : AddOrderRes → Answer
  shown : OrderInfoRes → Answer
  deleted : Answer

-- The order belongs to the user.
abbrev pub belongs : String → Row → Bool
belongs user_id row = has row "user_id" (text user_id)

abbrev pub enter : String → Row → Ledger → Ledger
enter id row ledger k = if k == id then some row else ledger k

-- The order of the id goes if it belongs to the user.
abbrev pub strike : String → String → Ledger → Ledger
strike id user_id ledger k = if k == id then unless (belongs user_id) (ledger k) else ledger k

-- What a call that is answered does to the ledger.
abbrev pub Does : Ledger → Call → Answer → Ledger → Type 0
Does ledger (Call.add req) (Answer.added res) ledger' =
    (now : String) × (ledger res.id ≡ none)
    × (ledger' ≡ enter res.id (order_row now (new_order res.id req)) ledger)
Does ledger (Call.info req) (Answer.shown res) ledger' =
    (row : Row) × (order : Order) × (ledger req.id ≡ some row)
    × (belongs req.user_id row ≡ true)
    × (scan_order (project info_columns row) ≡ ok order)
    × (res ≡ info_of order)
    × (ledger' ≡ ledger)
Does ledger (Call.del req) Answer.deleted ledger' =
    (req.role ≢ "admin") × (ledger' ≡ strike req.id req.user_id ledger)
Does _ _ _ _ = ⊥

-- The calls of a log, one after the other.
abbrev pub Replay : Ledger → List (Call × Answer) → Ledger → Type 0
Replay ledger [] ledger' = ledger' ≡ ledger
Replay ledger ((call, answer) ∷ log) ledger' =
    (next : Ledger) × Does ledger call answer next × Replay next log ledger'
