-- ===== src/Tests/Losses.antt =====
-- A registration whose answer is lost, at concrete inputs.
use l.Prelude.{ℕ, ◌+◌, ◌≡◌, refl, ap, List, [], ◌∷◌, Option, none, some}
use l.Errors.{Error, Code}
use l.Exec.{Result, err, Exec}
use l.Libs.{World}
use l.Protos.User.{RegRes}
use l.UserService.Server.{reg_user}
use l.UserService.Server.Registration.{Registered}
use l.Gateway.Service.{rpc}
use l.Gateway.Backend.LostAnswer.{conveyed, rpc-lost_answer}
use l.Tests.Cache.{Cache, redis-IsRedis, redis-IsUp}
use l.Tests.Cache
use l.Tests.Store.{Db}
use l.Tests.Store
use l.Tests.Store.Queries.{postgres-IsUp, postgres-ReportsClash}
use l.Tests.Store.Transactions.{postgres-IsPostgres}
use l.Tests.Tokens.{bcrypt-IsBcrypt, jwt-Signs}
use l.Tests.Users.{libs, empty, ann, res_of_ann, with_ann, ann_registered}

abbrev from_error : Error → Option Code
from_error (Error.status code s) = some code
from_error _ = none

abbrev lost : Error
lost = Error.status Code.unavailable "connection reset"

-- The network that loses the answer to a first registration.
abbrev arrives : {A W : Type 0} → List W → Result A × World ℕ Cache Db → Result A × World ℕ Cache Db
arrives [] (r, w) = (err lost, w)
arrives (row ∷ rows) answer = conveyed answer

abbrev dial : (A : Type 0) → Exec (World ℕ Cache Db) A → Exec (World ℕ Cache Db) A
dial A m w = arrives (w.db.tables "users") (m w)

rpc-lost_answer_example :
    (w' : World ℕ Cache Db) × (rpc from_error
        (λ n w. record w { host = w.host + n })
        (dial RegRes (reg_user libs ann))
        empty
      ≡ (
        err (
            Error.status Code.unknown
              "UserService.ReqUser: user with this email or username already exists"),
        w',
      ))
    × Registered libs Cache.view Store.view redis-IsRedis postgres-IsPostgres bcrypt-IsBcrypt ann
        res_of_ann empty with_ann
    × (w'.db.tables "users" ≡ with_ann.db.tables "users")
rpc-lost_answer_example =
    rpc-lost_answer libs Cache.view Store.view redis-IsRedis postgres-IsPostgres bcrypt-IsBcrypt
      redis-IsUp postgres-IsUp (jwt-Signs "secret") postgres-ReportsClash from_error (λ c s. refl)
      (λ n w. record w { host = w.host + n }) (λ n w. refl) dial (λ pswd k. (_, _, refl)) ann
      res_of_ann empty with_ann lost ann_registered (ap (λ p. (err lost, p.1)) ann_registered) refl
      refl
