-- ===== src/Sql/Schema.antt =====
-- The UNIQUE and PRIMARY KEY columns of the tables, and those with DEFAULT NOW() (user-service/init.sql, order-service/init.sql).
use l.Prelude.{String, List, [], ◌∷◌, ◌==◌, if◌then◌else◌}

abbrev pub unique_columns : String → List String
unique_columns table =
    if table == "users"
    then "id" ∷ "user_name" ∷ []
    else if table == "orders"
    then "id" ∷ []
    else []

abbrev pub now_columns : String → List String
now_columns table = if table == "orders" then "created_at" ∷ "updated_at" ∷ [] else []
