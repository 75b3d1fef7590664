-- ===== src/Gateway/Http.antt =====
-- Requests and responses of net/http as the middleware and the handlers of api-gateway see them,
-- with the values that a request context carries (api-gateway/internal/contextKeys/ctxkey.go).
-- `W` is the state that a handler acts on.
use l.Prelude.{ℕ, String, Bool, true, false, List, [], ◌∷◌, Option, none, some, ◌==◌}
use l.Prelude.Lists.{lookup, or_empty}

-- ck.UserInfo
pub record UserInfo : Type 0 where
  pub role : String
  pub user_id : String

-- The keys UserKey and ReqKey, and the text "userInfo" that two handlers use in place of UserKey.
pub data Key : Type 0 where
  user_key req_key : Key
  name : String → Key

-- `any` values of a context.
pub data CtxValue : Type 0 where
  text : String → CtxValue
  user : UserInfo → CtxValue

pub record Request : Type 0 where
  pub method : String
  -- r.URL.String() and r.URL.Path
  pub url : String
  pub path : String
  pub remote_addr : String
  -- the first value of each header, under its canonical name
  pub headers : List (String × String)
  pub cookies : List (String × String)
  pub params : List (String × String)
  pub context : List (Key × CtxValue)

-- What a handler writes: a status and a text (http.Error), a status and a JSON object with the
-- session cookie if one is set, a bare status; or it panics.
pub data Reply : Type 0 where
  error : ℕ → String → Reply
  json : ℕ → List (String × String) → Option String → Reply
  status : ℕ → Reply
  panic : Reply

abbrev pub Handler : Type 0 → Type 0
Handler W = Request → W → Reply × W

-- r.Header.Get, "" for a header that is missing
abbrev pub header : Request → String → String
header r h = or_empty (lookup h r.headers)

-- UserKey and ReqKey are pointers to two variables of size zero. The Go specification leaves open
-- whether such pointers are equal, so `merged` says whether they are.
abbrev pub same_key : Bool → Key → Key → Bool
same_key merged Key.user_key Key.user_key = true
same_key merged Key.req_key Key.req_key = true
same_key merged Key.user_key Key.req_key = merged
same_key merged Key.req_key Key.user_key = merged
same_key merged (Key.name s) (Key.name t) = s == t
same_key merged _ _ = false

-- r.Context().Value(key): the value set last under the key.
abbrev pub find_value : Bool → Key → List (Key × CtxValue) → Option CtxValue
find_value merged key [] = none
find_value merged key ((k, v) ∷ rest) = elim (same_key merged k key) [
  | true ↦ some v
  | false ↦ find_value merged key rest
]

abbrev pub value : Bool → Request → Key → Option CtxValue
value merged r key = find_value merged key r.context

-- The type assertions `v, _ := x.(string)` and `v, _ := x.(ck.UserInfo)`: the zero value where the
-- value is missing or has another type.
abbrev pub as_text : Option CtxValue → String
as_text (some (CtxValue.text s)) = s
as_text _ = ""

abbrev pub as_user : Option CtxValue → UserInfo
as_user (some (CtxValue.user u)) = u
as_user _ = record { role = ""; user_id = "" }

-- context.WithValue
abbrev pub with_value : Key → CtxValue → Request → Request
with_value key v r = record r { context = (key, v) ∷ r.context }
