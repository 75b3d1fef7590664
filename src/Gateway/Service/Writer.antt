-- ===== src/Gateway/Service/Writer.antt =====
-- The http.ResponseWriter under `ctx` of api-gateway/internal/service/service.go, and the methods of
-- `ctx` that write to it. What is written to the header after the status is not sent, and a second
-- status is ignored. How a cookie and a JSON object are spelled are parameters.
use Prim.Native.String.{◌++◌}
use l.Prelude.{ℕ, String, List, [], ◌∷◌, Option, none, some, Bool, true, ◌==◌}
use l.Prelude.Lists.{reject}
use l.Errors.{Error, error_text}
use l.Gateway.Users.{Field, Validator}

-- The status and the header that are sent, once they are, and the body so far.
pub record Writer : Type 0 where
  pub header : List (String × String)
  pub sent : Option (ℕ × List (String × String))
  pub body : String

abbrev pub fresh : Writer
fresh = record { header = []; sent = none; body = "" }

-- Header().Set and Header().Add
abbrev pub set_header : String → String → Writer → Writer
set_header key v w = record w { header = (key, v) ∷ reject (λ f. f.0 == key) w.header }

abbrev pub add_header : String → String → Writer → Writer
add_header key v w = record w { header = (key, v) ∷ w.header }

-- What has been sent, or else what is sent now.
abbrev pub sent_or : {A : Type 0} → Option A → A → A
sent_or none a = a
sent_or (some b) a = b

-- The status and the header of the response, once the handler has returned: net/http sends the status
-- 200 if none has been sent.
abbrev pub finished : Writer → ℕ × List (String × String)
finished w = sent_or w.sent (200, w.header)

abbrev pub write_header : ℕ → Writer → Writer
write_header code w = record w { sent = some (sent_or w.sent (code, w.header)) }

-- Write, which sends the status 200 if none has been sent
abbrev pub write : String → Writer → Writer
write text w = record w { sent = some (sent_or w.sent (200, w.header)); body = w.body ++ text }

-- http.Error
abbrev pub http_error : Error → ℕ → Writer → Writer
http_error e code w = write (error_text e ++ "\n") (
    write_header code (
      set_header "X-Content-Type-Options" "nosniff"
        (set_header "Content-Type" "text/plain; charset=utf-8" w)))

pub data SameSite : Type 0 where
  lax : SameSite

-- http.Cookie, with the fields that are set; MaxAge is in seconds
pub record Cookie : Type 0 where
  pub name : String
  pub value : String
  pub path : String
  pub max_age : ℕ
  pub http_only : Bool
  pub secure : Bool
  pub same_site : SameSite

-- The cookie of SetSession, for a value of the variable `mode`.
abbrev pub session_cookie : String → String → Cookie
session_cookie mode key = record {
  name = "session_key";
  value = key;
  path = "/";
  max_age = 86400;
  http_only = true;
  secure = mode == "production";
  same_site = SameSite.lax;
}

-- The spellings: http.Cookie's String and json.Encoder's.
pub record Spelling : Type 0 where
  pub cookie_text : Cookie → String
  pub json_text : List (String × String) → String

module _ (spelling : Spelling) where
  -- SetSession
  abbrev pub set_session : String → String → Writer → Writer
  set_session mode key w =
      add_header "Set-Cookie" (spelling.cookie_text (session_cookie mode key)) w

  -- JSON
  abbrev pub json : ℕ → List (String × String) → Writer → Writer
  json code fields w =
      write (spelling.json_text fields)
        (write_header code (set_header "Content-Type" "application/json" w))

-- Validate, which writes the error itself, for the result of the validator
abbrev pub refusal : Option Error → Writer → Option Error × Writer
refusal (some e) w = (some e, http_error e 400 w)
refusal none w = (none, w)

abbrev pub validate : Validator → List Field → Writer → Option Error × Writer
validate validator fields w = refusal (validator fields) w
