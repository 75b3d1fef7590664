-- ===== src/Gateway/Users/Session.antt =====
-- The session cookie that regUser and logUser set, as a browser keeps it and sends it back.
use l.Prelude.{
  ℕ, String, Bool, not, ◌&&◌, ◌||◌, List, Option, none, some, ◌≡◌, ◌==◌, ltb, if◌then◌else◌,
}
use l.Prelude.Lists.{lookup}
use l.Gateway.Service.Writer.{Writer, Cookie, Spelling, finished}

-- The cookies that a browser sends with a request to the site that answered with a header, so many
-- seconds after the answer, over HTTPS or not.
abbrev pub Browser : Type 0
Browser = List (String × String) → ℕ → Bool → List (String × String)

-- The only cookie of an answer, with the path "/" and a name and value that can be spelled (RFC 6265): it is
-- sent until its age is reached, and if it is secure over HTTPS alone.
pub record IsBrowser (spelling : Spelling) (Spelled : Cookie → Type 0) (browser : Browser)
    : Type 0 where
  pub sends :
      (header : List (String × String)) (c : Cookie) (age : ℕ) (https : Bool)
      → Spelled c
      → c.path ≡ "/"
      → lookup "Set-Cookie" header ≡ some (spelling.cookie_text c)
      → lookup c.name (browser header age https)
        ≡ (if ltb age c.max_age && (not c.secure || https) then some c.value else none)

-- The session cookie of a request that a browser sends after an answer.
abbrev pub presented : Browser → Writer → ℕ → Bool → Option String
presented browser x age https = lookup "session_key" (browser (finished x).1 age https)

-- A session key for a day, in production over HTTPS alone.
abbrev pub for_a_day : String → String → ℕ → Bool → Option String
for_a_day mode sk age https =
    if ltb age 86400 && (not (mode == "production") || https) then some sk else none
