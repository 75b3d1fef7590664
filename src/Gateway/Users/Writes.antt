-- ===== src/Gateway/Users/Writes.antt =====
-- regUser and logUser of api-gateway/internal/users/handler.go on the ResponseWriter, in the order of
-- their calls, beside the replies of Gateway.Users.
pub mod Deletion
use Prim.Native.String.{◌++◌}
use Prim.Native.String.append
use l.Prelude.{ℕ, String, Bool, List, [], ◌∷◌, Option, none, some, ◌≡◌, refl}
use l.Errors.{Error}
use l.Exec.{Result, ok, err}
use l.Gateway.Http.{Request, Reply}
use l.Gateway.Service.Writer.{
  Writer, Spelling, fresh, http_error, session_cookie, set_session, json, refusal, validate,
  finished,
}
use l.Gateway.Users.{
  Field, Validator, UsersRpc, RegBody, LogBody, reg_fields, log_fields, checked, replied, refuse,
  reg_user, log_user,
}

module _ (spelling : Spelling) (mode : String) where
  -- The header of a reply with a JSON object, with the session cookie if one is set.
  abbrev pub json_header : Option String → List (String × String)
  json_header none = ("Content-Type", "application/json") ∷ []
  json_header (some sk) =
      ("Content-Type", "application/json")
      ∷ ("Set-Cookie", spelling.cookie_text (session_cookie mode sk))
      ∷ []

  abbrev pub error_header : List (String × String)
  error_header =
      ("X-Content-Type-Options", "nosniff") ∷ ("Content-Type", "text/plain; charset=utf-8") ∷ []

  -- The response that the writer ends as is the reply: its status, its header and its body.
  unfoldable pub Shows : Reply → Writer → Type 0
  Shows (Reply.error code text) x = (finished x ≡ (code, error_header)) × (x.body ≡ text ++ "\n")
  Shows (Reply.json code fields key) x =
      (finished x ≡ (code, json_header key)) × (x.body ≡ spelling.json_text fields)
  Shows (Reply.status code) x = (finished x ≡ (code, [])) × (x.body ≡ "")
  Shows Reply.panic x = ⊥

module _ {W : Type 0} (spelling : Spelling) (mode : String) where
  -- The return after an error of Validate.
  abbrev pub unless_refused : Option Error × Writer → (Writer → W → Writer × W) → W → Writer × W
  unless_refused (some e, x) next w = (x, w)
  unless_refused (none, x) next w = next x w

  -- From the check of the body to the call: regUser and logUser differ in the call alone.
  abbrev pub write_checked :
      {A : Type 0}
      → Validator
      → Result A
      → (A → List Field)
      → (A → Writer → W → Writer × W)
      → Writer
      → W
      → Writer × W
  write_checked validator (err e) fields next x w = (http_error e 400 x, w)
  write_checked validator (ok b) fields next x w =
      unless_refused (validate validator (fields b) x) (next b) w

  -- From the call on, for the token and the session key of the answer.
  abbrev pub write_session :
      {A : Type 0} → (A → String) → (A → String) → Result A × W → Writer → Writer × W
  write_session token key (err e, w) x = (http_error e 500 x, w)
  write_session token key (ok res, w) x =
      (json spelling 200 (("token", token res) ∷ []) (set_session spelling mode (key res) x), w)

  -- The writer shows the reply, and the handlers leave the same state.
  abbrev pub Agree : Reply × W → Writer × W → Type 0
  Agree (reply, w) (x, v) = Shows spelling mode reply x × (v ≡ w)

  -- http.Error on a fresh writer shows the error.
  pub refuse-Agree :
      (code : ℕ) (e : Error) (w : W) → Agree (refuse code e w) (http_error e code fresh, w)
  unfolding Shows
  refuse-Agree code e w = ((refl, append.nil _), refl)

  -- The check of a body by Validate, and what follows it.
  pub validated-Agree :
      (refused : Option Error) (next : Reply × W) (write_next : Writer → W → Writer × W) (w : W)
      → Agree next (write_next fresh w)
      → Agree
          (elim refused [ some e ↦ refuse 400 e w | none ↦ next ])
          (unless_refused (refusal refused fresh) write_next w)
  validated-Agree none next write_next w same = same
  validated-Agree (some e) next write_next w same = refuse-Agree 400 e w

  replied-Agree :
      {A : Type 0} (token key : A → String) (answer : Result A × W)
      → Agree
          (replied (λ res. Reply.json 200 (("token", token res) ∷ []) (some (key res))) answer)
          (write_session token key answer fresh)
  unfolding Shows
  replied-Agree token key (err e, w) = ((refl, append.nil _), refl)
  replied-Agree token key (ok res, w) = ((refl, append.nil _), refl)

  checked-Agree :
      {A : Type 0} (validator : Validator) (body : Result A) (fields : A → List Field)
      (next : A → W → Reply × W) (write_next : A → Writer → W → Writer × W) (w : W)
      → ((b : A) (v : W) → Agree (next b v) (write_next b fresh v))
      → Agree
          (checked validator body fields next w)
          (write_checked validator body fields write_next fresh w)
  checked-Agree validator (err e) fields next write_next w same = refuse-Agree 400 e w
  checked-Agree validator (ok b) fields next write_next w same =
      validated-Agree (validator (fields b)) (next b w) (write_next b) w (same b w)

module _ {W : Type 0} (spelling : Spelling) (mode : String) (merged : Bool) (validator : Validator)
    (rpc : UsersRpc W) where
  -- regUser, on the writer
  unfoldable pub write_reg_user : (Request → Result RegBody) → Request → Writer → W → Writer × W
  write_reg_user bind r x w =
      write_checked spelling mode validator (bind r) (reg_fields merged validator rpc)
        (λ b x₁ w₁.
          write_session spelling mode (λ res. res.token) (λ res. res.session_key)
            (rpc.reg_user
              (record { name = b.name; email = b.email; role = b.role; password = b.pswd }) w₁)
            x₁)
        x w

  -- logUser, on the writer
  unfoldable pub write_log_user : (Request → Result LogBody) → Request → Writer → W → Writer × W
  write_log_user bind r x w =
      write_checked spelling mode validator (bind r) (log_fields merged validator rpc)
        (λ b x₁ w₁.
          write_session spelling mode (λ res. res.token) (λ res. res.session_key)
            (rpc.log_user (record { name = b.name; email = b.email; password = b.pswd }) w₁) x₁)
        x w

  -- regUser and logUser send their replies.
  pub write_handlers-Agree :
      (bind_reg : Request → Result RegBody) (bind_log : Request → Result LogBody) (r : Request)
      (w : W)
      → Agree spelling mode
          (reg_user merged validator rpc bind_reg r w)
          (write_reg_user bind_reg r fresh w)
        × Agree spelling mode
            (log_user merged validator rpc bind_log r w)
            (write_log_user bind_log r fresh w)
  unfolding reg_user log_user write_reg_user write_log_user
  write_handlers-Agree bind_reg bind_log r w = (
    checked-Agree spelling mode validator (bind_reg r) _ _ _ w (λ b v.
        replied-Agree spelling mode (λ res. res.token) (λ res. res.session_key)
          (rpc.reg_user
            (record { name = b.name; email = b.email; role = b.role; password = b.pswd }) v)),
    checked-Agree spelling mode validator (bind_log r) _ _ _ w (λ b v.
        replied-Agree spelling mode (λ res. res.token) (λ res. res.session_key)
          (rpc.log_user (record { name = b.name; email = b.email; password = b.pswd }) v)),
  )
