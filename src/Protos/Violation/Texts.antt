-- ===== src/Protos/Violation/Texts.antt =====
-- What can be read off the text of a validation error.
use Prim.Native.String.{◌++◌}
use Prim.Native.String.append
use Prim.Native.Char.{Char, code}
use text.Mathlib.TextLemmas.{append-nil, append_assoc, append_cancel_left}
use l.Prelude.{
  String, true, false, List, [], ◌∷◌, Option, none, some, ◌≡◌, refl, sym, ap, ◌∙◌, ℕ, eqb, ◌==◌,
}
use l.Prelude.Lists.{find}
use l.Strings.{split}
use l.Strings.Laws.{none_of, split-one}
use l.Errors.{Error, error_text}
use l.Protos.Violation.{
  Violation, Message, violation_text, raised, message_name, errors_of_message, cause_text,
}

-- The text of a violation is that of the error that the checks return.
violation_text-raised :
    (message field reason : String) (cause : Option Error)
    → violation_text message (record { field = field; reason = reason; cause = cause; key = false })
      ≡ error_text
          (raised message (record { field = field; reason = reason; cause = cause; key = false }))
unfolding violation_text error_text
violation_text-raised message field reason none = rw (append.nil, append-nil) refl
violation_text-raised message field reason (some e) = rw append.nil refl

all_messages : List Message
all_messages =
    Message.reg_req ∷ Message.reg_res ∷ Message.log_req ∷ Message.log_res ∷ Message.ext_jwt_data_req
    ∷ Message.ext_jwt_data_res ∷ Message.del_user_req ∷ Message.del_user_res ∷ Message.add_order_req
    ∷ Message.add_order_res ∷ Message.order_info_req ∷ Message.order_info_res
    ∷ Message.del_order_req ∷ Message.del_order_res ∷ []

-- The message of a name.
named : String → Option Message
unfolding all_messages
named s = find (λ m. message_name m == s) all_messages

named-message_name : (m : Message) → named (message_name m) ≡ some m
unfolding named
named-message_name Message.reg_req = refl
named-message_name Message.reg_res = refl
named-message_name Message.log_req = refl
named-message_name Message.log_res = refl
named-message_name Message.ext_jwt_data_req = refl
named-message_name Message.ext_jwt_data_res = refl
named-message_name Message.del_user_req = refl
named-message_name Message.del_user_res = refl
named-message_name Message.add_order_req = refl
named-message_name Message.add_order_res = refl
named-message_name Message.order_info_req = refl
named-message_name Message.order_info_res = refl
named-message_name Message.del_order_req = refl
named-message_name Message.del_order_res = refl

no_dot : (m : Message) → none_of (λ c. eqb c b'.') ("invalid " ++ message_name m) ≡ true
no_dot Message.reg_req = refl
no_dot Message.reg_res = refl
no_dot Message.log_req = refl
no_dot Message.log_res = refl
no_dot Message.ext_jwt_data_req = refl
no_dot Message.ext_jwt_data_res = refl
no_dot Message.del_user_req = refl
no_dot Message.del_user_res = refl
no_dot Message.add_order_req = refl
no_dot Message.add_order_res = refl
no_dot Message.order_info_req = refl
no_dot Message.order_info_res = refl
no_dot Message.del_order_req = refl
no_dot Message.del_order_res = refl

error-of_message :
    (m : Message) (v : Violation)
    → (errors_of_message m).error v ≡ violation_text (message_name m) v
unfolding errors_of_message
error-of_message Message.reg_req v = refl
error-of_message Message.reg_res v = refl
error-of_message Message.log_req v = refl
error-of_message Message.log_res v = refl
error-of_message Message.ext_jwt_data_req v = refl
error-of_message Message.ext_jwt_data_res v = refl
error-of_message Message.del_user_req v = refl
error-of_message Message.del_user_res v = refl
error-of_message Message.add_order_req v = refl
error-of_message Message.add_order_res v = refl
error-of_message Message.order_info_req v = refl
error-of_message Message.order_info_res v = refl
error-of_message Message.del_order_req v = refl
error-of_message Message.del_order_res v = refl

colon_append : (s : String) → ": " ++ s ≡ ":" ++ (" " ++ s)
colon_append s = append_assoc ":" " " s

abbrev after_field : Violation → String
after_field v = " " ++ (v.reason ++ cause_text v.cause)

-- The text up to its first dot, and the text after that up to its first colon.
error-shape :
    (m : Message) (v : Violation)
    → v.key ≡ false
    → (errors_of_message m).error v
      ≡ ("invalid " ++ message_name m) ++ ("." ++ (v.field ++ (":" ++ after_field v)))
unfolding violation_text
error-shape m v no_key =
    error-of_message m v ∙ rw no_key (simp (append_assoc, append.nil, colon_append))

head_or_empty : List String → String
head_or_empty [] = ""
head_or_empty (p ∷ ps) = p

-- A text is read up to a separator in one way.
read_first :
    (sep : ℕ) (s t : String) (c : Char) (rest rest' : String)
    → none_of (λ d. eqb d sep) s ≡ true
    → none_of (λ d. eqb d sep) t ≡ true
    → eqb (code c) sep ≡ true
    → s ++ (String.◌∷◌ c "" ++ rest) ≡ t ++ (String.◌∷◌ c "" ++ rest')
    → s ≡ t
unfolding head_or_empty
read_first sep s t c rest rest' clean clean' here same = ap head_or_empty (
    sym (split-one sep s c rest clean here)
    ∙ ap (split sep) same
    ∙ split-one sep t c rest' clean' here)

-- The text of a violation tells the message and the field: two violations of any messages of the two
-- services, whose fields have no colon, have the same text only if they are of one field of
-- one message.
pub error-inj :
    (m n : Message) (v w : Violation)
    → v.key ≡ false
    → w.key ≡ false
    → none_of (λ c. eqb c b':') v.field ≡ true
    → none_of (λ c. eqb c b':') w.field ≡ true
    → (errors_of_message m).error v ≡ (errors_of_message n).error w
    → (m ≡ n) × (v.field ≡ w.field)
error-inj m n v w no_key no_key' clean clean' same =
    let shapes = sym (error-shape m v no_key) ∙ same ∙ error-shape n w no_key' in
    let prefixes : "invalid " ++ message_name m ≡ "invalid " ++ message_name n =
      read_first b'.' _ _ "." _ _ (no_dot m) (no_dot n) refl shapes in
    let named_alike = append_cancel_left "invalid " (message_name m) (message_name n) prefixes in
    let same_message = sym (named-message_name m) ∙ ap named named_alike ∙ named-message_name n in
    let rests = append_cancel_left ("invalid " ++ message_name n) _ _ (rw prefixes at shapes) in
    (
      cc,
      read_first b':' v.field w.field ":" _ _ clean clean' refl (append_cancel_left "." _ _ rests),
    )
