-- ===== src/Protos/Order/Accepted.antt =====
-- What a request of the order service satisfies once its `Validate` has passed
-- (protos/generated-order/order-service.pb.validate.go).
use l.Prelude.{String, ◌≡◌, ◌≢◌, refl, true, Bool, false, not, none, some, str_eq→ne, arith}
use l.Prelude.Int.{is_positive}
use l.Prelude.Lists.{contains}
use l.Errors.{invalid_because}
use l.Exec.{Result, ok, err}
use l.Protos.Address.{Parsers}
use l.Protos.Rules.{roles, order_types, uuid_pattern, check_uri}
use l.Protos.Rules.Verdicts.{run_checks-AllPass, field_check-none, check_uuid-none}
use l.Protos.Order.{AddOrderReq, add_order_req_checks, add_order_req_error, validate_add_order_req}

-- A text that url.Parse reads, with a scheme.
abbrev pub IsAbsolute : Parsers → String → Type 0
IsAbsolute p value = (scheme : String) × (p.parse_url value ≡ ok scheme) × (scheme ≢ "")

eq-false_of_not : (b : Bool) → not b ≡ true → b ≡ false
eq-false_of_not b h = ground arith

check_uri-none :
    (p : Parsers) (message field value : String)
    → check_uri p message field value ≡ none
    → IsAbsolute p value
unfolding check_uri
check_uri-none p message field value h = parsed (p.parse_url value) refl
  where
    parsed : (r : Result String) → p.parse_url value ≡ r → IsAbsolute p value
    parsed (err e) read =
        let refused : check_uri p message field value
            ≡ some (invalid_because message field "value must be a valid URI" e) =
          rw (read, check_uri) refl in
        cc
    parsed (ok scheme) read =
        let absolute = field_check-none _ _ (rw (read, check_uri) at h) in
        (scheme, read, str_eq→ne scheme "" (eq-false_of_not _ absolute))

-- An order that passes is a user's with a UUID and one of the roles admin, dev and guest, for two
-- absolute URLs, and of one of the three types with a quantity above zero.
pub add_order_req_error-none :
    (p : Parsers) (m : AddOrderReq)
    → add_order_req_error p m ≡ none
    → (uuid_pattern m.user_id ≡ true)
      × (contains roles m.user_role ≡ true)
      × IsAbsolute p m.target_url
      × (contains order_types m.order_type ≡ true)
      × (is_positive m.quantity ≡ true)
      × IsAbsolute p m.service_url
unfolding add_order_req_error validate_add_order_req
add_order_req_error-none p m h =
    let (user, (role, (target, (kind, (quantity, (service, _)))))) =
      run_checks-AllPass false (add_order_req_checks p m) h in
    (
      check_uuid-none _ _ _ user,
      field_check-none _ _ role,
      check_uri-none p _ _ _ target,
      field_check-none _ _ kind,
      field_check-none _ _ quantity,
      check_uri-none p _ _ _ service,
    )
