-- ===== src/Tests/Requests.antt =====
-- The theorems on the validation of requests, at concrete inputs.
use Prim.Native.String.{count}
use l.Prelude.{◌≡◌, ◌≤◌, refl, none, true}
use l.Prelude.Lists.{contains}
use l.Protos.Address.{validate_email}
use l.Protos.Rules.{roles, uuid_pattern, run_checks, to_error}
use l.Protos.User.{RegReq, reg_req_error}
use l.Protos.User.Accepted.{reg_req_error-none}
use l.Tests.Users.{parsers}

abbrev bob : RegReq
bob = record { name = "bob"; email = "b@c.co"; role = "dev"; password = "12345678" }

bob_valid : reg_req_error parsers bob ≡ none
unfolding reg_req_error l.Protos.Rules.check_email l.Strings.split l.Protos.Rules.check_min_runes
bob_valid = refl

reg_req_error-none_example :
    (2 ≤ count bob.name)
    × (count bob.name ≤ 50)
    × (validate_email parsers bob.email ≡ none)
    × (contains roles bob.role ≡ true)
    × (8 ≤ count bob.password)
reg_req_error-none_example = reg_req_error-none parsers bob bob_valid
