-- ===== src/Errors.antt =====
-- Go's `error` values as the services build and inspect them: errors.New, fmt.Errorf with and without
-- %w, the *ValidationError types of protos/generated-*/…validate.go, *pq.Error and gRPC status
-- errors. The texts that third-party packages put into their errors are data here.
use Prim.Native.String.{◌++◌}
use l.Prelude.{String, ◌≡◌, refl, Option, none, some}

-- google.golang.org/grpc/codes
pub data Code : Type 0 where
  canceled unknown invalid_argument deadline_exceeded not_found already_exists : Code
  permission_denied resource_exhausted failed_precondition aborted out_of_range : Code
  unimplemented internal unavailable data_loss unauthenticated : Code

pub data Error : Type 0 where
  -- errors.New, and fmt.Errorf whose verbs are all %s
  text : String → Error
  -- fmt.Errorf whose last verb is %w: the text before it, and the wrapped error
  wrapped : String → Error → Error
  -- a *ValidationError of a message: its name, Field and Reason, without and with a Cause
  invalid : (message field reason : String) → Error
  invalid_because : (message field reason : String) → Error → Error
  -- *pq.Error: its Code and text
  pq : (code text : String) → Error
  -- an error that carries a gRPC status
  status : Code → String → Error

-- Code.String()
abbrev pub code_text : Code → String
code_text Code.canceled = "Canceled"
code_text Code.unknown = "Unknown"
code_text Code.invalid_argument = "InvalidArgument"
code_text Code.deadline_exceeded = "DeadlineExceeded"
code_text Code.not_found = "NotFound"
code_text Code.already_exists = "AlreadyExists"
code_text Code.permission_denied = "PermissionDenied"
code_text Code.resource_exhausted = "ResourceExhausted"
code_text Code.failed_precondition = "FailedPrecondition"
code_text Code.aborted = "Aborted"
code_text Code.out_of_range = "OutOfRange"
code_text Code.unimplemented = "Unimplemented"
code_text Code.internal = "Internal"
code_text Code.unavailable = "Unavailable"
code_text Code.data_loss = "DataLoss"
code_text Code.unauthenticated = "Unauthenticated"

-- err.Error()
unfoldable pub error_text : Error → String
error_text (text s) = s
error_text (wrapped s e) = s ++ error_text e
error_text (invalid m f r) = "invalid " ++ (m ++ ("." ++ (f ++ (": " ++ r))))
error_text (invalid_because m f r e) =
    "invalid " ++ (m ++ ("." ++ (f ++ (": " ++ (r ++ (" | caused by: " ++ error_text e))))))
error_text (pq code s) = s
error_text (status code s) = "rpc error: code = " ++ (code_text code ++ (" desc = " ++ s))

-- errors.As(err, &pqErr): the Code of the *pq.Error in the chain of %w. A *ValidationError has
-- `Cause` and no `Unwrap`, so the search ends there.
abbrev pub as_pq : Error → Option String
as_pq (pq code s) = some code
as_pq (wrapped s e) = as_pq e
as_pq _ = none

wrapped_text :
    error_text (wrapped "UserService.DelUser validate: " (invalid "DelUserReq" "Role" "no"))
    ≡ "UserService.DelUser validate: invalid DelUserReq.Role: no"
unfolding error_text
wrapped_text = refl
