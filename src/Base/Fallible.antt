-- ===== src/Base/Fallible.antt =====
-- Go's errors as values, and calls that may fail and change the world outside the process.
use Prim.Native.String.{String, ◌++◌}
use mathlib.Core.Bool.{Bool, true, false}

-- The package-level error values that the code compares by `errors.Is`.
pub data Sentinel : Type 0 where
  invalid_credentials user_not_found upload_not_found image_not_found no_rows : Sentinel

-- The gRPC status codes.
pub data Code : Type 0 where
  canceled unknown invalid_argument deadline_exceeded not_found already_exists permission_denied
        resource_exhausted failed_precondition aborted out_of_range unimplemented internal
        unavailable data_loss unauthenticated :
      Code

pub data Err : Type 0 where
  sentinel : Sentinel → Err
  message : String → Err  -- `fmt.Errorf` with no `%w`, and the errors of other packages
  wrapped : String → Err → Err  -- `fmt.Errorf("…: %w", err)`
  status : Code → String → Err  -- a gRPC status
  workflow_gone : Err  -- `*serviceerror.NotFound` of the Temporal client
  non_retryable : String → String → Err  -- `temporal.NewNonRetryableApplicationError(msg, type, nil)`

abbrev pub same_sentinel : Sentinel → Sentinel → Bool
same_sentinel invalid_credentials invalid_credentials = true
same_sentinel user_not_found user_not_found = true
same_sentinel upload_not_found upload_not_found = true
same_sentinel image_not_found image_not_found = true
same_sentinel no_rows no_rows = true
same_sentinel _ _ = false

-- `errors.Is(err, target)` walks the chain of wrapped errors.
abbrev pub errors_is : Err → Sentinel → Bool
errors_is (sentinel s) target = same_sentinel s target
errors_is (wrapped _ e) target = errors_is e target
errors_is _ target = false

-- `errors.As(err, &notFound)` for `*serviceerror.NotFound`
abbrev pub is_workflow_gone : Err → Bool
is_workflow_gone workflow_gone = true
is_workflow_gone (wrapped _ e) = is_workflow_gone e
is_workflow_gone _ = false

-- `status.Code(err)`
abbrev pub status_code : Err → Code
status_code (status c _) = c
status_code (wrapped _ e) = status_code e
status_code _ = unknown

abbrev pub is_unauthenticated : Code → Bool
is_unauthenticated unauthenticated = true
is_unauthenticated _ = false

-- `(A, error)`: the value counts only where the error is nil.
pub data Result {ℓ} (A : Type ℓ) : Type ℓ where
  ok : A → Result A
  err : Err → Result A

-- A call: it returns a result and leaves the world `W` changed, also where it fails.
abbrev pub M : Type 0 → Type 0 → Type 0
M W A = W → Result A × W

module _ {W : Type 0} where
  abbrev pub pure : {A : Type 0} → A → M W A
  pure a w = (ok a, w)

  abbrev pub fail : {A : Type 0} → Err → M W A
  fail e w = (err e, w)

  -- `if err != nil { return handler(err) }`
  abbrev pub catch {ℓ} : {A : Type 0} {X : Type ℓ} → Result A × W → (A → W → X) → (Err → W → X) → X
  catch (ok a, w) next handler = next a w
  catch (err e, w) next handler = handler e w

  infixl 5 ◌>>=◌ ◌>>◌
  -- `if err != nil { return err }`
  abbrev pub ◌>>=◌ : {A B : Type 0} → M W A → (A → M W B) → M W B
  ◌>>=◌ m f w = catch (m w) f fail

  abbrev pub ◌>>◌ : {B : Type 0} → M W (Unit {0}) → M W B → M W B
  m >> k = m >>= λ _. k

  -- `_ = call()`: the error is dropped.
  abbrev pub ignore : {A : Type 0} → M W A → M W (Unit {0})
  ignore m w = (ok tt, (m w).1)

  -- `fmt.Errorf("note: %w", err)`
  abbrev pub annotate : {A : Type 0} → String → M W A → M W A
  annotate note m w = catch (m w) pure (λ e. fail (wrapped note e))

-- The package-level messages.
abbrev sentinel_text : Sentinel → String
sentinel_text invalid_credentials = "invalid email or password"
sentinel_text user_not_found = "user not found"
sentinel_text upload_not_found = "upload not found"
sentinel_text image_not_found = "image not found"
sentinel_text no_rows = "no rows in result set"

-- The names of the codes, as the gRPC library prints them.
abbrev code_text : Code → String
code_text canceled = "Canceled"
code_text unknown = "Unknown"
code_text invalid_argument = "InvalidArgument"
code_text deadline_exceeded = "DeadlineExceeded"
code_text not_found = "NotFound"
code_text already_exists = "AlreadyExists"
code_text permission_denied = "PermissionDenied"
code_text resource_exhausted = "ResourceExhausted"
code_text failed_precondition = "FailedPrecondition"
code_text aborted = "Aborted"
code_text out_of_range = "OutOfRange"
code_text unimplemented = "Unimplemented"
code_text internal = "Internal"
code_text unavailable = "Unavailable"
code_text data_loss = "DataLoss"
code_text unauthenticated = "Unauthenticated"

-- `err.Error()`, which `%v` prints.
unfoldable pub error_text : Err → String
error_text (sentinel s) = sentinel_text s
error_text (message m) = m
error_text (wrapped note e) = note ++ (": " ++ error_text e)
error_text (status c m) = "rpc error: code = " ++ (code_text c ++ (" desc = " ++ m))
error_text workflow_gone = "workflow not found"
error_text (non_retryable m t) = m ++ (" (type: " ++ (t ++ ", retryable: false)"))
