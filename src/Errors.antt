-- ===== src/Errors.antt =====
-- internal/core/errors.go: the stable error body, and Go's `error` results as values.
use task_worker.Base.{
  Bool, true, false, String, List, [], Option, none, some, Comparable, Bytes-comparable, ℕ_discrete,
  ◌≡◌, refl,
}
use task_worker.Text.{Text}

-- A Go string type holds any text: `other` is a text that no constant names.
pub data ErrorCode : Type 0 where
  invalid_request not_found conflict queue_full limit_exceeded unsupported : ErrorCode
  backend_unavailable backend_failure cancelled interrupted cursor_expired : ErrorCode
  cursor_invalid slow_consumer storage unavailable internal : ErrorCode
  other : Text → ErrorCode

unfoldable pub ErrorCode-discrete : Discrete ErrorCode
ErrorCode-discrete = hlevel ℕ_discrete

instance abbrev pub ErrorCode-comparable : Comparable ErrorCode
ErrorCode-comparable = record { discrete = ErrorCode-discrete }

pub record Fault : Type 0 where
  pub code : ErrorCode
  pub message : String
  pub retryable : Bool
  pub details : List (String × String)

abbrev pub fault : ErrorCode → String → Fault
fault code message = record { code = code; message = message; retryable = false; details = [] }

-- Go's `error`: a fault of this program, the error of an ended context, `io.EOF`, or any other
-- error, with its text.
pub data Error : Type 0 where
  faulted : Fault → Error
  context_ended : Error
  end_of_stream : Error
  plain : String → Error

-- `errors.As(err, &f)`: the fault in an error.
abbrev pub as_fault : Error → Option Fault
as_fault (faulted f) = some f
as_fault _ = none

-- The results `(A, error)` of a fallible function.
pub data Outcome {ℓ} (A : Type ℓ) : Type ℓ where
  ok : A → Outcome A
  err : Error → Outcome A

infixl 5 ◌>>=◌ ◌>>◌
abbrev pub ◌>>=◌ {ℓ κ} : {A : Type ℓ} {B : Type κ} → Outcome A → (A → Outcome B) → Outcome B
(ok value) >>= k = k value
(err problem) >>= k = err problem

abbrev pub ◌>>◌ {ℓ} : {B : Type ℓ} → Outcome (Unit {0}) → Outcome B → Outcome B
m >> k = m >>= λ _. k

-- `if bad { return ..., e }`.
abbrev pub fail_if : Bool → Error → Outcome (Unit {0})
fail_if false _ = ok tt
fail_if true problem = err problem

abbrev pub or_fail {ℓ} : {A : Type ℓ} → Option A → Error → Outcome A
or_fail none e = err e
or_fail (some a) e = ok a

abbrev pub is_err {ℓ} : {A : Type ℓ} → Outcome A → Bool
is_err (ok _) = false
is_err (err _) = true

-- Inversion of successful steps.
pub >>=-eq-ok {ℓ κ} :
    {A : Type ℓ} {B : Type κ} (first : Outcome A) (then_do : A → Outcome B) {answer : B}
    → (first >>= then_do) ≡ ok answer
    → (x : A) × (first ≡ ok x) × (then_do x ≡ ok answer)
>>=-eq-ok (ok x) k e = (x, refl, e)
>>=-eq-ok (err problem) k e = cc

pub >>-eq-ok {ℓ} :
    {B : Type ℓ} (m : Outcome (Unit {0})) (k : Outcome B) {b : B}
    → (m >> k) ≡ ok b
    → (m ≡ ok tt) × (k ≡ ok b)
>>-eq-ok (ok tt) k h = (refl, h)
>>-eq-ok (err e) k h = cc

-- A test that does not fail is passed.
pub fail_if-pass {ℓ} :
    {B : Type ℓ} (b : Bool) (e : Error) (k : Outcome B) → b ≡ false → (fail_if b e >> k) ≡ k
fail_if-pass true e k h = cc
fail_if-pass false e k h = refl
