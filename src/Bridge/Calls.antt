-- ===== src/Bridge/Calls.antt =====
-- Calls of the service by the bridge: `doFor`, `doObjectFor`, `doJobFor` and `faults` of
-- internal/adapters/mcpbridge/tools.go, and `faultBody` of view.go.
use task_worker.Base.{
  Bool, Option, String, [], false, if◌then◌else◌, length, none, not, some, true, ◌!=◌, ◌&&◌, ◌==◌,
  ◌||◌, ℕ-comparable, Bytes-comparable,
}
pub mod Definite
use task_worker.HttpApi.Client.{Reply, handed_over, call}
use task_worker.HttpApi.Faults.{
  public_fault, is_connection_fault, is_unreadable_response, invalid_response,
}
use task_worker.Errors.{
  Error, ErrorCode, ErrorCode-comparable, Fault, fault, faulted, plain, Outcome, ok, err,
}
use task_worker.Text.{Text}

-- An error of the bridge: its own refusal of the arguments, a call that has met the bridge's own
-- deadline, or any other.
pub data Failure : Type 0 where
  refused : Fault → Failure
  timed_out : Failure
  failed : Error → Failure

pub data Called (A : Type 0) : Type 0 where
  got : A → Called A
  fails : Failure → Called A

-- One call: the reply, whether the caller's own context is live when it returns, and whether the
-- deadline of the call has passed then.
pub record Attempt : Type 0 where
  pub reply : Reply
  pub caller_live : Bool
  pub expired : Bool

abbrev pub unreadable : Error
unreadable = faulted (fault ErrorCode.internal invalid_response)

classified : Attempt → Outcome Text → Called Text
classified a (ok raw) = got raw
classified a (err e) = if a.caller_live && a.expired then fails timed_out else fails (failed e)

-- `raw` is `json.Unmarshal` into a raw message. The commands of the bridge are records of strings,
-- numbers and JSON that was read, and their paths are escaped: every call is handed over.
unfoldable pub do_for : (Text → Option Text) → (Text → Option Fault) → Attempt → Called Text
unfolding classified
do_for raw decode_fault a = classified a (call raw decode_fault (handed_over a.reply))

-- `object` is `decodeObject`; of a job's object, the fields `id` and `state`.
module _ {D : Type 0} (raw : Text → Option Text) (decode_fault : Text → Option Fault)
    (object : Text → Option D) (id_of state_of : D → Text) where
  decoded : Called Text → Called D
  decoded (fails f) = fails f
  decoded (got t) = elim (object t) [ none ↦ fails (failed unreadable) | some d ↦ got d ]

  unfoldable pub do_object_for : Attempt → Called D
  unfolding decoded
  do_object_for a = decoded (do_for raw decode_fault a)

  established : Called D → Called D
  established (fails f) = fails f
  established (got d) =
      if length (id_of d) != 32 || state_of d == [] then fails (failed unreadable) else got d

  unfoldable pub do_job_for : Attempt → Called D
  unfolding established
  do_job_for a = established (do_object_for a)

pub data Kind : Type 0 where
  bridge_validation service_fault timeout service_unreachable response_unreadable : Kind

-- The error of a tool result; `acceptance_uncertain` is there for a call that creates a job.
pub record Report : Type 0 where
  pub code : ErrorCode
  pub message : String
  pub retryable : Bool
  pub kind : Kind
  pub acceptance_uncertain : Option Bool

kind_of : Error → Kind
kind_of e =
    if is_connection_fault e
    then service_unreachable
    else if is_unreadable_response e
    then response_unreadable
    else service_fault

is_service_fault : Kind → Bool
is_service_fault service_fault = true
is_service_fault _ = false

uncertain : Kind → Fault → Bool
unfolding is_service_fault
uncertain kind f =
    not (is_service_fault kind)
    || f.code == ErrorCode.unavailable
    || f.code == ErrorCode.storage
    || f.code == ErrorCode.internal

body : Kind → Fault → Bool → Report
unfolding uncertain
body kind f creates = record {
  code = f.code;
  message = f.message;
  retryable = f.retryable;
  kind = kind;
  acceptance_uncertain = if creates then some (uncertain kind f) else none;
}

-- `timeoutErr` has no `Unwrap`: no fault is found in it.
unfoldable pub faults : Failure → Bool → Report
unfolding body kind_of
faults (refused f) creates = record {
  code = f.code;
  message = f.message;
  retryable = false;
  kind = bridge_validation;
  acceptance_uncertain = none;
}
faults timed_out creates = body timeout (public_fault (plain "")) creates
faults (failed e) creates = body (kind_of e) (public_fault e) creates
