-- ===== src/HttpApi/Faults.antt =====
-- `PublicFault` and `statuses` of internal/adapters/httpapi/server.go, and the client's own failures
-- of client.go.
use task_worker.Base.{Bool, Option, String, [], false, none, some, true, ℕ, ◌&&◌, ◌==◌, ◌||◌}
use text.Mathlib.Text.{◌==◌ as same_text}
use task_worker.Errors.{
  Error, ErrorCode, Fault, fault, faulted, as_fault, context_ended, ErrorCode-comparable,
}

-- The status and the text of a code that `statuses` lists.
unfoldable pub status_of : ErrorCode → Option (ℕ × String)
status_of ErrorCode.invalid_request = some (400, "invalid_request")
status_of ErrorCode.not_found = some (404, "not_found")
status_of ErrorCode.conflict = some (409, "conflict")
status_of ErrorCode.queue_full = some (429, "queue_full")
status_of ErrorCode.limit_exceeded = some (413, "limit_exceeded")
status_of ErrorCode.unsupported = some (422, "unsupported")
status_of ErrorCode.backend_unavailable = some (503, "backend_unavailable")
status_of ErrorCode.backend_failure = some (502, "backend_failure")
status_of ErrorCode.cancelled = some (409, "cancelled")
status_of ErrorCode.interrupted = some (409, "interrupted")
status_of ErrorCode.cursor_expired = some (410, "cursor_expired")
status_of ErrorCode.cursor_invalid = some (400, "cursor_invalid")
status_of ErrorCode.slow_consumer = some (429, "slow_consumer")
status_of ErrorCode.storage = some (503, "storage_failure")
status_of ErrorCode.unavailable = some (503, "unavailable")
status_of ErrorCode.internal = some (500, "internal")
status_of (ErrorCode.other t) = none

abbrev pub request_ended : Fault
request_ended = record {
  code = ErrorCode.unavailable;
  message = "request ended; acceptance may be uncertain";
  retryable = true;
  details = [];
}

abbrev pub operation_failed : Fault
operation_failed = fault ErrorCode.internal "service operation failed"

-- A fault whose code is listed keeps its code and its retry advice, and nothing else.
public_of : Fault → Option (ℕ × String) → Fault
public_of f none = operation_failed
public_of f (some (status, text)) = record {
  code = f.code;
  message = text;
  retryable = f.retryable;
  details = [];
}

unfoldable pub public_fault : Error → Fault
unfolding public_of status_of
public_fault (faulted f) = public_of f (status_of f.code)
public_fault context_ended = request_ended
public_fault _ = operation_failed

abbrev pub connection_message : String
connection_message =
    "cannot reach service; start serve or check --server; create acceptance may be uncertain"

abbrev pub response_too_large : String
response_too_large = "service response too large"

-- `invalid` of codec.go.
abbrev pub invalid : Error
invalid = faulted (fault ErrorCode.invalid_request "invalid JSON command")

abbrev pub invalid_response : String
invalid_response = "invalid service response"

abbrev pub connection : Error
connection = faulted (record {
  code = ErrorCode.unavailable;
  message = connection_message;
  retryable = true;
  details = [];
})

unfoldable pub is_connection_fault : Error → Bool
is_connection_fault e = elim (as_fault e) [
  | none ↦ false
  | some f ↦ f.code == ErrorCode.unavailable && same_text f.message connection_message
]

unfoldable pub is_unreadable_response : Error → Bool
is_unreadable_response e = elim (as_fault e) [
  | none ↦ false
  | some f ↦
      (f.code == ErrorCode.limit_exceeded && same_text f.message response_too_large)
      || (f.code == ErrorCode.internal && same_text f.message invalid_response)
]
