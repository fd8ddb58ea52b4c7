-- ===== src/Ollama.antt =====
-- internal/adapters/ollama: the client of the inference backend. Its faults, of http.go.
pub mod Objects
pub mod Budget
pub mod Streaming
use task_worker.Base.{
  Option, String, [], if◌then◌else◌, none, some, ℕ, ◌==◌, ◌||◌, Comparable, ℕ-comparable,
}
use task_worker.Errors.{Error, ErrorCode, ErrorCode-comparable, Fault, faulted}

-- `fault`.
unfoldable pub message_of : ErrorCode → String
message_of ErrorCode.invalid_request = "Ollama request or context budget is invalid"
message_of ErrorCode.unsupported = "Ollama version, model, or option is unsupported"
message_of ErrorCode.limit_exceeded = "Ollama response exceeds adapter limits"
message_of ErrorCode.backend_unavailable = "Ollama is unavailable"
message_of _ = "Ollama operation failed"

unfoldable pub failure : ErrorCode → Error
failure code = faulted (record {
  code = code;
  message = message_of code;
  retryable = code == ErrorCode.backend_unavailable;
  details = [];
})

-- The answer to a status, in `request`.
unfoldable pub status_failure : ℕ → Option Error
unfolding failure message_of
status_failure status =
    if status == 200
    then none
    else if status == 400 || status == 404 || status == 422
    then some (failure ErrorCode.invalid_request)
    else if status == 429 || status == 502 || status == 503 || status == 504
    then some (failure ErrorCode.backend_unavailable)
    else some (failure ErrorCode.backend_failure)
