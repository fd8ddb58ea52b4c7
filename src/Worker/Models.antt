-- ===== src/Worker/Models.antt =====
-- `models` of internal/core/worker.go, and the model listings of ports.go.
use task_worker.Base.{Bool, List, false, true}
use task_worker.Worker.Backend.{public_backend_error}
use task_worker.Errors.{Outcome, ErrorCode, fault, faulted, err, ok}
use task_worker.Jobs.{ContextInfo}
use task_worker.Text.{Text}

pub record Capabilities : Type 0 where
  pub text_generation : Bool
  pub streaming : Bool
  pub cancellation : Bool
  pub context_request : Bool
  pub loaded_context : Bool
  pub exact_pause_resume : Bool
  pub checkpoints : Bool

pub record Model : Type 0 where
  pub id : Text
  pub capabilities : Capabilities
  pub context : ContextInfo

-- What the backend answers, and whether `json.Marshal` succeeds on it.
unfoldable pub models : Outcome (List Model) → Bool → Outcome (List Model)
models (err e) encodes = err (faulted (public_backend_error e))
models (ok m) true = ok m
models (ok m) false = err (faulted (fault ErrorCode.backend_failure "invalid model metadata"))
