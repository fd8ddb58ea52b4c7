-- ===== src/Encoding.antt =====
-- The canonical encodings that the core measures, digests and writes: `json.Marshal` of each
-- type, `none` where it fails, and `sha256.Sum256`. They are parameters of the model.
use task_worker.Base.{Option, ◌≡◌}
use task_worker.Base.{length}
use task_worker.Text.{Text}
use task_worker.Jobs.{JobId, Job, Request, Result}
use task_worker.Events.{Event, Commit}

-- What the digest of a create command covers.
pub record Command : Type 0 where
  pub operation : Text
  pub parent : JobId
  pub origin : Text
  pub request : Request

pub record Encoding : Type 0 where
  pub job : Job → Option Text
  pub event : Event → Option Text
  pub result : Result → Option Text
  pub command : Command → Option Text
  pub commit : Commit → Option Text
  pub sha256 : Text → Text

-- SHA-256 gives 32 bytes.
pub record IsDigest (sha256 : Text → Text) : Type 0 where
  pub length_32 : (b : Text) → length (sha256 b) ≡ 32
