-- ===== src/Events.antt =====
-- internal/core/events.go and the data of internal/core/ports.go: cursors, events, snapshots,
-- receipts, commits and commands.
use task_worker.Base.{ℕ, Bool, List, Option, Comparable, ℕ_discrete}
use task_worker.Base.Int.{ℤ}
use task_worker.Text.{Text}
use task_worker.Jobs.{JobId, Job, Request, Instructions, Time}

pub record Cursor : Type 0 where
  pub store_id : Text
  pub sequence : ℕ  -- uint64

pub data EventKind : Type 0 where
  job_accepted job_state job_output job_result queue_state : EventKind
  other : Text → EventKind

unfoldable pub EventKind-discrete : Discrete EventKind
EventKind-discrete = hlevel ℕ_discrete

instance abbrev pub EventKind-comparable : Comparable EventKind
EventKind-comparable = record { discrete = EventKind-discrete }

pub record OutputDelta : Type 0 where
  pub offset_bytes : ℤ
  pub text : Text

pub record QueueState : Type 0 where
  pub paused : Bool
  pub pending : List JobId
  pub active : Option JobId
  pub max_pending : ℤ

pub record Event : Type 0 where
  pub cursor : Cursor
  pub at : Time
  pub kind : EventKind
  pub job_id : JobId
  pub job : Option Job
  pub output : Option OutputDelta
  pub queue : Option QueueState

pub record Snapshot : Type 0 where
  pub cursor : Cursor
  pub queue : QueueState
  pub jobs : List Job

pub record InferenceInput : Type 0 where
  pub request : Request
  pub instructions : Instructions

pub record SubmitCommand : Type 0 where
  pub key : Text
  pub origin : Text
  pub request : Request

pub record RetryCommand : Type 0 where
  pub key : Text
  pub origin : Text
  pub parent_id : JobId

pub record BranchCommand : Type 0 where
  pub key : Text
  pub origin : Text
  pub parent_id : JobId
  pub request : Request

pub record Receipt : Type 0 where
  pub key : Text
  pub digest : Text
  pub job_id : JobId

pub record Commit : Type 0 where
  pub version : ℤ
  pub events : List Event
  pub receipt : Option Receipt

pub record Recovery : Type 0 where
  pub snapshot : Snapshot
  pub receipts : List Receipt

unfoldable pub Ids-discrete : Discrete (List JobId)
Ids-discrete = hlevel ℕ_discrete

instance abbrev pub Ids-comparable : Comparable (List JobId)
Ids-comparable = record { discrete = Ids-discrete }
