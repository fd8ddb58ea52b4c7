-- ===== src/HttpApi/Service.antt =====
-- The interface `Service` of internal/core/ports.go, by which the server reaches the worker.
use task_worker.Worker.Models.{Model}
use task_worker.Base.{Bool, List, ℕ}
use task_worker.Errors.{Outcome}
use task_worker.Events.{Cursor, SubmitCommand, RetryCommand, BranchCommand, QueueState, Snapshot}
use task_worker.Jobs.{Job, JobId}

-- The operations, over a state; `watch` answers the name of a stream.
pub record Service (S : Type 0) : Type 0 where
  pub submit : SubmitCommand → S → Outcome Job × S
  pub retry : RetryCommand → S → Outcome Job × S
  pub branch : BranchCommand → S → Outcome Job × S
  pub cancel : JobId → S → Outcome Job × S
  pub set_queue_paused : Bool → S → Outcome QueueState × S
  pub get_job : JobId → S → Outcome Job × S
  pub snapshot : S → Outcome Snapshot × S
  pub watch : Cursor → S → Outcome ℕ × S
  pub models : S → Outcome (List Model) × S
