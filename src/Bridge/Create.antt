-- ===== src/Bridge/Create.antt =====
-- `create` of internal/adapters/mcpbridge/tools.go: the tools that create jobs.
pub mod Acceptance
use task_worker.Base.{
  Option, [], if◌then◌else◌, length, ltb, none, some, ◌==◌, ◌||◌, Bytes-comparable,
}
use task_worker.Bridge.Calls.{refused, Called, got, fails, Attempt, do_job_for}
use task_worker.Errors.{ErrorCode, Fault, fault}
use task_worker.Events.{SubmitCommand, RetryCommand, BranchCommand}
use task_worker.Jobs.{Request, JobId}
use task_worker.Text.{Text, bytes}

pub data Operation : Type 0 where
  submit retry branch : Operation

pub record CreateIn : Type 0 where
  pub key : Text
  pub origin : Text
  pub parent_id : JobId
  pub request : Option Request

pub data Body : Type 0 where
  submitted : SubmitCommand → Body
  retried : RetryCommand → Body
  branched : BranchCommand → Body

abbrev bad_key : Fault
bad_key = fault ErrorCode.invalid_request "idempotency_key must be 1..128 UTF-8 bytes"

abbrev no_request : Fault
no_request = fault ErrorCode.invalid_request "request is required"

abbrev origin_of : Text → Text
origin_of origin = if origin == [] then bytes "mcp" else origin

body_of : Operation → CreateIn → Option Body
body_of submit i = elim i.request [
  | none ↦ none
  | some r ↦ some (submitted (record { key = i.key; origin = origin_of i.origin; request = r }))
]
body_of retry i =
    some (retried (record { key = i.key; origin = origin_of i.origin; parent_id = i.parent_id }))
body_of branch i = elim i.request [
  | none ↦ none
  | some r ↦ some (
      branched
        (record { key = i.key; origin = origin_of i.origin; parent_id = i.parent_id; request = r }))
]

-- The command that is sent, or the refusal of the arguments.
unfoldable pub create_body : Operation → CreateIn → Called Body
unfolding body_of
create_body op i =
    if i.key == [] || ltb 128 (length i.key)
    then fails (refused bad_key)
    else elim (body_of op i) [ none ↦ fails (refused no_request) | some b ↦ got b ]

-- `post` is the attempt that comes of sending a command.
module _ {D : Type 0} (raw : Text → Option Text) (decode_fault : Text → Option Fault)
    (object : Text → Option D) (id_of state_of : D → Text) (post : Body → Attempt) where
  sent : Called Body → Called D
  sent (fails f) = fails f
  sent (got b) = do_job_for raw decode_fault object id_of state_of (post b)

  unfoldable pub create : Operation → CreateIn → Called D
  unfolding sent
  create op i = sent (create_body op i)
