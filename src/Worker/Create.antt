-- ===== src/Worker/Create.antt =====
-- `create` of internal/core/worker.go, behind Submit, Retry and Branch: idempotent admission.
use task_worker.Worker.Dispatch.{dispatch}
use task_worker.Text.{Text, hex_encode, valid_string}
use task_worker.State.Reducer.{branch_instructions, check_job_fits}
use task_worker.Errors.{
  ErrorCode, Outcome, fail_if, fault, or_fail, ◌>>◌, faulted, ok, err, plain, context_ended, ◌>>=◌,
}
use task_worker.Jobs.{Instructions, Job, JobId, Lineage, Relation, Request, queued}
use task_worker.Events.{
  BranchCommand, QueueState, Receipt, RetryCommand, SubmitCommand, job_accepted,
}
use task_worker.State.{
  compose, empty_result, find_job, invalid, max_jobs, max_pending, terminal, validate_request,
}
use task_worker.Worker.{Env, Worker, available, commit, find_receipt, job_event, queue_event, pos}
use task_worker.Base.{
  Bool, List, Option, [], false, if◌then◌else◌, leb, length, ltb, none, not, some, true, ◌!=◌, ◌++◌,
  ◌+◌, ◌==◌, ◌||◌, ◌∷◌, ℕ-comparable, Bytes-comparable,
}

pub data Operation : Type 0 where
  submit retry branch : Operation

-- The text of the operation, which is also the relation that it records.
abbrev pub operation_text : Operation → Text
operation_text submit = 115 ∷ 117 ∷ 98 ∷ 109 ∷ 105 ∷ 116 ∷ []
operation_text retry = 114 ∷ 101 ∷ 116 ∷ 114 ∷ 121 ∷ []
operation_text branch = 98 ∷ 114 ∷ 97 ∷ 110 ∷ 99 ∷ 104 ∷ []

abbrev pub relation_of : Operation → Relation
relation_of submit = Relation.other (operation_text submit)
relation_of retry = Relation.retry
relation_of branch = Relation.branch

-- The arguments of `create`.
pub record Creation : Type 0 where
  pub operation : Operation
  pub key : Text
  pub origin : Text
  pub parent : JobId
  pub request : Request

abbrev pub is_retry : Operation → Bool
is_retry retry = true
is_retry _ = false

abbrev pub is_submit : Operation → Bool
is_submit submit = true
is_submit _ = false

unfoldable pub bad_key : Creation → Bool
bad_key c =
    length c.key == 0
    || ltb 128 (length c.key)
    || not (valid_string c.key)
    || not (valid_string c.origin)
    || ltb 1024 (length c.origin)

-- What a create command records: the request, its instructions and its lineage.
pub record Draft : Type 0 where
  pub request : Request
  pub instructions : Instructions
  pub lineage : Option Lineage

unfoldable pub with_parent : Creation → Job → Outcome Draft
with_parent c p = do
  fail_if (not (terminal p.state)) (faulted (fault ErrorCode.conflict "parent must be terminal"))
  let l : Lineage = record { parent_id = c.parent; relation = relation_of c.operation }
  ok (
      if is_retry c.operation
      then record { request = p.request; instructions = p.instructions; lineage = some l }
      else record {
        request = c.request;
        instructions = branch_instructions (compose c.request) p;
        lineage = some l;
      })

unfoldable pub draft : List Job → Creation → Outcome Draft
draft jobs c =
    if c.parent != []
    then (do
      p ← or_fail (find_job c.parent jobs) (faulted (fault ErrorCode.not_found "parent not found"))
      with_parent c p)
    else if is_submit c.operation
    then ok (record { request = c.request; instructions = compose c.request; lineage = none })
    else err (invalid "parent is required")

-- What the checks of `create` decide: the job of an earlier receipt, or a new job and its receipt.
pub data Plan : Type 0 where
  existing : JobId → Plan
  admitted : Job → Receipt → Plan

abbrev pub queue_admitted : QueueState → JobId → QueueState
queue_admitted q id = record q { pending = q.pending ++ id ∷ [] }

-- A retry brings no request of its own.
abbrev pub check_request : Creation → Outcome (Unit {0})
check_request c =
    if is_retry c.operation then ok tt else validate_request c.request (compose c.request)

module _ {Disk : Type 0} where
  abbrev pub check_available : Worker Disk → Outcome (Unit {0})
  check_available w = elim (available w) [ none ↦ ok tt | some e ↦ err e ]

  -- `Clone(*w.job(id))`: a missing job is a nil dereference.
  unfoldable pub return_job : JobId → Worker Disk → Outcome Job × Worker Disk
  return_job id w = elim (find_job id w.state.jobs) [
    | none ↦ (err (plain "nil pointer dereference"), record w { panicked = true })
    | some j ↦ (ok j, w)
  ]

module _ {Disk : Type 0} (env : Env Disk) where
  unfoldable pub digest_of : Creation → Outcome Text
  digest_of c = do
    b ←
        or_fail
          (env.encoding.command (record {
            operation = operation_text c.operation;
            parent = c.parent;
            origin = c.origin;
            request = c.request;
          }))
          (invalid "invalid command encoding")
    ok (hex_encode (env.encoding.sha256 b))

  -- A job that is not a repetition: the limits, the identity and the record.
  unfoldable pub plan_new : Worker Disk → Creation → Text → Outcome Plan
  plan_new w c d = do
    t ← draft w.state.jobs c
    validate_request t.request t.instructions
    fail_if (leb max_pending (length w.state.queue.pending))
        (faulted (fault ErrorCode.queue_full "pending queue is full"))
    fail_if (leb max_jobs (length w.state.jobs))
        (faulted (fault ErrorCode.limit_exceeded "retained job limit reached"))
    bytes ←
        or_fail (env.random w.random_reads)
          (faulted (fault ErrorCode.internal "cannot allocate job identity"))
    let j : Job = record {
      id = hex_encode bytes;
      state = queued;
      request = t.request;
      instructions = t.instructions;
      origin = c.origin;
      lineage = t.lineage;
      created_at = env.now w.clock_reads;
      started_at = none;
      finished_at = none;
      result = empty_result;
      error = none;
    }
    check_job_fits env.encoding j
    ok (admitted j (record { key = c.key; digest = d; job_id = j.id }))

  unfoldable pub plan_known : Worker Disk → Creation → Text → Option Receipt → Outcome Plan
  plan_known w c d none = plan_new w c d
  plan_known w c d (some r) = do
    fail_if (r.digest != d)
        (faulted (fault ErrorCode.conflict "idempotency key reused for different content"))
    ok (existing r.job_id)

  unfoldable pub plan_create : Worker Disk → Creation → Outcome Plan
  unfolding plan_known
  plan_create w c = do
    check_available w
    fail_if (bad_key c) (invalid "invalid idempotency key or origin")
    check_request c
    d ← digest_of c
    plan_known w c d (find_receipt c.key w.receipts)

  unfoldable pub admit : Job → Receipt → Worker Disk → Outcome Job × Worker Disk
  unfolding return_job
  admit j r w =
      let w' = record w { clock_reads = w.clock_reads + 1; random_reads = w.random_reads + 1 } in
      let (e, w'') =
        commit env (job_event job_accepted j ∷ queue_event (queue_admitted w.state.queue j.id) ∷ [])
          (some r) w' in
      elim e [ some f ↦ (err f, w'') | none ↦ return_job j.id (dispatch env w'') ]

  unfoldable pub follow_plan : Outcome Plan → Worker Disk → Outcome Job × Worker Disk
  unfolding admit return_job
  follow_plan (err e) w = (err e, w)
  follow_plan (ok (existing id)) w = return_job id w
  follow_plan (ok (admitted j r)) w = admit j r w

  -- `ended`: whether the caller's context has ended when the lock is taken.
  unfoldable pub create : Bool → Creation → Worker Disk → Outcome Job × Worker Disk
  unfolding follow_plan
  create ended c w = if ended then (err context_ended, w) else follow_plan (plan_create w c) w

  unfoldable pub submit_job : Bool → SubmitCommand → Worker Disk → Outcome Job × Worker Disk
  submit_job ended c = create ended (record {
    operation = submit;
    key = c.key;
    origin = c.origin;
    parent = [];
    request = c.request;
  })

  unfoldable pub branch_job : Bool → BranchCommand → Worker Disk → Outcome Job × Worker Disk
  branch_job ended c = create ended (record {
    operation = branch;
    key = c.key;
    origin = c.origin;
    parent = c.parent_id;
    request = c.request;
  })

  -- A retry passes the zero request.
  unfoldable pub retry_job : Bool → RetryCommand → Worker Disk → Outcome Job × Worker Disk
  retry_job ended c = create ended (record {
    operation = retry;
    key = c.key;
    origin = c.origin;
    parent = c.parent_id;
    request = record {
      model = [];
      role = [];
      system_prompt = [];
      prompt = [];
      options = record {
        context_tokens = none;
        max_output_tokens = pos 0;
        temperature = none;
        seed = none;
      };
    };
  })
