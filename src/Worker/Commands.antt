-- ===== src/Worker/Commands.antt =====
-- `cancelJob`, `setQueuePaused`, the reads and `call` of internal/core/worker.go.
use task_worker.Events.{QueueState, Snapshot, job_result, job_state}
use task_worker.Jobs.{Job, JobId, JobState, Time, cancelling, queued, JobState-comparable}
use task_worker.Worker.Dispatch.{dispatch}
use task_worker.State.{find_job, terminal}
use task_worker.Errors.{Error, ErrorCode, Outcome, fault, or_fail, err, context_ended, ok, faulted}
use task_worker.Worker.{Env, Worker, available, commit, end_context, job_event, queue_event}
use task_worker.Base.{
  Bool, List, Option, [], if◌then◌else◌, none, some, ◌!=◌, ◌+◌, ◌==◌, ◌||◌, ◌∷◌, Bytes-comparable,
  Bool-comparable,
}

-- The first occurrence of an id leaves the pending list.
unfoldable pub remove_id : JobId → List JobId → List JobId
remove_id id [] = []
remove_id id (v ∷ vs) = if v == id then vs else v ∷ remove_id id vs

abbrev pub cancelled_job : Time → Job → Job
cancelled_job t j = record j {
  state = JobState.cancelled;
  finished_at = some t;
  error = some (fault ErrorCode.cancelled "job cancelled");
}

-- How `call` answers: the context had ended before the call, it ended while the call ran, or the
-- reply came first.
pub data CallFate : Type 0 where
  refused detached answered : CallFate

module _ {Disk : Type 0} where
  -- The call that has begun runs to its end, whatever its caller sees.
  unfoldable pub call {ℓ} :
      {A : Type ℓ}
      → CallFate
      → (Worker Disk → Outcome A × Worker Disk)
      → Worker Disk
      → Outcome A × Worker Disk
  call refused fn w = (err context_ended, w)
  call detached fn w = (err context_ended, (fn w).1)
  call answered fn w = fn w

  unfoldable pub get_job : Bool → JobId → Worker Disk → Outcome Job × Worker Disk
  get_job ended id w = if ended then (err context_ended, w) else (
    or_fail (find_job id w.state.jobs) (faulted (fault ErrorCode.not_found "job not found")),
    w,
  )

  unfoldable pub snapshot : Bool → Worker Disk → Outcome Snapshot × Worker Disk
  snapshot ended w = (if ended then err context_ended else ok w.state, w)

module _ {Disk : Type 0} (env : Env Disk) where
  unfoldable pub cancel_queued : Job → Worker Disk → Outcome Job × Worker Disk
  cancel_queued old w =
      let j = cancelled_job (env.now w.clock_reads) old in
      let q = w.state.queue in
      let (e, w') =
        commit env
          (job_event job_result j
            ∷ queue_event (record q { pending = remove_id j.id q.pending })
            ∷ [])
          none (record w { clock_reads = w.clock_reads + 1 }) in
      (elim e [ some f ↦ err f | none ↦ ok j ], w')

  unfoldable pub cancel_running : Job → Worker Disk → Outcome Job × Worker Disk
  cancel_running old w =
      let j = record old { state = cancelling } in
      let (e, w') = commit env (job_event job_state j ∷ queue_event w.state.queue ∷ []) none w in
      elim e [ some f ↦ (err f, w') | none ↦ (ok j, record w' { cancel = end_context w'.cancel }) ]

  unfoldable pub cancel_found : Job → Worker Disk → Outcome Job × Worker Disk
  unfolding cancel_queued cancel_running
  cancel_found j w =
      if terminal j.state || j.state == cancelling
      then (ok j, w)
      else if j.state == queued
      then cancel_queued j w
      else cancel_running j w

  unfoldable pub cancel_at : Option Job → Worker Disk → Outcome Job × Worker Disk
  unfolding cancel_found
  cancel_at none w = (err (faulted (fault ErrorCode.not_found "job not found")), w)
  cancel_at (some j) w = cancel_found j w

  unfoldable pub cancel_unless : Option Error → JobId → Worker Disk → Outcome Job × Worker Disk
  unfolding cancel_at
  cancel_unless (some e) id w = (err e, w)
  cancel_unless none id w = cancel_at (find_job id w.state.jobs) w

  unfoldable pub cancel_job : Bool → JobId → Worker Disk → Outcome Job × Worker Disk
  unfolding cancel_unless
  cancel_job ended id w = if ended then (err context_ended, w) else cancel_unless (available w) id w

  unfoldable pub change_paused : Bool → Worker Disk → Option Error × Worker Disk
  change_paused paused w =
      let q = w.state.queue in
      if q.paused != paused
      then commit env (queue_event (record q { paused = paused }) ∷ []) none w
      else (none, w)

  unfoldable pub pause_then_dispatch : Option Error × Worker Disk → Outcome QueueState × Worker Disk
  pause_then_dispatch (some e, w) = (err e, w)
  pause_then_dispatch (none, w) = let w' = dispatch env w in (ok w'.state.queue, w')

  unfoldable pub pause_unless : Option Error → Bool → Worker Disk → Outcome QueueState × Worker Disk
  unfolding pause_then_dispatch change_paused
  pause_unless (some e) paused w = (err e, w)
  pause_unless none paused w = pause_then_dispatch (change_paused paused w)

  unfoldable pub set_queue_paused : Bool → Bool → Worker Disk → Outcome QueueState × Worker Disk
  unfolding pause_unless
  set_queue_paused ended paused w =
      if ended then (err context_ended, w) else pause_unless (available w) paused w
