-- ===== src/Worker/Lifecycle.antt =====
-- `NewWorker`, `Shutdown` and `closeStore` of internal/core/worker.go.
use task_worker.State.{find_job}
use task_worker.Worker.Dispatch.{dispatch}
use task_worker.Jobs.{Job, JobId, Time, JobState}
use task_worker.Streams.{finish_attached}
use task_worker.Events.{QueueState, Receipt, Recovery, job_result}
use task_worker.Worker.{Env, Worker, commit, end_context, job_event, queue_event}
use task_worker.Errors.{Error, ErrorCode, Fault, Outcome, fault, ◌>>=◌, plain, err, ok}
use task_worker.Base.{
  List, Option, [], false, if◌then◌else◌, is_none, map, none, some, true, ◌+◌, ◌∷◌,
}

abbrev pub receipts_of : List Receipt → List Receipt → List Receipt
receipts_of acc [] = acc
receipts_of acc (r ∷ rs) = receipts_of (r ∷ acc) rs

abbrev pub interrupted_fault : Fault
interrupted_fault = fault ErrorCode.interrupted "service stopped during inference"

-- The job that was running when the service stopped.
abbrev pub interrupted_job : Time → Job → Job
interrupted_job t j = record j {
  state = JobState.interrupted;
  finished_at = some t;
  error = some interrupted_fault;
}

abbrev pub queue_idle : QueueState → QueueState
queue_idle q = record q { active = none }

module _ {Disk : Type 0} where
  unfoldable pub recovered : Recovery → Disk → Worker Disk
  recovered r disk = record {
    disk = disk;
    state = r.snapshot;
    receipts = receipts_of [] r.receipts;
    streams = [];
    cancel = none;
    output_err = none;
    fatal = none;
    stopping = false;
    closed = false;
    panicked = false;
    clock_reads = 0;
    random_reads = 0;
  }

  unfoldable pub unless_fatal : Worker Disk → Outcome (Worker Disk)
  unless_fatal w = elim w.fatal [ some e ↦ err e | none ↦ ok w ]

  -- The end of `NewWorker`, where `step` is `dispatch`.
  unfoldable pub start_recovered :
      (Worker Disk → Worker Disk) → Option Error × Worker Disk → Outcome (Worker Disk)
  unfolding unless_fatal
  start_recovered step (some e, w) = err e
  start_recovered step (none, w) = unless_fatal (step w)

module _ {Disk : Type 0} (env : Env Disk) where
  unfoldable pub interrupt_active : JobId → Worker Disk → Option Error × Worker Disk
  interrupt_active id w = elim (find_job id w.state.jobs) [
    | none ↦ (some (plain "nil pointer dereference"), record w { panicked = true })
    | some old ↦
        commit env
          (job_event job_result (interrupted_job (env.now w.clock_reads) old)
            ∷ queue_event (queue_idle w.state.queue)
            ∷ [])
          none (record w { clock_reads = w.clock_reads + 1 })
  ]

  unfoldable pub close_interrupted : Option JobId → Worker Disk → Option Error × Worker Disk
  unfolding interrupt_active
  close_interrupted none w = (none, w)
  close_interrupted (some id) w = interrupt_active id w

  unfoldable pub new_worker : Disk → Outcome (Worker Disk)
  unfolding close_interrupted start_recovered
  new_worker disk =
      let (r, disk') = env.store.recover disk in
      r >>= λ found.
      start_recovered (dispatch env)
        (close_interrupted found.snapshot.queue.active (recovered found disk'))

  unfoldable pub close_store : Worker Disk → Worker Disk
  close_store w =
      let (e, disk) = env.store.close w.disk in
      if w.closed then w else record w {
        disk = disk;
        streams = map (finish_attached none) w.streams;
        fatal = if is_none w.fatal then e else w.fatal;
        closed = true;
      }

  -- The goroutine of `Shutdown`, under the lock.
  unfoldable pub begin_shutdown : Worker Disk → Worker Disk
  unfolding close_store
  begin_shutdown w =
      let w' = record w { stopping = true } in
      if w.stopping then w else elim w.cancel [
        | some g ↦ record w' { cancel = end_context w.cancel }
        | none ↦ close_store w'
      ]
