-- ===== src/Worker/Dispatch.antt =====
-- `dispatch` of internal/core/worker.go: starts the first pending job.
use task_worker.State.{find_job}
use task_worker.Events.{QueueState, job_state}
use task_worker.Jobs.{Job, JobId, Time, running}
use task_worker.Worker.{Env, Worker, commit, job_event, poison, queue_event}
use task_worker.Base.{List, [], false, if◌then◌else◌, is_some, none, some, true, ◌+◌, ◌||◌, ◌∷◌}

-- The job and the queue that `dispatch` commits.
abbrev pub started_job : Time → Job → Job
started_job t j = record j { state = running; started_at = some t }

abbrev pub queue_started : QueueState → JobId → List JobId → QueueState
queue_started q id rest = record q { pending = rest; active = some id }

module _ {Disk : Type 0} where
  abbrev pub started : Job → Worker Disk → Worker Disk
  started j w = record w {
    cancel = some (record {
      job_id = j.id;
      input = record { request = j.request; instructions = j.instructions };
      ended = false;
    });
    output_err = none;
  }

module _ {Disk : Type 0} (env : Env Disk) where
  unfoldable pub start_job : Job → List JobId → Worker Disk → Worker Disk
  start_job old rest w =
      let j = started_job (env.now w.clock_reads) old in
      let w' = record w { clock_reads = w.clock_reads + 1 } in
      let (e, w'') =
        commit env
          (job_event job_state j ∷ queue_event (queue_started w.state.queue j.id rest) ∷ []) none
          w' in
      elim e [ some f ↦ poison f w'' | none ↦ started j w'' ]

  unfoldable pub start_first : List JobId → Worker Disk → Worker Disk
  unfolding start_job
  start_first [] w = w
  start_first (id ∷ rest) w = elim (find_job id w.state.jobs) [
    | none ↦ record w { panicked = true }
    | some j ↦ start_job j rest w
  ]

  unfoldable pub dispatch : Worker Disk → Worker Disk
  unfolding start_first
  dispatch w =
      if w.stopping || is_some w.fatal || w.state.queue.paused || is_some w.state.queue.active
      then w
      else start_first w.state.queue.pending w
