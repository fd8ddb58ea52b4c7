-- ===== src/Worker/Steps/Control.antt =====
-- Cancellation, pausing, shutdown, and the interruption at a start.
use task_worker.Worker.Steps.Reports.{close_store-Moves}
use task_worker.State.{find_job, terminal}
use task_worker.Errors.{Error, Outcome, err, ok}
use task_worker.Jobs.{Job, JobId, cancelling, queued, JobState-comparable}
use task_worker.Worker.Moves.{Moves, Moves-quiet, Moves-trans, commit-Moves}
use task_worker.Events.{Event, job_state}
use task_worker.Worker.Steps.{commit_after, dispatch-Moves}
use task_worker.Worker.{
  Env, Generation, Worker, available, commit, end_context, job_event, queue_event,
}
use task_worker.Worker.Commands.{
  cancel_at, cancel_found, cancel_job, cancel_queued, cancel_running, cancel_unless, change_paused,
  pause_then_dispatch, pause_unless, set_queue_paused,
}
use task_worker.Worker.Lifecycle.{begin_shutdown, close_store}
use task_worker.Base.{
  Bool, List, Option, [], false, if◌then◌else◌, none, refl, some, true, ◌!=◌, ◌+◌, ◌==◌, ◌||◌, ◌∷◌,
  Bool-comparable,
}

module _ {Disk : Type 0} (env : Env Disk) where
  cancel_queued-Moves : (j : Job) (w : Worker Disk) → Moves env w (cancel_queued env j w).1
  unfolding cancel_queued
  cancel_queued-Moves old w =
      let v : Worker Disk = record w { clock_reads = w.clock_reads + 1 } in
      commit_after env w v _ none refl refl tt

  cancel_running-Moves : (j : Job) (w : Worker Disk) → Moves env w (cancel_running env j w).1
  unfolding cancel_running
  cancel_running-Moves old w =
      let j : Job = record old { state = cancelling } in
      let c = commit env (job_event job_state j ∷ queue_event w.state.queue ∷ []) none w in
      Moves-trans env w c.1 _ (commit-Moves env _ none w tt) (after j c.0 c.1)
    where
      after :
          (j : Job) (e : Option Error) (u : Worker Disk)
          → Moves env u (
              let x : Outcome Job × Worker Disk = elim e [
                | some f ↦ (err f, u)
                | none ↦ (ok j, record u { cancel = end_context u.cancel })
              ] in
              x.1)
      after j (some f) u = Moves-quiet env u u refl refl
      after j none u = Moves-quiet env u (record u { cancel = end_context u.cancel }) refl refl

  cancel_found-Moves : (j : Job) (w : Worker Disk) → Moves env w (cancel_found env j w).1
  unfolding cancel_found
  cancel_found-Moves j w = go (terminal j.state || j.state == cancelling) (j.state == queued)
    where
      go :
          (settled waiting : Bool)
          → Moves env w
              (if settled
                then (ok j, w)
                else if waiting
                then cancel_queued env j w
                else cancel_running env j w).1
      go true waiting = Moves-quiet env w w refl refl
      go false true = cancel_queued-Moves j w
      go false false = cancel_running-Moves j w

  cancel_at-Moves : (o : Option Job) (w : Worker Disk) → Moves env w (cancel_at env o w).1
  unfolding cancel_at
  cancel_at-Moves none w = Moves-quiet env w w refl refl
  cancel_at-Moves (some j) w = cancel_found-Moves j w

  cancel_unless-Moves :
      (e : Option Error) (id : JobId) (w : Worker Disk) → Moves env w (cancel_unless env e id w).1
  unfolding cancel_unless
  cancel_unless-Moves (some e) id w = Moves-quiet env w w refl refl
  cancel_unless-Moves none id w = cancel_at-Moves (find_job id w.state.jobs) w

  pub cancel_job-Moves :
      (ended : Bool) (id : JobId) (w : Worker Disk) → Moves env w (cancel_job env ended id w).1
  unfolding cancel_job
  cancel_job-Moves true id w = Moves-quiet env w w refl refl
  cancel_job-Moves false id w = cancel_unless-Moves (available w) id w

  change_paused-Moves : (b : Bool) (w : Worker Disk) → Moves env w (change_paused env b w).1
  unfolding change_paused
  change_paused-Moves b w = go (w.state.queue.paused != b)
    where
      events : List Event
      events = let q = w.state.queue in queue_event (record q { paused = b }) ∷ []

      go :
          (changes : Bool) → Moves env w (if changes then commit env events none w else (none, w)).1
      go true = commit-Moves env events none w tt
      go false = Moves-quiet env w w refl refl

  pause_then_dispatch-Moves :
      (r : Option Error × Worker Disk) → Moves env r.1 (pause_then_dispatch env r).1
  unfolding pause_then_dispatch
  pause_then_dispatch-Moves (some e, w) = Moves-quiet env w w refl refl
  pause_then_dispatch-Moves (none, w) = dispatch-Moves env w

  pause_unless-Moves :
      (e : Option Error) (b : Bool) (w : Worker Disk) → Moves env w (pause_unless env e b w).1
  unfolding pause_unless
  pause_unless-Moves (some e) b w = Moves-quiet env w w refl refl
  pause_unless-Moves none b w =
      Moves-trans env w (change_paused env b w).1 _ (change_paused-Moves b w)
        (pause_then_dispatch-Moves (change_paused env b w))

  pub set_queue_paused-Moves :
      (ended b : Bool) (w : Worker Disk) → Moves env w (set_queue_paused env ended b w).1
  unfolding set_queue_paused
  set_queue_paused-Moves true b w = Moves-quiet env w w refl refl
  set_queue_paused-Moves false b w = pause_unless-Moves (available w) b w

  pub begin_shutdown-Moves : (w : Worker Disk) → Moves env w (begin_shutdown env w)
  unfolding begin_shutdown
  begin_shutdown-Moves w = go w.stopping w.cancel
    where
      w' : Worker Disk
      w' = record w { stopping = true }

      go :
          (b : Bool) (c : Option Generation)
          → Moves env w (
              if b then w else elim c [
                | some g ↦ record w' { cancel = end_context w.cancel }
                | none ↦ close_store env w'
              ])
      go true c = Moves-quiet env w w refl refl
      go false (some g) = Moves-quiet env w (record w' { cancel = end_context w.cancel }) refl refl
      go false none =
          Moves-trans env w w' _ (Moves-quiet env w w' refl refl) (close_store-Moves env w')
