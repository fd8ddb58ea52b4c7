-- ===== src/Worker/Runs.antt =====
-- Interleavings: what clients, the backend and a shutdown do to the worker, in any order.
use task_worker.State.Invariant.{IsConsistent}
use task_worker.Text.{Text}
use task_worker.State.Reach.{Reach-IsConsistent, Reach-Keeps}
use task_worker.Worker.Steps.{create-Moves}
use task_worker.Worker.Commands.{cancel_job, set_queue_paused}
use task_worker.Worker.Steps.Reports.{complete-Moves, emit-Moves}
use task_worker.Worker.Moves.{IsLinked, Moves, Moves-quiet, Moves-trans}
use task_worker.Jobs.{JobId, Result}
use task_worker.Worker.Backend.{complete, emit}
use task_worker.Worker.Lifecycle.{begin_shutdown}
use task_worker.Worker.Steps.Control.{
  begin_shutdown-Moves, cancel_job-Moves, set_queue_paused-Moves,
}
use task_worker.Worker.{Env, Worker}
use task_worker.Worker.Create.{Creation, create}
use task_worker.Errors.{Error}
use task_worker.Watch.{watch, next, close_stream}
use task_worker.Events.{Cursor}
use task_worker.Worker.Steps.Observers.{watch-Moves, next-Moves, close_stream-Moves}
use task_worker.Base.{Bool, Option, refl, ℕ}
use task_worker.State.History.{Keeps}

module _ {Disk : Type 0} (env : Env Disk) where
  -- One operation. `emits` and `completes` are the reports of a generation, `watches`, `polls` and
  -- `closes` what an observer does.
  pub data Step (w : Worker Disk) : Worker Disk → Type 0 where
    creates : (ended : Bool) (c : Creation) → Step w (create env ended c w).1
    cancels : (ended : Bool) (id : JobId) → Step w (cancel_job env ended id w).1
    pauses : (ended paused : Bool) → Step w (set_queue_paused env ended paused w).1
    emits : (id : JobId) (text : Text) → Step w (emit env id text w).1
    completes : (id : JobId) (r : Result) (e : Option Error) → Step w (complete env id r e w)
    shuts_down : Step w (begin_shutdown env w)
    watches : (ended : Bool) (c : Cursor) → Step w (watch ended c w).1
    polls : (ended ended_after : Bool) (id : ℕ) → Step w (next env ended ended_after id w).1
    closes : (id : ℕ) → Step w (close_stream id w)

  pub data Run (w : Worker Disk) : Worker Disk → Type 0 where
    here : Run w w
    then : {u v : Worker Disk} → Run w u → Step u v → Run w v

  pub Step-Moves : {w v : Worker Disk} → Step w v → Moves env w v
  Step-Moves {w} (creates ended c) = create-Moves env ended c w
  Step-Moves {w} (cancels ended id) = cancel_job-Moves env ended id w
  Step-Moves {w} (pauses ended paused) = set_queue_paused-Moves env ended paused w
  Step-Moves {w} (emits id text) = emit-Moves env id text w
  Step-Moves {w} (completes id r e) = complete-Moves env id r e w
  Step-Moves {w} shuts_down = begin_shutdown-Moves env w
  Step-Moves {w} (watches ended c) = watch-Moves env ended c w
  Step-Moves {w} (polls ended after id) = next-Moves env ended after id w
  Step-Moves {w} (closes id) = close_stream-Moves env id w

  pub Run-Moves : {w v : Worker Disk} → Run w v → Moves env w v
  Run-Moves {w} here = Moves-quiet env w w refl refl
  Run-Moves {w} {v} (then {u} r s) = Moves-trans env w u v (Run-Moves r) (Step-Moves s)

  -- From a worker whose snapshot is consistent and whose receipts name retained jobs, whatever
  -- operations are interleaved and whatever the store, the clock and the backend answer: the snapshot
  -- stays consistent, every receipt names a retained job, and no job is lost or rewritten: each keeps its identity, its request and its output so far, moves along the state
  -- machine, and is final once terminal.
  pub Run-safe :
      (w v : Worker Disk)
      → IsConsistent w.state
      → IsLinked w
      → Run w v
      → IsConsistent v.state × IsLinked v × Keeps w.state.jobs v.state.jobs
  Run-safe w v c l r =
      let m = Run-Moves r in
      (Reach-IsConsistent env.encoding c m.reach, m.linked l, Reach-Keeps env.encoding m.reach)
