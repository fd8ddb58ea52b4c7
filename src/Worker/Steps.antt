-- ===== src/Worker/Steps.antt =====
-- Each operation of the worker, one by one, is such a move.
pub mod Reports
pub mod Control
pub mod Observers
use task_worker.Worker.Plans.{plan_create-inv}
use task_worker.Events.{Event, Receipt, job_state, job_accepted}
use task_worker.Errors.{Error, Outcome, err, ok}
use task_worker.State.{find_job}
use task_worker.Worker.Dispatch.{
  dispatch, queue_started, start_job, started, started_job, start_first,
}
use task_worker.Worker.{Env, Worker, commit, find_receipt, job_event, poison, queue_event}
use task_worker.Worker.Moves.{IsFresh, Moves, Moves-quiet, Moves-trans, commit-Moves}
use task_worker.Jobs.{Job, JobId}
use task_worker.Base.{
  ◌≡◌, Bool-cases, List, Option, Option-cases, [], inl, inr, is_some, none, refl, some, true, ◌+◌,
  ◌||◌, ◌∷◌, Bool, false,
}
use task_worker.Worker.Create.{
  admit, queue_admitted, return_job, Creation, Plan, create, follow_plan, plan_create, existing,
  admitted,
}

module _ {Disk : Type 0} (env : Env Disk) where
  pub poison-Moves : (e : Error) (w : Worker Disk) → Moves env w (poison e w)
  unfolding poison
  poison-Moves e w = Moves-quiet env w (poison e w) refl refl

  -- A commit after a change of the worker that touches neither the state nor the receipts.
  pub commit_after :
      (w v : Worker Disk) (events : List Event) (rc : Option Receipt)
      → v.state ≡ w.state
      → v.receipts ≡ w.receipts
      → IsFresh env rc v
      → Moves env w (commit env events rc v).1
  commit_after w v events rc s r f =
      Moves-trans env w v (commit env events rc v).1 (Moves-quiet env w v s r)
        (commit-Moves env events rc v f)

  start_job-Moves :
      (j : Job) (rest : List JobId) (w : Worker Disk) → Moves env w (start_job env j rest w)
  unfolding start_job
  start_job-Moves old rest w =
      let j = started_job (env.now w.clock_reads) old in
      let v : Worker Disk = record w { clock_reads = w.clock_reads + 1 } in
      let events =
        job_event job_state j ∷ queue_event (queue_started w.state.queue j.id rest) ∷ [] in
      let r = commit env events none v in
      Moves-trans env w r.1 _ (commit_after w v events none refl refl tt) (after j r.0 r.1)
    where
      after :
          (j : Job) (e : Option Error) (u : Worker Disk)
          → Moves env u (elim e [ some f ↦ poison f u | none ↦ started j u ])
      after j (some f) u = poison-Moves f u
      after j none u = Moves-quiet env u (started j u) refl refl

  start_first-Moves : (ids : List JobId) (w : Worker Disk) → Moves env w (start_first env ids w)
  unfolding start_first
  start_first-Moves [] w = Moves-quiet env w w refl refl
  start_first-Moves (id ∷ rest) w = elim (Option-cases (find_job id w.state.jobs)) [
    | inl e ↦ rw (e, start_first) (Moves-quiet env w (record w { panicked = true }) refl refl)
    | inr (j, e) ↦ rw (e, start_first) (start_job-Moves j rest w)
  ]

  pub dispatch-Moves : (w : Worker Disk) → Moves env w (dispatch env w)
  unfolding dispatch
  dispatch-Moves w =
      elim (Bool-cases
        (w.stopping || is_some w.fatal || w.state.queue.paused || is_some w.state.queue.active)) [
          | inl e ↦ rw (e, dispatch) (Moves-quiet env w w refl refl)
          | inr e ↦ rw (e, dispatch) (start_first-Moves w.state.queue.pending w)
        ]

  return_job-Moves : (id : JobId) (w : Worker Disk) → Moves env w (return_job id w).1
  unfolding return_job
  return_job-Moves id w = elim (Option-cases (find_job id w.state.jobs)) [
    | inl e ↦ rw (e, return_job) (Moves-quiet env w (record w { panicked = true }) refl refl)
    | inr (j, e) ↦ rw (e, return_job) (Moves-quiet env w w refl refl)
  ]

  admit-Moves :
      (j : Job) (rc : Receipt) (w : Worker Disk)
      → find_receipt rc.key w.receipts ≡ none
      → Moves env w (admit env j rc w).1
  unfolding admit
  admit-Moves j rc w f =
      let v : Worker Disk = record w {
        clock_reads = w.clock_reads + 1;
        random_reads = w.random_reads + 1;
      } in
      let events =
        job_event job_accepted j ∷ queue_event (queue_admitted w.state.queue j.id) ∷ [] in
      let r = commit env events (some rc) v in
      Moves-trans env w r.1 _ (commit_after w v events (some rc) refl refl f) (after r.0 r.1)
    where
      after :
          (e : Option Error) (u : Worker Disk)
          → Moves env u (
              let x : Outcome Job × Worker Disk = elim e [
                | some f ↦ (err f, u)
                | none ↦ return_job j.id (dispatch env u)
              ] in
              x.1)
      after (some f) u = Moves-quiet env u u refl refl
      after none u =
          Moves-trans env u (dispatch env u) _ (dispatch-Moves u)
            (return_job-Moves j.id (dispatch env u))

  pub create-Moves :
      (ended : Bool) (c : Creation) (w : Worker Disk) → Moves env w (create env ended c w).1
  unfolding create
  create-Moves true c w = Moves-quiet env w w refl refl
  create-Moves false c w = go (plan_create env w c) refl
    where
      go : (p : Outcome Plan) → plan_create env w c ≡ p → Moves env w (follow_plan env p w).1
      go (err e) h = Moves-quiet env w w refl refl
      go (ok (existing id)) h = return_job-Moves id w
      go (ok (admitted j r)) h = admit-Moves j r w (plan_create-inv env w c j r h).unknown
