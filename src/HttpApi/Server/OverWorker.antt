-- ===== src/HttpApi/Server/OverWorker.antt =====
-- The server in front of the worker.
use task_worker.HttpApi.Server.Effects.{ReadsOnly}
use task_worker.Jobs.{JobId}
use task_worker.Worker.Moves.{IsLinked}
use task_worker.State.Invariant.{IsConsistent}
use task_worker.HttpApi.Server.Cases.{serve-cases}
use task_worker.HttpApi.Ids.{parse_cursor}
use task_worker.Text.{Text}
use task_worker.State.History.{Keeps}
use task_worker.HttpApi.Server.{Address, Decoders, HttpRequest, Response}
use task_worker.HttpApi.Server.Handle.{
  serve_get, begin_events, serve_post, watch_after, watch_snapshot, decoded, serve,
}
use task_worker.HttpApi.Routes.{Route}
use task_worker.Events.{Cursor, Snapshot}
use task_worker.Worker.Runs.{Run, here, then, watches, Run-safe, pauses, cancels, creates}
use task_worker.Base.{Bool, List, Option, false, none, some, true, ap, arith, refl, subst, sym, ◌≡◌}
use task_worker.HttpApi.Service.{Service}
use task_worker.Worker.Models.{Model, models}
use task_worker.Errors.{Outcome, err, ok}
use task_worker.Worker.{Worker, Env}
use task_worker.Worker.Create.{submit_job, retry_job, branch_job, Creation, create}
use task_worker.Worker.Commands.{CallFate, call, cancel_job, set_queue_paused, get_job, snapshot}
use task_worker.Watch.{watch, open_stream}

module _ {Disk : Type 0} (env : Env Disk) where
  -- The worker as a service. `fate` and `ended` say what happens to the caller's context, and
  -- `backend` and
  -- `encodes` what the backend answers.
  unfoldable pub worker_service :
      CallFate → Bool → Outcome (List Model) → Bool → Service (Worker Disk)
  unfolding call
  worker_service fate ended backend encodes = record {
    submit = λ c. call fate (submit_job env ended c);
    retry = λ c. call fate (retry_job env ended c);
    branch = λ c. call fate (branch_job env ended c);
    cancel = λ id. call fate (cancel_job env ended id);
    set_queue_paused = λ p. call fate (set_queue_paused env ended p);
    get_job = λ id. call fate (get_job ended id);
    snapshot = call fate (snapshot ended);
    watch = λ c. call fate (watch ended c);
    models = λ w. call fate (λ v. (models backend encodes, v)) w;
  }

  call_state_at :
      {A : Type 0} (fate : CallFate) (op : Worker Disk → Outcome A × Worker Disk) (w : Worker Disk)
      → (op w).1.state ≡ w.state
      → (call fate op w).1.state ≡ w.state
  unfolding call
  call_state_at CallFate.refused op w h = refl
  call_state_at CallFate.detached op w h = h
  call_state_at CallFate.answered op w h = h

  call-Run :
      {A : Type 0} (fate : CallFate) (op : Worker Disk → Outcome A × Worker Disk)
      (w u : Worker Disk)
      → Run env w u
      → ((v : Worker Disk) → Run env w v → Run env w (op v).1)
      → Run env w (call fate op u).1
  unfolding call
  call-Run CallFate.refused op w u r h = r
  call-Run CallFate.detached op w u r h = h u r
  call-Run CallFate.answered op w u r h = h u r

module _ {Disk : Type 0} (env : Env Disk) (fate : CallFate) (ended : Bool)
    (backend : Outcome (List Model)) (encodes : Bool) where
  abbrev service : Service (Worker Disk)
  service = worker_service env fate ended backend encodes

  get_job-same : (e : Bool) (id : JobId) (v : Worker Disk) → (get_job e id v).1 ≡ v
  unfolding get_job
  get_job-same true id v = refl
  get_job-same false id v = refl

  snapshot-Run : (w : Worker Disk) → Run env w (service.snapshot w).1
  unfolding worker_service snapshot
  snapshot-Run w = call-Run env fate (snapshot ended) w w here (λ v r. r)

  watch-Run : (c : Cursor) (w u : Worker Disk) → Run env w u → Run env w (service.watch c u).1
  unfolding worker_service
  watch-Run c w u r = call-Run env fate (watch ended c) w u r (λ v q. then q (watches ended c))

  got-Run : (route : Route) (w : Worker Disk) → Run env w (serve_get service route w).1
  unfolding serve_get worker_service get_job
  got-Run Route.health w = here
  got-Run Route.models w = call-Run env fate (λ v. (models backend encodes, v)) w w here (λ v r. r)
  got-Run Route.snapshot w = snapshot-Run w
  got-Run Route.jobs w = snapshot-Run w
  got-Run Route.queue w = snapshot-Run w
  got-Run (Route.job_at id) w =
      call-Run env fate (get_job ended id) w w here
        (λ v r. subst (Run env w) (sym (get_job-same ended id v)) r)
  got-Run _ w = here

  decoded-Run :
      {A : Type 0} (o : Outcome A) (k : A → Worker Disk → Response × Worker Disk) (w : Worker Disk)
      → ((c : A) → Run env w (k c w).1)
      → Run env w (decoded service o k w).1
  decoded-Run (ok c) k w h = h c
  decoded-Run (err e) k w h = here

  create-Run : (c : Creation) (w : Worker Disk) → Run env w (call fate (create env ended c) w).1
  create-Run c w = call-Run env fate (create env ended c) w w here (λ v r. then r (creates ended c))

  pause-Run :
      (p : Bool) (w : Worker Disk) → Run env w (call fate (set_queue_paused env ended p) w).1
  pause-Run p w =
      call-Run env fate (set_queue_paused env ended p) w w here (λ v r. then r (pauses ended p))

  posted-Run :
      (d : Decoders) (route : Route) (b : Text) (w : Worker Disk)
      → Run env w (serve_post service d route b w).1
  unfolding serve_post worker_service submit_job retry_job branch_job
  posted-Run d Route.submit b w = decoded-Run (d.submit b) _ w (λ c. create-Run _ w)
  posted-Run d Route.retry b w = decoded-Run (d.retry b) _ w (λ c. create-Run _ w)
  posted-Run d Route.branch b w = decoded-Run (d.branch b) _ w (λ c. create-Run _ w)
  posted-Run d Route.pause b w = decoded-Run (d.nothing b) _ w (λ c. pause-Run true w)
  posted-Run d Route.resume b w = decoded-Run (d.nothing b) _ w (λ c. pause-Run false w)
  posted-Run d (Route.cancel_at id) b w =
      decoded-Run (d.nothing b) _ w (λ c.
        call-Run env fate (cancel_job env ended id) w w here (λ v r. then r (cancels ended id)))
  posted-Run d _ b w = here

  watch_after-Run : (o : Outcome Cursor) (w : Worker Disk) → Run env w (watch_after service o w).1
  unfolding watch_after
  watch_after-Run (err e) w = here
  watch_after-Run (ok c) w = watch-Run c w w here

  watch_snapshot-Run :
      (m : Outcome Snapshot × Worker Disk) (w : Worker Disk)
      → Run env w m.1
      → Run env w (watch_snapshot service m).1
  unfolding watch_snapshot
  watch_snapshot-Run (err e, u) w r = r
  watch_snapshot-Run (ok x, u) w r = watch-Run x.cursor w u r

  watched-Run :
      (o : Outcome (Option Text)) (w : Worker Disk) → Run env w (begin_events service o w).1
  unfolding begin_events
  watched-Run (err e) w = here
  watched-Run (ok none) w = watch_snapshot-Run (service.snapshot w) w (snapshot-Run w)
  watched-Run (ok (some raw)) w = watch_after-Run (parse_cursor raw) w

  -- One request makes at most operations of the worker: whatever it is, and whatever becomes of its
  -- context, the worker is left where a run of operations leads. So a worker that is consistent stays
  -- so, its receipts keep naming its jobs, and no job is lost or rewritten.
  pub serve-safe :
      (a : Address) (assets : Text → Option (Text × Text)) (d : Decoders) (r : HttpRequest)
      (w : Worker Disk)
      → IsConsistent w.state
      → IsLinked w
      → IsConsistent (serve service a assets d r w).1.state
        × IsLinked (serve service a assets d r w).1
        × Keeps w.state.jobs (serve service a assets d r w).1.state.jobs
  serve-safe a assets d r w c l = Run-safe env w _ c l (
      serve-cases service a r w (Run env w)
        (record {
          same = here;
          got = λ route. got-Run route w;
          watched = λ o. watched-Run o w;
          posted = λ d route b early typed m. posted-Run d route b w;
        })
        assets d)

  call-state :
      {A : Type 0} (op : Worker Disk → Outcome A × Worker Disk) (w : Worker Disk)
      → (op w).1.state ≡ w.state
      → (call fate op w).1.state ≡ w.state
  call-state op w h = call_state_at env fate op w h

  watch-state : (e : Bool) (c : Cursor) (w : Worker Disk) → (watch e c w).1.state ≡ w.state
  unfolding watch open_stream
  watch-state e c w = ground arith

  -- The reading operations of the worker leave its snapshot alone.
  pub worker-ReadsOnly : ReadsOnly service (λ (w : Worker Disk). w.state)
  unfolding worker_service snapshot
  worker-ReadsOnly = record {
    get_job = λ id w. call-state (get_job ended id) w (ap (λ v. v.state) (get_job-same ended id w));
    snapshot = λ w. call-state (snapshot ended) w refl;
    models = λ w. call-state (λ v. (models backend encodes, v)) w refl;
    watch = λ c w. call-state (watch ended c) w (watch-state ended c w);
  }
