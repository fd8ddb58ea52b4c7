-- ===== src/Worker/Steps/Reports.antt =====
-- The reports of a running generation.
use task_worker.Worker.Dispatch.{dispatch}
use task_worker.State.Reducer.{append_output, check_job_fits}
use task_worker.Jobs.{Job, JobId, Result}
use task_worker.Text.{Text, valid_string}
use task_worker.Worker.Lifecycle.{queue_idle, close_store}
use task_worker.Worker.Steps.{commit_after, poison-Moves, dispatch-Moves}
use task_worker.Events.{OutputDelta, job_result}
use task_worker.Worker.{Env, Worker, commit, job_event, output_event, poison, queue_event, pos}
use task_worker.Worker.Moves.{Moves, Moves-quiet, Moves-trans, commit-Moves}
use task_worker.State.{find_job, max_output_bytes}
use task_worker.Errors.{Error, Outcome, err, ok}
use task_worker.Worker.Backend.{
  chunk_size, commit_chunk, completed, emit, emit_chunk, emit_chunks, fail_output, finish_job,
  complete, emit_text, emit_unless,
}
use task_worker.Base.{
  Bool, Bool-cases, Option, Option-cases, [], drop, false, if◌then◌else◌, inl, inr, length, ltb,
  none, not, refl, some, suc, take, true, zero, ℕ, ◌++◌, ◌+◌, ◌∷◌, arith, is_none,
}

module _ {Disk : Type 0} (env : Env Disk) where
  commit_chunk-Moves :
      (j : Job) (chunk : Text) (w : Worker Disk) → Moves env w (commit_chunk env j chunk w).1
  unfolding commit_chunk
  commit_chunk-Moves j chunk w =
      elim (Bool-cases (ltb max_output_bytes (length (j.result.text ++ chunk)))) [
        | inl e ↦ rw (e, commit_chunk) (Moves-quiet env w w refl refl)
        | inr e ↦
            rw (e, commit_chunk) (checked (check_job_fits env.encoding (append_output j chunk)))
      ]
    where
      delta : OutputDelta
      delta = record { offset_bytes = pos (length j.result.text); text = chunk }

      checked :
          (o : Outcome (Unit {0}))
          → Moves env w (
              let x : Option Error × Worker Disk = elim o [
                | err e ↦ (some e, w)
                | ok _ ↦ commit env (output_event j.id delta ∷ []) none w
              ] in
              x.1)
      checked (err e) = Moves-quiet env w w refl refl
      checked (ok u) = commit-Moves env (output_event j.id delta ∷ []) none w tt

  fail_output-Moves : (e : Error) (w : Worker Disk) → Moves env w (fail_output e w).1
  unfolding fail_output
  fail_output-Moves e w = Moves-quiet env w (fail_output e w).1 refl refl

  emit_chunk-Moves :
      (id : JobId) (chunk : Text) (w : Worker Disk) → Moves env w (emit_chunk env id chunk w).1
  unfolding emit_chunk
  emit_chunk-Moves id chunk w = elim (Option-cases (find_job id w.state.jobs)) [
    | inl e ↦ rw (e, emit_chunk) (Moves-quiet env w (record w { panicked = true }) refl refl)
    | inr (j, e) ↦
        let r = commit_chunk env j chunk w in
        rw (e, emit_chunk) (Moves-trans env w r.1 _ (commit_chunk-Moves j chunk w) (after r.0 r.1))
  ]
    where
      after :
          (e : Option Error) (u : Worker Disk)
          → Moves env u (
              let x : Option Error × Worker Disk = elim e [
                | some f ↦ fail_output f u
                | none ↦ (none, u)
              ] in
              x.1)
      after (some f) u = fail_output-Moves f u
      after none u = Moves-quiet env u u refl refl

  pub emit_chunks-Moves :
      (fuel : ℕ) (id : JobId) (text : Text) (w : Worker Disk)
      → Moves env w (emit_chunks env fuel id text w).1
  unfolding emit_chunks
  emit_chunks-Moves zero id text w = Moves-quiet env w w refl refl
  emit_chunks-Moves (suc fuel) id [] w = Moves-quiet env w w refl refl
  emit_chunks-Moves (suc fuel) id (b ∷ bs) w =
      let n = chunk_size (b ∷ bs) in
      let r = emit_chunk env id (take n (b ∷ bs)) w in
      Moves-trans env w r.1 _ (emit_chunk-Moves id (take n (b ∷ bs)) w)
        (after r.0 r.1 (emit_chunks-Moves fuel id (drop n (b ∷ bs)) r.1))
    where
      after :
          (e : Option Error) (u : Worker Disk)
          → Moves env u (emit_chunks env fuel id (drop (chunk_size (b ∷ bs)) (b ∷ bs)) u).1
          → Moves env u (
              let x : Option Error × Worker Disk = elim e [
                | some f ↦ (some f, u)
                | none ↦ emit_chunks env fuel id (drop (chunk_size (b ∷ bs)) (b ∷ bs)) u
              ] in
              x.1)
      after (some f) u m = Moves-quiet env u u refl refl
      after none u m = m

  emit_text-Moves :
      (id : JobId) (text : Text) (w : Worker Disk) → Moves env w (emit_text env id text w).1
  unfolding emit_text
  emit_text-Moves id text w = elim (Bool-cases (not (valid_string text))) [
    | inl e ↦ rw (e, emit_text) (fail_output-Moves _ w)
    | inr e ↦ rw (e, emit_text) (emit_chunks-Moves (length text) id text w)
  ]

  emit_unless-Moves :
      (f o : Option Error) (id : JobId) (text : Text) (w : Worker Disk)
      → Moves env w (emit_unless env f o id text w).1
  unfolding emit_unless
  emit_unless-Moves (some e) o id text w = Moves-quiet env w w refl refl
  emit_unless-Moves none (some e) id text w = Moves-quiet env w w refl refl
  emit_unless-Moves none none id text w = emit_text-Moves id text w

  pub emit-Moves : (id : JobId) (text : Text) (w : Worker Disk) → Moves env w (emit env id text w).1
  unfolding emit
  emit-Moves id text w = emit_unless-Moves w.fatal w.output_err id text w

  finish_job-Moves :
      (id : JobId) (r : Result) (e : Option Error) (w : Worker Disk)
      → Moves env w (finish_job env id r e w)
  unfolding finish_job
  finish_job-Moves id r e w = elim (Option-cases (find_job id w.state.jobs)) [
    | inl m ↦ rw (m, finish_job) (Moves-quiet env w (record w { panicked = true }) refl refl)
    | inr (old, m) ↦
        let v : Worker Disk = record w { clock_reads = w.clock_reads + 1 } in
        let events =
          job_event job_result (completed env w old r e)
          ∷ queue_event (queue_idle w.state.queue)
          ∷ [] in
        let c = commit env events none v in
        rw (m, finish_job)
          (Moves-trans env w c.1 _ (commit_after env w v events none refl refl tt) (after c.0 c.1))
  ]
    where
      after :
          (o : Option Error) (u : Worker Disk)
          → Moves env u (elim o [ some f ↦ poison f u | none ↦ u ])
      after (some f) u = poison-Moves env f u
      after none u = Moves-quiet env u u refl refl

  pub close_store-Moves : (w : Worker Disk) → Moves env w (close_store env w)
  unfolding close_store
  close_store-Moves w = elim (Bool-cases w.closed) [
    | inl e ↦ Moves-quiet env w (close_store env w) (ground arith) (ground arith)
    | inr e ↦ Moves-quiet env w (close_store env w) (ground arith) (ground arith)
  ]

  next_or_close :
      (w : Worker Disk) → Moves env w (if w.stopping then close_store env w else dispatch env w)
  next_or_close w = go w.stopping
    where
      go : (b : Bool) → Moves env w (if b then close_store env w else dispatch env w)
      go true = close_store-Moves w
      go false = dispatch-Moves env w

  pub complete-Moves :
      (id : JobId) (r : Result) (e : Option Error) (w : Worker Disk)
      → Moves env w (complete env id r e w)
  unfolding complete
  complete-Moves id r e w =
      let w0 : Worker Disk = record w { cancel = none } in
      let w1 = if is_none w.fatal then finish_job env id r e w0 else w0 in
      Moves-trans env w w1 _
        (Moves-trans env w w0 w1 (Moves-quiet env w w0 refl refl) (ended (is_none w.fatal) w0))
        (next_or_close w1)
    where
      ended : (b : Bool) (v : Worker Disk) → Moves env v (if b then finish_job env id r e v else v)
      ended true v = finish_job-Moves id r e v
      ended false v = Moves-quiet env v v refl refl
