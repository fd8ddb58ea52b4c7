-- ===== src/Worker/Backend.antt =====
-- `emit`, `complete` and `publicBackendError` of internal/core/worker.go: what the goroutine of a
-- generation reports to the worker.
use Prim.Native.Nat.{min}
use task_worker.Events.{job_result, OutputDelta}
use task_worker.Text.{Text, byte_at, rune_start, valid_string}
use task_worker.Worker.Dispatch.{dispatch}
use task_worker.Encoding.{Encoding}
use task_worker.State.Reducer.{append_output, check_job_fits}
use task_worker.State.{empty_result, find_job, max_chunk_bytes, max_output_bytes, metadata_reserve}
use task_worker.Jobs.{
  Job, JobId, JobState, Result, cancelling, failed, succeeded, JobState-comparable,
}
use task_worker.Worker.Lifecycle.{close_store, queue_idle}
use task_worker.Worker.{
  Env, Worker, commit, end_context, job_event, output_event, poison, queue_event, pos,
}
use task_worker.Errors.{Error, ErrorCode, Fault, as_fault, fault, plain, faulted, err, ok}
use task_worker.Base.{
  Bool, Option, String, [], drop, if◌then◌else◌, is_none, length, ltb, none, not, some, suc, take,
  true, zero, ℕ, ◌&&◌, ◌++◌, ◌+◌, ◌/◌, ◌==◌, ◌||◌, ◌∷◌,
}

abbrev pub backend_failed : Fault
backend_failed = fault ErrorCode.backend_failure "backend operation failed"

-- Only the classification of a backend error and its retry advice are published.
public_fault : ErrorCode → Bool → Fault
public_fault ErrorCode.invalid_request retry =
    fault ErrorCode.invalid_request "backend rejected the request"
public_fault ErrorCode.unsupported retry =
    fault ErrorCode.unsupported "backend does not support the requested operation or option"
public_fault ErrorCode.limit_exceeded retry =
    fault ErrorCode.limit_exceeded "backend or worker resource limit exceeded"
public_fault ErrorCode.backend_unavailable retry = record {
  code = ErrorCode.backend_unavailable;
  message = "backend is unavailable";
  retryable = retry;
  details = [];
}
public_fault ErrorCode.backend_failure retry = record {
  code = ErrorCode.backend_failure;
  message = "backend operation failed";
  retryable = retry;
  details = [];
}
public_fault _ retry = backend_failed

unfoldable pub public_backend_error : Error → Fault
unfolding public_fault
public_backend_error e = elim (as_fault e) [
  | none ↦ backend_failed
  | some f ↦ public_fault f.code f.retryable
]

-- `for n < len(text) && !utf8.RuneStart(text[n]) { n-- }`.
unfoldable pub chunk_end : Text → ℕ → ℕ
chunk_end text zero = zero
chunk_end text (suc n) =
    let back = chunk_end text n in
    if ltb (suc n) (length text) && not (rune_start (byte_at (suc n) text)) then back else suc n

abbrev pub chunk_size : Text → ℕ
chunk_size text = chunk_end text (min (length text) max_chunk_bytes)

abbrev too_large : Option Text → Bool
too_large none = true
too_large (some b) = ltb (metadata_reserve / 2) (length b)

-- Whether the metadata of a backend's result is refused: it cannot be encoded, is too large, or
-- is not UTF-8.
unfoldable pub bad_metadata : Encoding → Result → Bool
bad_metadata enc r =
    too_large (enc.result (record r { text = [] }))
    || not (valid_string r.finish_reason)
    || not (valid_string r.effective_model)

abbrev pub ended_by : ErrorCode → String → JobState → Job → Job
ended_by code message s j = record j { state = s; error = some (fault code message) }

-- The `switch` of `complete`.
unfoldable pub settle : Bool → Option Error → Option Error → Job → Job
settle stopping output_err backend_err j =
    if stopping
    then ended_by ErrorCode.interrupted "service shutdown interrupted inference"
        JobState.interrupted j
    else if j.state == cancelling
    then ended_by ErrorCode.cancelled "job cancelled" JobState.cancelled j
    else elim output_err [
      | some e ↦ record j { state = failed; error = some (public_backend_error e) }
      | none ↦ elim backend_err [
        | some e ↦ record j { state = failed; error = some (public_backend_error e) }
        | none ↦ record j { state = succeeded }
      ]
    ]

module _ {Disk : Type 0} where
  -- `w.cancel()` panics when there is no context to end.
  unfoldable pub fail_output : Error → Worker Disk → Option Error × Worker Disk
  fail_output e w = (
    some e,
    record w {
      output_err = some e;
      cancel = end_context w.cancel;
      panicked = w.panicked || is_none w.cancel;
    },
  )

module _ {Disk : Type 0} (env : Env Disk) where
  -- The checks on one chunk, and its commit.
  unfoldable pub commit_chunk : Job → Text → Worker Disk → Option Error × Worker Disk
  commit_chunk j chunk w =
      let delta : OutputDelta = record {
        offset_bytes = pos (length j.result.text);
        text = chunk;
      } in
      if ltb max_output_bytes (length (j.result.text ++ chunk))
      then (some (faulted (fault ErrorCode.limit_exceeded "output limit exceeded")), w)
      else elim (check_job_fits env.encoding (append_output j chunk)) [
        | err e ↦ (some e, w)
        | ok _ ↦ commit env (output_event j.id delta ∷ []) none w
      ]

  unfoldable pub emit_chunk : JobId → Text → Worker Disk → Option Error × Worker Disk
  emit_chunk id chunk w = elim (find_job id w.state.jobs) [
    | none ↦ (some (plain "nil pointer dereference"), record w { panicked = true })
    | some j ↦
        let (e, w') = commit_chunk j chunk w in
        elim e [ some f ↦ fail_output f w' | none ↦ (none, w') ]
  ]

  -- `for len(text) > 0`, on fuel: a chunk of valid text has at least one byte.
  unfoldable pub emit_chunks : ℕ → JobId → Text → Worker Disk → Option Error × Worker Disk
  emit_chunks zero id text w = (none, w)
  emit_chunks (suc fuel) id [] w = (none, w)
  emit_chunks (suc fuel) id (b ∷ bs) w =
      let n = chunk_size (b ∷ bs) in
      let (e, w') = emit_chunk id (take n (b ∷ bs)) w in
      elim e [ some f ↦ (some f, w') | none ↦ emit_chunks fuel id (drop n (b ∷ bs)) w' ]

  unfoldable pub emit_text : JobId → Text → Worker Disk → Option Error × Worker Disk
  emit_text id text w =
      if not (valid_string text)
      then fail_output (faulted (fault ErrorCode.backend_failure "backend output is not UTF-8")) w
      else emit_chunks (length text) id text w

  -- A fatal error or an earlier output error refuses the text.
  unfoldable pub emit_unless :
      Option Error → Option Error → JobId → Text → Worker Disk → Option Error × Worker Disk
  emit_unless (some e) o id text w = (some e, w)
  emit_unless none (some e) id text w = (some e, w)
  emit_unless none none id text w = emit_text id text w

  unfoldable pub emit : JobId → Text → Worker Disk → Option Error × Worker Disk
  unfolding emit_unless
  emit id text w = emit_unless w.fatal w.output_err id text w

  -- The record that `complete` commits.
  unfoldable pub completed : Worker Disk → Job → Result → Option Error → Job
  completed w old r backend_err =
      let rejected = bad_metadata env.encoding r in
      let meta = if rejected then empty_result else r in
      let outcome =
        if rejected
        then some
            (faulted (fault ErrorCode.backend_failure "invalid or oversized backend metadata"))
        else backend_err in
      settle w.stopping w.output_err outcome (record old {
        finished_at = some (env.now w.clock_reads);
        result = record meta { text = old.result.text };
      })

  unfoldable pub finish_job : JobId → Result → Option Error → Worker Disk → Worker Disk
  finish_job id r backend_err w = elim (find_job id w.state.jobs) [
    | none ↦ record w { panicked = true }
    | some old ↦
        let (e, w') =
          commit env
            (job_event job_result (completed w old r backend_err)
              ∷ queue_event (queue_idle w.state.queue)
              ∷ [])
            none (record w { clock_reads = w.clock_reads + 1 }) in
        elim e [ some f ↦ poison f w' | none ↦ w' ]
  ]

  unfoldable pub complete : JobId → Result → Option Error → Worker Disk → Worker Disk
  complete id r backend_err w =
      let w0 = record w { cancel = none } in
      let w1 = if is_none w.fatal then finish_job id r backend_err w0 else w0 in
      if w1.stopping then close_store env w1 else dispatch env w1
