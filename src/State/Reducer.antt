-- ===== src/State/Reducer.antt =====
-- `ApplyCommit` of internal/core/state.go: the checks of one transaction, event by event, and
-- the queue invariants at its end. Every refusal is the same fault.
pub mod Inversion
use task_worker.Base.{
  ℕ, zero, suc, ◌+◌, ◌^◌, ◌%◌, Bool, true, false, ◌&&◌, ◌||◌, not, Option, none, some, List, [],
  ◌∷◌, ◌++◌, ltb, leb, ◌==◌, ◌!=◌, if◌then◌else◌, length, all, is_some, is_none, ℕ-comparable,
  Bytes-comparable, Option-comparable, Bool-comparable, ◌*◌,
}
use task_worker.Base.Int.{pos, ℤ-comparable}
use task_worker.Text.{Text, valid_string, is_hex_digit}
use task_worker.Errors.{
  ErrorCode, Fault, fault, Error, faulted, Outcome, ok, err, ◌>>=◌, ◌>>◌, fail_if, or_fail, is_err,
  ErrorCode-comparable,
}
use task_worker.Jobs.{
  JobId, JobState, queued, running, cancelling, succeeded, Request, MessageRole, Message,
  Instructions, Relation, Lineage, Job, JobState-comparable, Request-comparable,
  Instructions-comparable, Lineage-comparable, Result-comparable,
}
use task_worker.Events.{
  Cursor, EventKind, Event, OutputDelta, QueueState, Snapshot, Receipt, Commit, Ids-comparable,
  EventKind-comparable, job_accepted, job_state, job_output, job_result, queue_state,
}
use task_worker.Encoding.{Encoding}
use task_worker.State.{
  max_pending, max_jobs, max_output_bytes, max_chunk_bytes, max_commit_bytes, metadata_reserve,
  max_uint64, terminal, is_active, is_queued, validate_request, compose, transition, empty_result,
  find_job, replace_job,
}

abbrev pub bad : Error
bad = faulted (fault ErrorCode.storage "invalid journal transaction")

-- What one pass of the loop over the events carries: the snapshot, and the id of the job that
-- the transaction has accepted, empty if none.
pub record Progress : Type 0 where
  pub snapshot : Snapshot
  pub accepted : JobId

abbrev pub count_if : Bool → ℕ
count_if true = 1
count_if false = 0

unfoldable pub bad_header : Snapshot → Event → Bool
bad_header s e =
    s.cursor.sequence == max_uint64
    || e.cursor.store_id != s.cursor.store_id
    || e.cursor.sequence != (s.cursor.sequence + 1) % 2 ^ 64
    || e.at == 0
    || count_if (is_some e.job) + count_if (is_some e.output) + count_if (is_some e.queue) != 1

-- The checks on a job that every replacement and acceptance passes.
unfoldable pub bad_job : Event → Job → Bool
bad_job e j =
    j.id == []
    || e.job_id != j.id
    || is_err (validate_request j.request j.instructions)
    || j.created_at == 0
    || not (valid_string j.result.text)
    || ltb max_output_bytes (length j.result.text)
    || not (valid_string j.origin)
    || ltb 1024 (length j.origin)

-- The history that a branch inherits: the parent's, its prompt and its answer.
abbrev pub answer : Text → List Message
answer [] = []
answer (b ∷ bs) = record { role = MessageRole.assistant; content = b ∷ bs } ∷ []

unfoldable pub branch_instructions : Instructions → Job → Instructions
branch_instructions base parent = record base {
  history =
      base.history
      ++ (parent.instructions.history
          ++ (record { role = MessageRole.user; content = parent.instructions.prompt }
              ∷ answer parent.result.text));
}

unfoldable pub inherited : Relation → Request → Job → Outcome Instructions
inherited Relation.retry r parent = do fail_if (r != parent.request) bad; ok parent.instructions
inherited Relation.branch r parent = ok (branch_instructions (compose r) parent)
inherited (Relation.other t) r parent = err bad

unfoldable pub expected_instructions : Option Lineage → Request → List Job → Outcome Instructions
expected_instructions none r jobs = ok (compose r)
expected_instructions (some l) r jobs = do
  parent ← or_fail (find_job l.parent_id jobs) bad
  fail_if (not (terminal parent.state)) bad
  inherited l.relation r parent

-- A fresh job: queued, not started, with no output and no error.
unfoldable pub not_fresh : Job → Bool
not_fresh j =
    j.state != queued
    || is_some j.started_at
    || is_some j.finished_at
    || j.result != empty_result
    || is_some j.error

abbrev pub not_first : JobId → List JobId → Bool
not_first id [] = true
not_first id (p ∷ ps) = p != id

unfoldable pub starts_out_of_turn : QueueState → Job → Bool
starts_out_of_turn q j =
    j.state == running && (q.paused || is_some q.active || not_first j.id q.pending)

unfoldable pub rewrites_history : Job → Job → Bool
rewrites_history old j =
    old.request != j.request
    || old.instructions != j.instructions
    || old.lineage != j.lineage
    || old.origin != j.origin
    || old.created_at != j.created_at
    || old.result.text != j.result.text

unfoldable pub bad_times : EventKind → Job → Job → Bool
bad_times kind old j =
    terminal j.state != (kind == job_result)
    || terminal j.state != is_some j.finished_at
    || ((is_active j.state || is_some old.started_at) && is_none j.started_at)
    || (is_some old.started_at && old.started_at != j.started_at)

abbrev pub no_code : Option Fault → Bool
no_code none = true
no_code (some f) = f.code == ErrorCode.other []

unfoldable pub bad_result : Job → Job → Bool
bad_result old j =
    (not (terminal j.state) && (old.result != j.result || is_some j.error))
    || (j.state == succeeded && is_some j.error)
    || (terminal j.state && j.state != succeeded && no_code j.error)

unfoldable pub bad_receipt : JobId → Option Receipt → Bool
bad_receipt accepted none = accepted != []
bad_receipt accepted (some r) =
    accepted == []
    || r.job_id != accepted
    || length r.key == 0
    || ltb 128 (length r.key)
    || not (valid_string r.key)
    || length r.digest != 64
    || not (all is_hex_digit r.digest)

unfoldable pub pending_ids : List Job → List JobId
pending_ids [] = []
pending_ids (j ∷ js) = if is_queued j.state then j.id ∷ pending_ids js else pending_ids js

-- The loop that looks for the active job: `active` is the one found so far, empty if none.
unfoldable pub find_active : JobId → List Job → Outcome JobId
find_active active [] = ok active
find_active active (j ∷ js) =
    let next = find_active j.id js in
    let same = find_active active js in
    if is_active j.state then (if active != [] then err bad else next) else same

abbrev pub differs : JobId → Option JobId → Bool
differs active none = active != []
differs active (some a) = active == [] || a != active

-- The queue invariants at the end of a transaction.
unfoldable pub check_queue : Snapshot → Outcome (Unit {0})
check_queue s = do
  active ← find_active [] s.jobs
  fail_if (ltb max_pending (length (pending_ids s.jobs)) || pending_ids s.jobs != s.queue.pending)
      bad
  fail_if (differs active s.queue.active) bad

unfoldable pub append_output : Job → Text → Job
append_output j t = let r = j.result in record j { result = record r { text = r.text ++ t } }

abbrev pub at_cursor : Cursor → Progress → Progress
at_cursor c p = let s = p.snapshot in record p { snapshot = record s { cursor = c } }

module _ (enc : Encoding) where
  unfoldable pub check_job_fits : Job → Outcome (Unit {0})
  check_job_fits j = elim (enc.job j) [
    | none ↦
        err (faulted (fault ErrorCode.limit_exceeded "encoded job exceeds terminal record budget"))
    | some b ↦
        fail_if (ltb max_commit_bytes (length b + metadata_reserve + 8192))
          (faulted (fault ErrorCode.limit_exceeded "encoded job exceeds terminal record budget"))
  ]

  unfoldable pub accept_job : Progress → Job → Outcome Progress
  accept_job p j = do
    fail_if (is_err (check_job_fits j)) bad
    fail_if
        (is_some (find_job j.id p.snapshot.jobs)
          || p.accepted != []
          || leb max_jobs (length p.snapshot.jobs)
          || not_fresh j)
        bad
    expected ← expected_instructions j.lineage j.request p.snapshot.jobs
    fail_if (expected != j.instructions) bad
    let s = p.snapshot
    ok (record { snapshot = record s { jobs = s.jobs ++ j ∷ [] }; accepted = j.id })

  unfoldable pub change_job : Progress → EventKind → Job → Outcome Progress
  change_job p kind j = do
    old ← or_fail (find_job j.id p.snapshot.jobs) bad
    fail_if (not (transition old.state j.state)) bad
    fail_if (starts_out_of_turn p.snapshot.queue j) bad
    fail_if (rewrites_history old j) bad
    fail_if (bad_times kind old j) bad
    fail_if (bad_result old j) bad
    let s = p.snapshot
    ok (record p { snapshot = record s { jobs = replace_job j s.jobs } })

  -- `case EventJobAccepted, EventJobState, EventJobResult`.
  unfoldable pub apply_job_event : Progress → Event → Outcome Progress
  apply_job_event p e = do
    j ← or_fail e.job bad
    fail_if (bad_job e j) bad
    if e.kind == job_accepted then accept_job p j else change_job p e.kind j

  unfoldable pub apply_output : Progress → Event → Outcome Progress
  apply_output p e = do
    o ← or_fail e.output bad
    j ← or_fail (find_job e.job_id p.snapshot.jobs) bad
    fail_if
        (not (is_active j.state)
          || o.offset_bytes != pos (length j.result.text)
          || length o.text == 0
          || ltb max_chunk_bytes (length o.text)
          || not (valid_string o.text)
          || ltb max_output_bytes (length j.result.text + length o.text))
        bad
    fail_if (is_err (check_job_fits (append_output j o.text))) bad
    let s = p.snapshot
    ok (record p { snapshot = record s { jobs = replace_job (append_output j o.text) s.jobs } })

  unfoldable pub apply_queue : Progress → Event → Outcome Progress
  apply_queue p e = do
    q ← or_fail e.queue bad
    fail_if (e.job_id != [] || q.max_pending != pos max_pending) bad
    let s = p.snapshot
    ok (record p { snapshot = record s { queue = q } })

  unfoldable pub apply_kind : EventKind → Progress → Event → Outcome Progress
  apply_kind job_accepted p e = apply_job_event p e
  apply_kind job_state p e = apply_job_event p e
  apply_kind job_result p e = apply_job_event p e
  apply_kind job_output p e = apply_output p e
  apply_kind queue_state p e = apply_queue p e
  apply_kind (EventKind.other t) p e = err bad

  unfoldable pub apply_event : Progress → Event → Outcome Progress
  apply_event p e = do
    fail_if (bad_header p.snapshot e) bad
    q ← apply_kind e.kind p e
    ok (at_cursor e.cursor q)

  unfoldable pub apply_events : Progress → List Event → Outcome Progress
  apply_events p [] = ok p
  apply_events p (e ∷ es) = apply_event p e >>= λ q. apply_events q es

  unfoldable pub apply_commit : Snapshot → Commit → Outcome Snapshot
  apply_commit s c = do
    fail_if (c.version != pos 1 || length c.events == 0) bad
    p ← apply_events (record { snapshot = s; accepted = [] }) c.events
    fail_if (bad_receipt p.accepted c.receipt) bad
    check_queue p.snapshot
    ok p.snapshot

  -- The loop of `TerminalReserve`: what the replacement events of an unfinished job may need.
  abbrev pub replacements : JobState → ℕ
  replacements queued = 3
  replacements running = 2
  replacements _ = 1

  abbrev pub encoded_job_length : Option Text → ℕ
  encoded_job_length none = 0
  encoded_job_length (some b) = length b

  unfoldable pub jobs_reserve : List Job → ℕ
  jobs_reserve [] = 0
  jobs_reserve (j ∷ js) =
      (if terminal j.state
        then 0
        else replacements j.state * (encoded_job_length (enc.job j) + 4096) + metadata_reserve)
      + jobs_reserve js

  unfoldable pub terminal_reserve : Snapshot → ℕ
  unfolding jobs_reserve
  terminal_reserve s = 8192 + jobs_reserve s.jobs

-- `ValidateCursor`.
unfoldable pub validate_cursor : Cursor → Cursor → Outcome (Unit {0})
validate_cursor c end =
    fail_if (c.store_id != end.store_id || ltb end.sequence c.sequence)
      (faulted (fault ErrorCode.cursor_invalid "cursor does not belong to available history"))
