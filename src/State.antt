-- ===== src/State.antt =====
-- internal/core/state.go: limits, request checks, the job state machine and the reducer that
-- applies one journal transaction to a snapshot.
pub mod Lookup
pub mod Queue
pub mod Reducer
pub mod Invariant
pub mod Machine
pub mod History
pub mod Reach
pub mod Admission
use task_worker.Base.{
  ℕ, ◌+◌, ◌*◌, ◌^◌, ◌%◌, Bool, true, false, ◌&&◌, ◌||◌, not, Option, none, some, List, [], ◌∷◌,
  ◌++◌, ltb, leb, ◌==◌, ◌!=◌, if◌then◌else◌, length, is_some, is_none, String, Comparable,
  ℕ-comparable, Bytes-comparable, Option-comparable, Bool-comparable,
}
use task_worker.Base.Int.{ℤ, pos, negsuc, leb_ℤ, ℤ-comparable}
use task_worker.Text.{Text, valid_string, trim_space, join, is_hex_digit}
use task_worker.Errors.{
  ErrorCode, Fault, fault, Error, faulted, Outcome, ok, err, ◌>>=◌, ◌>>◌, fail_if, or_fail, is_err,
  ErrorCode-comparable,
}
use task_worker.Jobs.{
  JobId, JobState, queued, running, cancelling, succeeded, failed, interrupted, Time, Float64,
  Request, GenerationOptions, MessageRole, Message, Instructions, Relation, Lineage, Result,
  ContextInfo, Usage, Job, JobState-comparable, Request-comparable, Instructions-comparable,
  Lineage-comparable, Result-comparable,
}
use task_worker.Events.{
  Cursor, EventKind, Event, OutputDelta, QueueState, Snapshot, Receipt, Commit, Ids-comparable,
  EventKind-comparable, job_accepted, job_state, job_output, job_result, queue_state,
}
use task_worker.Encoding.{Encoding}

abbrev pub max_pending : ℕ
max_pending = 64

abbrev pub max_jobs : ℕ
max_jobs = 1000

abbrev pub max_input_bytes : ℕ
max_input_bytes = 1048576

abbrev pub max_output_bytes : ℕ
max_output_bytes = 8388608

abbrev pub max_commit_bytes : ℕ
max_commit_bytes = 16777216

abbrev pub max_chunk_bytes : ℕ
max_chunk_bytes = 16384

abbrev pub max_observer_events : ℕ
max_observer_events = 256

abbrev pub max_observer_bytes : ℕ
max_observer_bytes = 33554432

abbrev pub metadata_reserve : ℕ
metadata_reserve = 65536

abbrev pub max_uint64 : ℕ
max_uint64 = 18446744073709551615

abbrev pub terminal : JobState → Bool
terminal succeeded = true
terminal failed = true
terminal JobState.cancelled = true
terminal interrupted = true
terminal _ = false

-- Running or cancelling: the backend works on the job.
abbrev pub is_active : JobState → Bool
is_active running = true
is_active cancelling = true
is_active _ = false

abbrev pub is_queued : JobState → Bool
is_queued queued = true
is_queued _ = false

abbrev pub invalid : String → Error
invalid m = faulted (fault ErrorCode.invalid_request m)

abbrev bad_temperature : Float64 → Bool
bad_temperature Float64.nan = true
bad_temperature Float64.pos_inf = true
bad_temperature Float64.neg_inf = true
bad_temperature (Float64.below n) = true
bad_temperature (Float64.units n) = false

abbrev on_some {ℓ} : {A : Type ℓ} → Option A → (A → Bool) → Bool
on_some none p = false
on_some (some a) p = p a

abbrev bad_options : GenerationOptions → Bool
bad_options o =
    leb_ℤ o.max_output_tokens (pos 0)
    || on_some o.context_tokens (λ n. leb_ℤ n (pos 0) || leb_ℤ n o.max_output_tokens)
    || on_some o.temperature bad_temperature

abbrev unknown_role : MessageRole → Bool
unknown_role MessageRole.user = false
unknown_role MessageRole.assistant = false
unknown_role (MessageRole.other t) = true

-- The loop over the history: the bytes counted so far, plus those of each message.
history_bytes : ℕ → List Message → Outcome ℕ
history_bytes n [] = ok n
history_bytes n (m ∷ ms) =
    let rest = history_bytes (n + length m.content) ms in
    if unknown_role m.role || not (valid_string m.content)
    then err (invalid "invalid history")
    else rest

unfoldable pub validate_request : Request → Instructions → Outcome (Unit {0})
unfolding history_bytes
validate_request r inst = do
  fail_if (trim_space r.model == [] || trim_space r.prompt == [])
      (invalid "model and prompt are required")
  fail_if
      (not (
        valid_string r.model
        && valid_string r.role
        && valid_string r.system_prompt
        && valid_string r.prompt
        && valid_string inst.system
        && valid_string inst.prompt))
      (invalid "input must be UTF-8")
  fail_if (bad_options r.options) (invalid "invalid generation budget or options")
  n ← history_bytes (length inst.system + length inst.prompt) inst.history
  fail_if
      (ltb max_input_bytes n
        || ltb max_input_bytes
            (length r.model + length r.role + length r.system_prompt + length r.prompt))
      (faulted (fault ErrorCode.limit_exceeded "input limit exceeded"))

-- The trimmed text, if any is left.
non_blank : Text → List Text
non_blank s = if trim_space s == [] then [] else trim_space s ∷ []

unfoldable pub compose : Request → Instructions
unfolding non_blank
compose r = record {
  system = join (non_blank r.role ++ non_blank r.system_prompt) (10 ∷ 10 ∷ []);
  history = [];
  prompt = r.prompt;
}

unfoldable pub transition : JobState → JobState → Bool
transition queued b = b == running || b == JobState.cancelled
transition running b = b == cancelling || b == succeeded || b == failed || b == interrupted
transition cancelling b = b == JobState.cancelled || b == interrupted
transition _ b = false

-- `Result{}`.
abbrev pub empty_result : Result
empty_result = record {
  text = [];
  finish_reason = [];
  effective_model = [];
  effective_options = none;
  context = record {
    model_capacity_tokens = none;
    model_capacity_source = [];
    model_capacity_observed_at = none;
    requested_tokens = none;
    loaded = none;
    input_estimate = none;
    reserved_output_tokens = pos 0;
  };
  usage = record {
    input_tokens = none;
    output_tokens = none;
    total_duration_ns = none;
    load_duration_ns = none;
    generate_duration_ns = none;
  };
}

-- `find`, and the assignment `s.Jobs[i] = j` at the index that it gives.
unfoldable pub find_job : JobId → List Job → Option Job
find_job id [] = none
find_job id (j ∷ js) = if j.id == id then some j else find_job id js

unfoldable pub replace_job : Job → List Job → List Job
replace_job j [] = []
replace_job j (k ∷ ks) = if k.id == j.id then j ∷ ks else k ∷ replace_job j ks
