-- ===== src/Examples/Data.antt =====
-- A small store: its encodings, a request, the job made of it, and the transaction that accepts it.
use task_worker.Errors.{ok}
use task_worker.Base.Int.{pos, ℤ-discrete}
use task_worker.State.Invariant.{IsConsistent}
use task_worker.Encoding.{Encoding}
use task_worker.Text.{Text, is_hex_digit, trim_space, utf8_step, valid_string, join}
use task_worker.Events.{
  Commit, QueueState, Receipt, Snapshot, job_accepted, queue_state, EventKind-discrete,
  Ids-discrete,
}
use task_worker.State.{empty_result, max_pending, find_job, validate_request, compose}
use task_worker.Jobs.{
  Job, Request, queued, Instructions-discrete, JobState-discrete, Result-discrete,
}
use task_worker.State.Reducer.{
  accept_job, apply_commit, apply_event, apply_events, apply_job_event, apply_kind, apply_queue,
  pending_ids, bad_header, bad_job, bad_receipt, check_job_fits, check_queue, expected_instructions,
  find_active, not_fresh,
}
use task_worker.Journal.Scan.{empty_state}
use task_worker.Base.{
  ◌≡◌, [], arith, false, none, refl, some, suc, zero, ℕ, ◌∷◌, Bytes-discrete, ℕ_discrete,
}

abbrev pub zeros : ℕ → Text
zeros zero = []
zeros (suc n) = 0 ∷ zeros n

abbrev pub digits : ℕ → Text
digits zero = []
digits (suc n) = 48 ∷ digits n

abbrev pub encoding : Encoding
encoding = record {
  job = λ j. some (0 ∷ []);
  event = λ e. some (0 ∷ []);
  result = λ r. some (0 ∷ []);
  command = λ c. some (0 ∷ []);
  commit = λ c. none;
  sha256 = λ b. zeros 32;
}

abbrev pub request : Request
request = record {
  model = 109 ∷ [];
  role = [];
  system_prompt = [];
  prompt = 112 ∷ [];
  options = record {
    context_tokens = none;
    max_output_tokens = pos 8;
    temperature = none;
    seed = none;
  };
}

abbrev pub empty_snapshot : Snapshot
empty_snapshot = (empty_state []).snapshot

abbrev pub job : Job
job = record {
  id = 106 ∷ [];
  state = queued;
  request = request;
  instructions = record { system = []; history = []; prompt = 112 ∷ [] };
  origin = [];
  lineage = none;
  created_at = 1;
  started_at = none;
  finished_at = none;
  result = empty_result;
  error = none;
}

abbrev pub receipt : Receipt
receipt = record { key = 107 ∷ []; digest = digits 64; job_id = 106 ∷ [] }

abbrev pub waiting : QueueState
waiting = record {
  paused = false;
  pending = (106 ∷ []) ∷ [];
  active = none;
  max_pending = pos max_pending;
}

abbrev pub acceptance : Commit
acceptance = record {
  version = pos 1;
  events =
      record {
        cursor = record { store_id = []; sequence = 1 };
        at = 1;
        kind = job_accepted;
        job_id = 106 ∷ [];
        job = some job;
        output = none;
        queue = none;
      }
      ∷ record {
        cursor = record { store_id = []; sequence = 2 };
        at = 1;
        kind = queue_state;
        job_id = [];
        job = none;
        output = none;
        queue = some waiting;
      }
      ∷ [];
  receipt = some receipt;
}

abbrev pub accepted_snapshot : Snapshot
accepted_snapshot = record {
  cursor = record { store_id = []; sequence = 2 };
  queue = waiting;
  jobs = job ∷ [];
}

pub acceptance_applies : apply_commit encoding empty_snapshot acceptance ≡ ok accepted_snapshot
unfolding apply_commit apply_events apply_event apply_kind apply_job_event accept_job apply_queue
    ℤ-discrete ℕ_discrete bad_header Bytes-discrete bad_job validate_request trim_space valid_string
    utf8_step EventKind-discrete check_job_fits find_job not_fresh JobState-discrete Result-discrete
    expected_instructions Instructions-discrete Ids-discrete bad_receipt check_queue find_active
    pending_ids compose is_hex_digit join
acceptance_applies = refl

pub empty_snapshot-IsConsistent : IsConsistent empty_snapshot
unfolding pending_ids
empty_snapshot-IsConsistent = record {
  orderly = record {
    distinct = tt;
    sound = tt;
    retained = omega arith;
    queue_limit = refl;
    sequence_fits = omega arith;
  };
  pending_exact = refl;
  pending_bounded = omega arith;
  one_active = refl;
}
