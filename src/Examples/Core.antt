-- ===== src/Examples/Core.antt =====
-- Witnesses for the reducer and the worker.
use task_worker.Worker.Startup.{new_worker-safe}
use task_worker.Worker.Lifecycle.{
  close_interrupted, new_worker, start_recovered, unless_fatal, recovered,
}
use task_worker.Streams.{Stream}
use task_worker.Streams.Backlog.{
  IsBounded, IsDropped, push_each, push_each_complete, pushed_events, queued_events,
}
use task_worker.Cursors.{IsDigit, leading_zero, parse_sequence, parse_sequence_iff, decimal}
use task_worker.Worker.Dispatch.{dispatch}
use task_worker.Errors.{err, context_ended, ok}
use task_worker.Worker.Idempotency.{create-repeated}
use task_worker.State.Admission.{Admits, apply_commit-Admits}
use task_worker.Worker.Moves.{IsLinked}
use task_worker.Base.Int.{ℤ-discrete, pos}
use task_worker.Jobs.{
  Instructions-discrete, Job, JobState-discrete, Result-discrete, queued, running,
}
use task_worker.State.{
  empty_result, find_job, max_pending, validate_request, transition, compose, max_uint64,
}
use task_worker.Worker.{Env, Worker, find_receipt, job_event, queue_event, available, commit, stamp}
use task_worker.Text.{hex_encode, is_hex_digit, trim_space, utf8_step, valid_string, join}
use task_worker.Events.{EventKind-discrete, Ids-discrete, Event, Recovery}
use task_worker.State.History.{Evolves, Keeps, apply_commit-Keeps}
use task_worker.State.Invariant.{IsConsistent, apply_commit-IsConsistent}
use task_worker.State.Reducer.{
  accept_job, apply_commit, apply_event, apply_events, apply_job_event, apply_kind, apply_queue,
  bad_header, bad_job, bad_receipt, check_job_fits, check_queue, expected_instructions, find_active,
  not_fresh, pending_ids,
}
use task_worker.Base.{
  ◌≡◌, Bytes-discrete, [], arith, false, none, refl, some, true, ℕ_discrete, ◌↔◌, ◌∷◌, All, ◌≤◌,
  List, ℕ, ◌⊎◌,
}
use task_worker.Worker.Create.{
  submit, Creation, bad_key, digest_of, plan_create, plan_known, plan_new, return_job, create,
  draft, admit,
}
use task_worker.Worker.Runs.{creates, here, then, Run-safe}
use task_worker.State.Machine.{◌⟶◌, transition_iff}
use task_worker.Examples.Data.{
  encoding, request, empty_snapshot, receipt, acceptance, accepted_snapshot, acceptance_applies,
  empty_snapshot-IsConsistent,
}

abbrev pub env : Env (Unit {0})
env = record {
  store = record {
    recover = λ d. (err context_ended, d);
    append = λ d c. (none, d);
    read_events = λ d c n. (err context_ended, d);
    close = λ d. (none, d);
  };
  encoding = encoding;
  now = λ n. 1;
  random = λ n. some (0 ∷ []);
}

-- A worker over the empty store, with its queue paused.
abbrev pub idle : Worker (Unit {0})
idle = record {
  disk = tt;
  state = record {
    cursor = record { store_id = []; sequence = 0 };
    queue = record { paused = true; pending = []; active = none; max_pending = pos max_pending };
    jobs = [];
  };
  receipts = [];
  streams = [];
  cancel = none;
  output_err = none;
  fatal = none;
  stopping = false;
  closed = false;
  panicked = false;
  clock_reads = 0;
  random_reads = 0;
}

abbrev command : Creation
command = record { operation = submit; key = 107 ∷ []; origin = []; parent = []; request = request }

pub idle-IsConsistent : IsConsistent idle.state
unfolding pending_ids
idle-IsConsistent = record {
  orderly = record {
    distinct = tt;
    sound = tt;
    retained = omega arith;
    queue_limit = refl;
    sequence_fits = omega arith;
  };
  pending_exact = refl;
  pending_bounded = omega arith;
  one_active = refl;
}

pub idle-IsLinked : IsLinked idle
unfolding find_receipt
idle-IsLinked key r h = cc

abbrev busy : Worker (Unit {0})
busy = (create env false command idle).1

Run-safe_example : IsConsistent busy.state × IsLinked busy × Keeps idle.state.jobs busy.state.jobs
Run-safe_example =
    Run-safe env idle busy idle-IsConsistent idle-IsLinked (then here (creates false command))

abbrev created_job : Job
created_job = record {
  id = 48 ∷ 48 ∷ [];
  state = queued;
  request = request;
  instructions = record { system = []; history = []; prompt = 112 ∷ [] };
  origin = [];
  lineage = none;
  created_at = 1;
  started_at = none;
  finished_at = none;
  result = empty_result;
  error = none;
}

command_runs : create env false command idle ≡ (ok created_job, busy)
unfolding create plan_create plan_known plan_new draft digest_of bad_key available admit return_job
    commit stamp find_receipt job_event queue_event dispatch apply_commit apply_events apply_event
    apply_kind apply_job_event accept_job apply_queue ℤ-discrete ℕ_discrete bad_header
    Bytes-discrete bad_job validate_request trim_space valid_string utf8_step EventKind-discrete
    check_job_fits find_job not_fresh JobState-discrete Result-discrete expected_instructions
    Instructions-discrete Ids-discrete bad_receipt check_queue find_active pending_ids compose
    is_hex_digit join hex_encode
command_runs = refl

busy-available : available busy ≡ none
unfolding create plan_create plan_known plan_new draft digest_of bad_key available admit return_job
    commit stamp find_receipt job_event queue_event dispatch apply_commit apply_events apply_event
    apply_kind apply_job_event accept_job apply_queue ℤ-discrete ℕ_discrete bad_header
    Bytes-discrete bad_job validate_request trim_space valid_string utf8_step EventKind-discrete
    check_job_fits find_job not_fresh JobState-discrete Result-discrete expected_instructions
    Instructions-discrete Ids-discrete bad_receipt check_queue find_active pending_ids compose
    is_hex_digit join hex_encode
busy-available = refl

create-repeated_example :
    (k : Job) × (create env false command busy ≡ (ok k, busy)) × Evolves created_job k
create-repeated_example =
    create-repeated env idle busy busy command created_job command_runs here busy-available

apply_commit-IsConsistent_example : IsConsistent accepted_snapshot
apply_commit-IsConsistent_example =
    apply_commit-IsConsistent encoding empty_snapshot accepted_snapshot acceptance
      empty_snapshot-IsConsistent.orderly acceptance_applies

apply_commit-Keeps_example : Keeps empty_snapshot.jobs accepted_snapshot.jobs
apply_commit-Keeps_example =
    apply_commit-Keeps encoding empty_snapshot accepted_snapshot acceptance acceptance_applies

apply_commit-Admits_example : Admits (some receipt) empty_snapshot.jobs accepted_snapshot.jobs
apply_commit-Admits_example =
    apply_commit-Admits encoding empty_snapshot accepted_snapshot acceptance acceptance_applies

transition_iff_example : (transition queued running ≡ true) ↔ (queued ⟶ running)
transition_iff_example = transition_iff queued running

parse_sequence_iff_example : (parse_sequence (49 ∷ 50 ∷ []) ≡ some 12) ↔ (
    (leading_zero (49 ∷ 50 ∷ []) ≡ false)
    × All IsDigit (49 ∷ 50 ∷ [])
    × (decimal 0 (49 ∷ 50 ∷ []) ≡ 12)
    × (12 ≤ max_uint64))
parse_sequence_iff_example = parse_sequence_iff (49 ∷ 50 ∷ []) 12

abbrev observer : Stream
observer = record {
  id = 0;
  attached = true;
  cursor = record { store_id = []; sequence = 0 };
  through = 0;
  queue = [];
  bytes = 0;
  closed = false;
  err = none;
  wake = false;
}

observer-IsBounded : IsBounded observer
observer-IsBounded = record {
  open_still = refl;
  counted = refl;
  few = omega arith;
  small = omega arith;
}

abbrev pushed : List (Event × ℕ)
pushed = (queue_event idle.state.queue, 3) ∷ (queue_event idle.state.queue, 33554432) ∷ []

push_each_complete_example :
    (IsBounded (push_each pushed observer)
      × (queued_events (push_each pushed observer).queue ≡ pushed_events pushed))
    ⊎ IsDropped (push_each pushed observer)
push_each_complete_example = push_each_complete pushed observer observer-IsBounded

-- A start over a store that holds the idle worker's state.
abbrev kept : Recovery
kept = record { snapshot = idle.state; receipts = [] }

abbrev restarted : Env (Unit {0})
restarted = record env { store = record env.store { recover = λ d. (ok kept, d) } }

restarted-new_worker : new_worker restarted tt ≡ ok idle
unfolding new_worker recovered close_interrupted start_recovered unless_fatal dispatch
restarted-new_worker = refl

new_worker-safe_example :
    IsConsistent idle.state × IsLinked idle × Keeps idle.state.jobs idle.state.jobs
new_worker-safe_example =
    new_worker-safe restarted tt tt kept idle refl idle-IsConsistent tt restarted-new_worker
