-- ===== src/Examples/Http.antt =====
-- Witnesses for the HTTP adapter.
use task_worker.Base.Int.{pos}
use task_worker.Base.{
  All, Bytes-discrete, List, Option, [], arith, false, inr, none, refl, some, suc, true, ℕ,
  ℕ_discrete, ◌++◌, ◌↔◌, ◌∷◌, ◌≡◌, ◌⊎◌,
}
use task_worker.HttpApi.Ids.{parse_cursor, cursor_id, is_id}
use task_worker.HttpApi.Ids.RoundTrip.{IsCursor, parse_cursor_iff}
use task_worker.HttpApi.Faults.{public_fault, invalid}
use task_worker.HttpApi.Client.{Reply, handed_over, unencoded, unbuilt, complete, read_reply, call}
use task_worker.HttpApi.Client.Outcomes.{
  is_own_failure, public_fault-is_own_failure, Answered, call_definite,
}
use task_worker.HttpApi.Server.{Address, HttpRequest, Decoders, refuse_early, refuse_command}
use task_worker.HttpApi.Server.Handle.{bad_event_query, serve}
use task_worker.HttpApi.Server.Trust.{IsTrusted, IsCommand}
use task_worker.HttpApi.Server.Effects.{serve_guarded}
use task_worker.HttpApi.Server.OverWorker.{worker_service, serve-safe, worker-ReadsOnly}
use task_worker.HttpApi.Routes.{method_of, post_method, route_of}
use task_worker.HttpApi.Service.{Service}
use task_worker.HttpApi.Events.{Frame, FrameDecoders, lines, watch_stream}
use task_worker.HttpApi.Events.Delivery.{all-IsLine}
use task_worker.HttpApi.Events.Reading.{
  Sent, framed, noted, wire, apply_all, IsGood, IsUnfinished, watch_stream_complete,
}
use task_worker.Errors.{Error, ErrorCode, Fault, fault, faulted, ok, err, context_ended}
use task_worker.Events.{Cursor}
use task_worker.Examples.Core.{env, idle, idle-IsConsistent, idle-IsLinked}
use task_worker.Examples.Data.{digits}
use task_worker.State.History.{Keeps}
use task_worker.State.Invariant.{IsConsistent}
use task_worker.Text.{Text, bytes, is_hex_digit, split_on}
use task_worker.Worker.{Worker, available}
use task_worker.Worker.Commands.{CallFate, set_queue_paused}
use task_worker.Worker.Dispatch.{dispatch}
use task_worker.Worker.Moves.{IsLinked}

abbrev pub event_cursor : Cursor
event_cursor = record { store_id = digits 32; sequence = 7 }

parse_cursor_iff_example :
    (parse_cursor (digits 32 ++ bytes ":7") ≡ ok event_cursor)
    ↔ ((digits 32 ++ bytes ":7" ≡ cursor_id event_cursor) × IsCursor event_cursor)
parse_cursor_iff_example = parse_cursor_iff (digits 32 ++ bytes ":7") event_cursor

pub event_cursor-IsCursor : IsCursor event_cursor
unfolding is_id is_hex_digit ℕ_discrete
event_cursor-IsCursor = record { store_named = refl; sequence_fits = omega arith }

abbrev pub conflict : Fault
conflict = fault ErrorCode.conflict "key reused"

public_fault-is_own_failure_example :
    is_own_failure (faulted (public_fault (faulted conflict))) ≡ false
public_fault-is_own_failure_example = public_fault-is_own_failure (faulted conflict)

abbrev pub no_text : Text → Option Text
no_text t = none

abbrev pub conflicted : Text → Option Fault
conflicted t = some conflict

abbrev pub conflict_reply : Reply
conflict_reply = complete 409 (bytes "{}")

conflict-call :
    call no_text conflicted (handed_over conflict_reply)
    ≡ err (faulted (public_fault (faulted conflict)))
unfolding call read_reply ℕ_discrete
conflict-call = refl

call_definite_example :
    (((handed_over conflict_reply ≡ unencoded) ⊎ (handed_over conflict_reply ≡ unbuilt))
      × (faulted (public_fault (faulted conflict)) ≡ invalid)
      × (is_own_failure (faulted (public_fault (faulted conflict))) ≡ false))
    ⊎ ((r : Reply) × (handed_over conflict_reply ≡ handed_over r)
        × ((is_own_failure (faulted (public_fault (faulted conflict))) ≡ true)
            ⊎ ((f : Fault) × Answered conflicted r f
                × (faulted (public_fault (faulted conflict)) ≡ faulted (public_fault (faulted f)))
                × (is_own_failure (faulted (public_fault (faulted conflict))) ≡ false))))
call_definite_example =
    call_definite no_text conflicted (handed_over conflict_reply)
      (faulted (public_fault (faulted conflict))) conflict-call

abbrev address : Address
address = record { host = bytes "h:1"; port = some (bytes "1") }

abbrev no_assets : Text → Option (Text × Text)
no_assets path = none

abbrev pausing : HttpRequest
pausing = record {
  host = bytes "h:1";
  origins = none;
  fetch_sites = none;
  slot_free = true;
  raw_path = [];
  path = bytes "/v1/queue/pause";
  method = post_method;
  raw_query = [];
  query = some [];
  content_length = pos 2;
  transfer_encodings = [];
  content_types = bytes "application/json" ∷ [];
  content_encodings = [];
  media = some (bytes "application/json", []);
  body = some (bytes "{}");
  last_event_ids = [];
}

abbrev decoders : Decoders
decoders = record {
  submit = λ b. err context_ended;
  retry = λ b. err context_ended;
  branch = λ b. err context_ended;
  nothing = λ b. ok tt;
}

abbrev served : Service (Worker (Unit {0}))
served = worker_service env CallFate.answered false (ok []) true

-- The request passes every check, and pauses the queue.
pause_is_run :
    let (response, after) = serve served address no_assets decoders pausing idle in
    (response.status ≡ 200) × (after.state.queue.paused ≡ true)
unfolding serve refuse_early Bytes-discrete ℕ_discrete route_of method_of refuse_command
    worker_service set_queue_paused available dispatch
pause_is_run = (refl, refl)

-- A query of another key than `after` is refused.
unknown_query : bad_event_query ((bytes "job", bytes "1" ∷ []) ∷ []) ≡ true
unfolding Bytes-discrete ℕ_discrete
unknown_query = refl

serve_guarded_example :
    ((serve served address no_assets decoders pausing idle).1.state ≡ idle.state)
    ⊎ (IsTrusted address pausing × IsCommand pausing)
serve_guarded_example =
    serve_guarded served (λ (w : Worker (Unit {0})). w.state)
      (worker-ReadsOnly env CallFate.answered false (ok []) true) address no_assets decoders pausing
      idle

serve-safe_example :
    IsConsistent (serve served address no_assets decoders pausing idle).1.state
    × IsLinked (serve served address no_assets decoders pausing idle).1
    × Keeps idle.state.jobs (serve served address no_assets decoders pausing idle).1.state.jobs
serve-safe_example =
    serve-safe env CallFate.answered false (ok []) true address no_assets decoders pausing idle
      idle-IsConsistent idle-IsLinked

abbrev pub frame_decoders : FrameDecoders
frame_decoders = record { cursor = λ t. some event_cursor; fault = λ t. none }

abbrev pub sent : List Sent
sent = noted (bytes "connected") ∷ framed event_cursor (bytes "event") (bytes "{}") ∷ []

pub sent-IsGood : All (IsGood frame_decoders) sent
unfolding ℕ_discrete
sent-IsGood = (
  (all-IsLine (bytes "connected") refl, omega arith),
  (
    record {
      named = event_cursor-IsCursor;
      kind_is = inr refl;
      one_line = all-IsLine (bytes "{}") refl;
      cursor_is = refl;
      event_fits = λ _. omega arith;
      frame_fits = omega arith;
    },
    tt,
  ),
)

pub cut_off-IsUnfinished : IsUnfinished (bytes "id: 0")
unfolding lines split_on Bytes-discrete ℕ_discrete
cut_off-IsUnfinished = (refl, tt)

abbrev counting : ℕ → Frame → Option Error × ℕ
counting n f = (none, suc n)

watch_stream_complete_example :
    (watch_stream frame_decoders counting 0 (wire sent ++ bytes "id: 0")).1
    ≡ (apply_all frame_decoders counting 0 sent).1
watch_stream_complete_example =
    watch_stream_complete frame_decoders counting sent (bytes "id: 0") 0 sent-IsGood
      cut_off-IsUnfinished
