-- ===== src/Worker.antt =====
-- internal/core/worker.go: the worker's state, `commit` and `poison`. The mutex makes each
-- operation one step on this state; the goroutine of a generation is its `Generation`.
pub mod Dispatch
pub mod Create
pub mod Backend
pub mod Models
pub mod Commands
pub mod Lifecycle
pub mod Commits
pub mod Moves
pub mod Plans
pub mod Steps
pub mod Startup
pub mod Runs
pub mod Idempotency
use task_worker.Base.Int.{pos}
use task_worker.State.Reducer.{apply_commit}
use task_worker.State.{max_uint64}
use task_worker.Errors.{Error, ErrorCode, Outcome, fault, faulted, err, ok, ErrorCode-comparable}
use task_worker.Streams.{Stream, finish_attached, push_attached}
use task_worker.Events.{
  Commit, Cursor, Event, EventKind, InferenceInput, OutputDelta, QueueState, Receipt, Recovery,
  Snapshot, queue_state, job_output,
}
use task_worker.Text.{Text}
use task_worker.Jobs.{Job, JobId, Time}
use task_worker.Encoding.{Encoding}
use mathlib.Core.Option
use task_worker.Base.{
  ◌≡◌, Bool, List, Option, [], false, if◌then◌else◌, length, map, none, some, true, ℕ, ◌%◌, ◌+◌,
  ◌==◌, ◌^◌, ◌∷◌, Comparable, Bytes-comparable, ℕ-comparable,
}

-- The journal, behind the interface `Store` of ports.go.
pub record Store (Disk : Type 0) : Type 0 where
  pub recover : Disk → Outcome Recovery × Disk
  pub append : Disk → Commit → Option Error × Disk
  pub read_events : Disk → Cursor → ℕ → Outcome (List Event) × Disk
  pub close : Disk → Option Error × Disk

-- What the worker is given: the store, the encodings, the readings of the clock and of the random
-- source, in the order in which they are made.
pub record Env (Disk : Type 0) : Type 0 where
  pub store : Store Disk
  pub encoding : Encoding
  pub now : ℕ → Time
  pub random : ℕ → Option Text

-- A running `backend.Generate`: its job, its input, and whether its context is ended.
pub record Generation : Type 0 where
  pub job_id : JobId
  pub input : InferenceInput
  pub ended : Bool

pub record Worker (Disk : Type 0) : Type 0 where
  pub disk : Disk
  pub state : Snapshot
  pub receipts : List Receipt
  pub streams : List Stream
  pub cancel : Option Generation
  pub output_err : Option Error
  pub fatal : Option Error
  pub stopping : Bool
  pub closed : Bool
  pub panicked : Bool
  pub clock_reads : ℕ
  pub random_reads : ℕ

unfoldable pub job_event : EventKind → Job → Event
job_event kind j = record {
  cursor = record { store_id = []; sequence = 0 };
  at = 0;
  kind = kind;
  job_id = j.id;
  job = some j;
  output = none;
  queue = none;
}

unfoldable pub queue_event : QueueState → Event
queue_event q = record {
  cursor = record { store_id = []; sequence = 0 };
  at = 0;
  kind = queue_state;
  job_id = [];
  job = none;
  output = none;
  queue = some q;
}

unfoldable pub output_event : JobId → OutputDelta → Event
output_event id o = record {
  cursor = record { store_id = []; sequence = 0 };
  at = 0;
  kind = job_output;
  job_id = id;
  job = none;
  output = some o;
  queue = none;
}

-- The entry of the map `receipts` under a key; an assignment puts a receipt in front.
unfoldable pub find_receipt : Text → List Receipt → Option Receipt
find_receipt key [] = none
find_receipt key (r ∷ rs) = if r.key == key then some r else find_receipt key rs

abbrev pub with_receipt : Option Receipt → List Receipt → List Receipt
with_receipt none rs = rs
with_receipt (some r) rs = r ∷ rs

-- The length of `json.Marshal(e)`; the error is dropped, and `nil` has length 0.
abbrev pub encoded_length : Option Text → ℕ
encoded_length none = 0
encoded_length (some b) = length b

-- The cursors and times that `commit` writes into its events: `none` when the sequence ends.
unfoldable pub stamp : (ℕ → Time) → Text → ℕ → ℕ → List Event → Option (List Event)
stamp now store seq reads [] = some []
stamp now store seq reads (e ∷ es) =
    let rest = stamp now store ((seq + 1) % 2 ^ 64) (reads + 1) es in
    if seq == max_uint64
    then none
    else Option.map
        (λ r.
          record e {
            cursor = record { store_id = store; sequence = (seq + 1) % 2 ^ 64 };
            at = now reads;
          }
          ∷ r)
        rest

-- `w.cancel()`: the context of the running generation ends.
abbrev pub end_context : Option Generation → Option Generation
end_context none = none
end_context (some g) = some (record g { ended = true })

abbrev pub is_limit : Error → Bool
is_limit (faulted f) = f.code == ErrorCode.limit_exceeded
is_limit _ = false

abbrev pub sequence_exhausted : Error
sequence_exhausted = faulted (fault ErrorCode.storage "event sequence exhausted")

module _ {Disk : Type 0} where
  unfoldable pub available : Worker Disk → Option Error
  available w = elim w.fatal [
    | some e ↦ some e
    | none ↦
        if w.stopping
        then some (faulted (fault ErrorCode.unavailable "worker is shutting down"))
        else none
  ]

  unfoldable pub poison : Error → Worker Disk → Worker Disk
  poison e w = record w {
    fatal = some e;
    cancel = end_context w.cancel;
    streams = map (finish_attached (some e)) w.streams;
  }

module _ {Disk : Type 0} (env : Env Disk) where
  push_events : List Event → List Stream → List Stream
  push_events [] ss = ss
  push_events (e ∷ es) ss =
      push_events es (map (push_attached e (encoded_length (env.encoding.event e))) ss)

  -- The worker after a successful append.
  unfoldable pub committed : Snapshot → Commit → Disk → Worker Disk → Worker Disk
  unfolding push_events
  committed next c disk w = record w {
    disk = disk;
    state = next;
    receipts = with_receipt c.receipt w.receipts;
    streams = push_events c.events w.streams;
  }

  append_commit : Snapshot → Commit → Option Error × Disk → Worker Disk → Option Error × Worker Disk
  unfolding committed poison
  append_commit next c (none, disk) w = (none, committed next c disk w)
  append_commit next c (some e, disk) w =
      let w' = record w { disk = disk } in (some e, if is_limit e then w' else poison e w')

  apply_and_append : Commit → Worker Disk → Option Error × Worker Disk
  unfolding append_commit
  apply_and_append c w = elim (apply_commit env.encoding w.state c) [
    | err e ↦ (some e, poison e w)
    | ok next ↦ append_commit next c (env.store.append w.disk c) w
  ]

  unfoldable pub commit : List Event → Option Receipt → Worker Disk → Option Error × Worker Disk
  unfolding apply_and_append
  commit events receipt w =
      let cursor = w.state.cursor in
      let w' = record w { clock_reads = w.clock_reads + length events } in
      elim (stamp env.now cursor.store_id cursor.sequence w.clock_reads events) [
        | none ↦ (some sequence_exhausted, poison sequence_exhausted w')
        | some stamped ↦
            apply_and_append (record { version = pos 1; events = stamped; receipt = receipt }) w'
      ]
