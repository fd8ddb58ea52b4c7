-- ===== src/Bridge/Reading.antt =====
-- `readEvents` of internal/adapters/mcpbridge/tools.go: a bounded batch of events after a cursor.
pub mod Batches
use task_worker.Base.{
  Bool, List, Option, [], false, if◌then◌else◌, leb, length, ltb, none, not, some, ℕ, ◌!=◌, ◌&&◌,
  ◌++◌, ◌+◌, ◌||◌, ◌∷◌, Comparable, Bytes-comparable,
}
use task_worker.Bridge.Calls.{Failure, refused, failed, Called, got, fails, Report, faults}
use task_worker.Errors.{Error, ErrorCode, fault, plain, context_ended, ok, err}
use task_worker.HttpApi.Events.{Frame, content_of}
use task_worker.HttpApi.Ids.{parse_cursor, format_uint}
use task_worker.Text.{Text, bytes}
use text.Mathlib.Text.{◌==◌ as same_text}

abbrev pub max_result_bytes : ℕ
max_result_bytes = 262144

abbrev pub max_inline_event : ℕ
max_inline_event = 131072

pub record EventHead : Type 0 where
  pub kind : Text
  pub job_id : Text

-- `json.Unmarshal` of an event's head, the encoded `cursorOf` it, and `strconv.Quote`.
pub record EventJson : Type 0 where
  pub head : Text → Option EventHead
  pub cursor : Text → Text
  pub quote : Text → Text

pub record EventsIn : Type 0 where
  pub after : Text
  pub job_id : Text
  pub max_events : Option ℕ

pub data Stop : Type 0 where
  timeout max_bytes max_events stream_ended stream_error : Stop

pub record Batch : Type 0 where
  pub events : List Text
  pub next : Text
  pub size : ℕ
  pub stopped : Stop

abbrev pub no_batch : EventsIn → Batch
no_batch i = record { events = []; next = i.after; size = 0; stopped = timeout }

-- `errStop`.
abbrev pub stop : Error
stop = plain "stop"

is_stop : Error → Bool
is_stop (plain s) = same_text s "stop"
is_stop _ = false

abbrev pub most_events : EventsIn → ℕ
most_events i = elim i.max_events [ none ↦ 100 | some n ↦ n ]

module _ (j : EventJson) (i : EventsIn) where
  marker : EventHead → Text → Text
  marker h json =
      bytes "{\"cursor\":"
      ++ (j.cursor json
          ++ (bytes ",\"kind\":"
              ++ (j.quote h.kind
                  ++ (bytes ",\"job_id\":"
                      ++ (j.quote h.job_id
                          ++ (bytes
                                ",\"omitted\":true,\"reason\":\"event_exceeds_inline_bound\",\"bytes\":"
                              ++ (format_uint (length json)
                                  ++ bytes ",\"retrieve_via\":\"get_job\"}")))))))

  -- An event as it is answered.
  unfoldable pub inline : EventHead → Text → Text
  unfolding marker
  inline h json = if ltb max_inline_event (length json) then marker h json else json

  unfoldable pub filtered : EventHead → Bool
  filtered h = i.job_id != [] && h.job_id != i.job_id

  add_item : Text → Text → Batch → Option Error × Batch
  add_item id item b =
      let events = b.events ++ item ∷ [] in
      let added = record b { events = events; size = b.size + length item; next = id } in
      if ltb max_result_bytes (b.size + length item) && ltb 0 (length b.events)
      then (some stop, record b { stopped = max_bytes })
      else if leb (most_events i) (length events)
      then (some stop, record added { stopped = max_events })
      else (none, added)

  apply_head : Option EventHead → Frame → Batch → Option Error × Batch
  unfolding add_item
  apply_head none f b = (some (plain "bad frame"), b)
  apply_head (some h) f b =
      if f.kind != bytes "event"
      then (some (plain "unexpected frame"), b)
      else if filtered h
      then (none, record b { next = f.id })
      else add_item f.id (inline h (content_of f)) b

  unfoldable pub on_event : Batch → Frame → Option Error × Batch
  unfolding apply_head
  on_event b f = apply_head (j.head (content_of f)) f b

pub record Answer : Type 0 where
  pub batch : Batch
  pub error : Option Report

answered : Batch → Stop → Called Answer
answered b s = got (record { batch = record b { stopped = s }; error = none })

-- How the call ends, from how the watch ended: whether the caller's context is live, and whether the
-- call's own deadline has passed.
unfoldable pub conclude : EventsIn → Bool → Bool → Option Error → Batch → Called Answer
unfolding answered is_stop
conclude i caller_live expired none b = answered b stream_ended
conclude i caller_live expired (some e) b =
    if is_stop e
    then answered b b.stopped
    else if not caller_live
    then fails (failed context_ended)
    else if expired
    then answered b b.stopped
    else if ltb 0 (length b.events) || b.next != i.after
    then got (record {
      batch = record b { stopped = stream_error };
      error = some (faults (failed e) false);
    })
    else fails (failed e)

-- `watch` is the client's `Watch` after the cursor, under the callback.
unfoldable pub read_events :
    EventJson
    → ((Batch → Frame → Option Error × Batch) → Batch → Option Error × Batch)
    → Bool
    → Bool
    → EventsIn
    → Called Answer
read_events j watch caller_live expired i = elim (parse_cursor i.after) [
  | err e ↦
      fails
        (refused (fault ErrorCode.cursor_invalid "after must be a canonical STORE:SEQUENCE cursor"))
  | ok c ↦
      let ended = watch (on_event j i) (no_batch i) in
      conclude i caller_live expired ended.0 ended.1
]
