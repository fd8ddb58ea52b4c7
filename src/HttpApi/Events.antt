-- ===== src/HttpApi/Events.antt =====
-- The event stream of internal/adapters/httpapi: the frames that `events` of server.go writes, and
-- `Watch` of client.go that reads them.
pub mod Delivery
pub mod Reading
use task_worker.Base.{
  Bool, List, Option, [], false, if◌then◌else◌, is_some, leb, length, ltb, none, not, some, ℕ, ◌!=◌,
  ◌&&◌, ◌++◌, ◌+◌, ◌==◌, ◌||◌, ◌∷◌, Comparable, Bytes-comparable, ℕ-comparable,
}
use task_worker.HttpApi.Ids.{parse_cursor}
use task_worker.HttpApi.Faults.{public_fault, connection}
use task_worker.HttpApi.Client.{max_response}
use task_worker.Errors.{Error, ErrorCode, Fault, Outcome, fault, faulted, ok, err}
use task_worker.Events.{Cursor}
use task_worker.Text.{Text, bytes, split_on, has_prefix, cut_prefix}
use mathlib.Core.List.{reverse}

abbrev pub max_event : ℕ
max_event = 16777216

abbrev pub max_stream : ℕ
max_stream = max_response + 1024

abbrev pub newline : ℕ
newline = 10

-- `send`: the JSON encoder ends its text with a newline, and a frame ends with a blank line.
unfoldable pub send : Text → Text → Text → Text
send kind id json =
    (if id != [] then bytes "id: " ++ (id ++ newline ∷ []) else [])
    ++ (bytes "event: " ++ (kind ++ newline ∷ (bytes "data: " ++ (json ++ newline ∷ newline ∷ []))))

-- The comments `connected` and `heartbeat`.
unfoldable pub comment : Text → Text
comment words = bytes ": " ++ (words ++ newline ∷ newline ∷ [])

-- `bufio.ScanLines`: a line loses one carriage return at its end; the last line may lack its newline.
strip_return : Text → Text
strip_return [] = []
strip_return (c ∷ []) = if c == 13 then [] else c ∷ []
strip_return (c ∷ d ∷ cs) = c ∷ strip_return (d ∷ cs)

scanned : List Text → List Text
scanned [] = []
scanned (p ∷ []) = if p == [] then [] else strip_return p ∷ []
scanned (p ∷ q ∷ ps) = strip_return p ∷ scanned (q ∷ ps)

unfoldable pub lines : Text → List Text
unfolding scanned strip_return
lines s = scanned (split_on newline s)

pub record Frame : Type 0 where
  pub kind : Text
  pub id : Text
  pub content : Option Text

abbrev pub no_frame : Frame
no_frame = record { kind = []; id = []; content = none }

abbrev pub frame_too_large : Error
frame_too_large = faulted (fault ErrorCode.limit_exceeded "event frame too large")

abbrev pub content_of : Frame → Text
content_of f = elim f.content [ none ↦ [] | some t ↦ t ]

-- The client's decoders: of the field `cursor` of an event or a snapshot, and of a fault.
pub record FrameDecoders : Type 0 where
  pub cursor : Text → Option Cursor
  pub fault : Text → Option Fault

-- What one line makes of the frame so far: the next frame, or the end of the watch.
unfoldable pub read_field : Frame → Text → Outcome Frame
read_field f line =
    if has_prefix (bytes ":") line then ok f else elim (cut_prefix (bytes "id: ") line) [
      | some id ↦ ok (record f { id = id })
      | none ↦ elim (cut_prefix (bytes "event: ") line) [
        | some kind ↦ ok (record f { kind = kind })
        | none ↦ elim (cut_prefix (bytes "data: ") line) [
          | some t ↦
              if is_some f.content then err connection else ok (record f { content = some t })
          | none ↦ err connection
        ]
      ]
    ]

same_cursor : Option Cursor → Cursor → Bool
same_cursor none c = false
same_cursor (some d) c = d.store_id == c.store_id && d.sequence == c.sequence

-- The checks of a whole frame: `none` when it is to be applied, else how the watch ends.
unfoldable pub refuse_frame : FrameDecoders → Frame → Option Error
unfolding same_cursor
refuse_frame d f =
    if f.kind == bytes "error"
    then some (elim (d.fault (content_of f)) [
      | none ↦ connection
      | some e ↦ faulted (public_fault (faulted e))
    ])
    else if f.kind != bytes "snapshot" && f.kind != bytes "event"
    then some connection
    else elim (parse_cursor f.id) [
      | err e ↦ some e
      | ok c ↦
          if not (same_cursor (d.cursor (content_of f)) c)
            || (f.kind == bytes "event" && ltb max_event (length (content_of f)))
          then some connection
          else none
    ]

module _ {A : Type 0} (d : FrameDecoders) (apply : A → Frame → Option Error × A) where
  -- At a blank line: `none` to go on.
  end_frame : Option Error → Frame → A → Option Error × A
  end_frame (some e) f a = (some e, a)
  end_frame none f a = apply a f

  unfoldable pub blank_line : Frame → A → Option Error × A
  unfolding end_frame
  blank_line f a = if f.kind == [] then (none, a) else end_frame (refuse_frame d f) f a

  unfoldable pub after_blank : Option Error × A → (A → Error × A) → Error × A
  after_blank (some e, b) k = (e, b)
  after_blank (none, b) k = k b

  unfoldable pub after_field : Outcome Frame → A → (Frame → Error × A) → Error × A
  after_field (err e) a k = (e, a)
  after_field (ok g) a k = k g

  -- The loop over the lines, with the size of the frame so far. It ends with an error always: the
  -- caller reconnects with its cursor.
  unfoldable pub watch_lines : Frame → ℕ → A → List Text → Error × A
  unfolding blank_line after_blank after_field
  watch_lines f size a [] = (connection, a)
  watch_lines f size a (line ∷ rest) =
      let total = size + length line in
      let next_frame = λ (b : A). watch_lines no_frame 0 b rest in
      let next_line = λ (g : Frame). watch_lines g total a rest in
      if leb max_stream (length line)
      then (connection, a)
      else if ltb max_stream total
      then (frame_too_large, a)
      else if line == []
      then after_blank (blank_line f a) next_frame
      else after_field (read_field f line) a next_line

  unfoldable pub watch_stream : A → Text → Error × A
  unfolding watch_lines
  watch_stream a body = watch_lines no_frame 0 a (lines body)
