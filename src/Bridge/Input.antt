-- ===== src/Bridge/Input.antt =====
-- `filterInput` of internal/adapters/mcpbridge/framing.go: the lines of the peer, bounded and
-- checked before the SDK reads them.
pub mod Lines
use task_worker.Base.{
  Bool, List, Option, [], false, if◌then◌else◌, length, ltb, none, not, some, true, ℕ, ◌&&◌, ◌++◌,
  ◌+◌, ◌==◌, ◌||◌, ◌∷◌, Comparable, Bytes-comparable,
}
use task_worker.Base.Int.{ℤ, negsuc}
use task_worker.Bridge.Envelope.{Json, envelope_problem}
use task_worker.Bridge.Framer.{Framer, Wire, track, write}
use task_worker.Errors.{Error}
use task_worker.HttpApi.Ids.{format_uint}
use task_worker.Text.{Text, bytes, trim_space, has_prefix}

abbrev pub parse_error : ℤ
parse_error = negsuc 32699

abbrev pub invalid_request : ℤ
invalid_request = negsuc 32599

-- What a line is: nothing, a message that the SDK may read, or one that is answered with an error.
pub data Verdict : Type 0 where
  blank : Verdict
  message : Text → Verdict
  refused : ℤ → Text → Verdict

checked : Text → Option Text → Verdict
checked text none = message text
checked text (some p) = refused invalid_request (bytes "Invalid Request: " ++ p)

unfoldable pub judge : Json → Text → Verdict
unfolding checked
judge j line =
    let text = trim_space line in
    if text == []
    then blank
    else if not (j.valid text)
    then refused parse_error (bytes "Parse error: each line must be one complete JSON-RPC message")
    else if not (has_prefix (bytes "{") text || has_prefix (bytes "[") text)
    then refused invalid_request (bytes "Invalid Request: a message must be a JSON object")
    else checked text (envelope_problem j text)

-- The line so far, and what has been done: the messages given to the SDK, and the framer.
pub record Filter : Type 0 where
  pub line : Text
  pub oversized : Bool
  pub passed : List Text
  pub framer : Framer

-- How `ReadSlice` ends: with its buffer full, at a newline, or with an error.
pub data Ending : Type 0 where
  full : Ending
  at_newline : Ending
  at_end : Ending
  broken : Error → Ending

pub record Chunk : Type 0 where
  pub content : Text
  pub ending : Ending

-- How the pipe to the SDK is closed.
pub data Closing : Type 0 where
  open_still : Closing
  ended : Closing
  failed : Error → Closing

-- `pipe` is the pipe to the SDK, by what it was given before.
module _ (w : Wire) (pipe : List Text → Text → Option Error) (limit : ℕ) where
  pub cleared : Filter → Filter
  cleared s = record s { line = []; oversized = false }

  reply : ℤ → Text → Filter → Option Error × Filter
  reply code text s =
      let sent = write w (w.json.error_reply code text ++ 10 ∷ []) s.framer in
      (sent.0, record s { framer = sent.1 })

  hand_over : Text → Filter → Option Error × Filter
  hand_over text s =
      let line = text ++ 10 ∷ [] in
      (
        pipe s.passed line,
        record s { framer = track w text s.framer; passed = s.passed ++ line ∷ [] },
      )

  act : Verdict → Filter → Option Error × Filter
  unfolding reply hand_over
  act blank s = (none, s)
  act (message text) s = hand_over text s
  act (refused code text) s = reply code text s

  unfoldable pub flush : Filter → Option Error × Filter
  unfolding act cleared reply
  flush s =
      let too_long = bytes "message exceeds the " ++ (format_uint limit ++ bytes " byte limit") in
      if s.oversized
      then reply invalid_request too_long (cleared s)
      else act (judge w.json s.line) (cleared s)

  unfoldable pub add_chunk : Text → Filter → Filter
  add_chunk chunk s =
      if s.oversized
      then s
      else if ltb limit (length s.line + length chunk)
      then record s { line = []; oversized = true }
      else record s { line = s.line ++ chunk }

  on_flushed : Option Error × Filter → (Filter → Closing × Filter) → Closing × Filter
  on_flushed (some e, s) k = (failed e, s)
  on_flushed (none, s) k = k s

  -- The loop; it waits for more when the chunks are used up.
  unfoldable pub filter_input : Filter → List Chunk → Closing × Filter
  unfolding on_flushed
  filter_input s [] = (open_still, s)
  filter_input s (c ∷ cs) =
      let t = add_chunk c.content s in
      elim c.ending [
        | full ↦ filter_input t cs
        | at_newline ↦ on_flushed (flush t) (λ u. filter_input u cs)
        | at_end ↦
            if t.line == [] && not t.oversized
            then (ended, t)
            else on_flushed (flush t) (λ u. (ended, u))
        | broken e ↦ (failed e, t)
      ]
