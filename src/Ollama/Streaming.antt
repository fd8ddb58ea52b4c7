-- ===== src/Ollama/Streaming.antt =====
-- `stream` of internal/adapters/ollama/generate.go: the records of a generation.
pub mod Told
pub mod Whole
use task_worker.Base.Int.{leb_ℤ, ℤ, pos}
use task_worker.Base.{
  Bool, List, Option, [], false, if◌then◌else◌, is_some, length, ltb, none, not, some, true, ℕ,
  ◌!=◌, ◌&&◌, ◌++◌, ◌+◌, ◌==◌, ◌||◌, ◌∷◌, Bytes-comparable, Option-comparable, Bool-comparable,
}
use task_worker.Errors.{Error, ErrorCode, Outcome, ok, err, context_ended}
use task_worker.Jobs.{Result, Usage}
use task_worker.Ollama.{failure}
use task_worker.State.{max_output_bytes, empty_result}
use task_worker.Text.{Text, bytes, trim_space}

abbrev pub record_limit : ℕ
record_limit = 262144

abbrev pub stream_limit : ℕ
stream_limit = 33554432

pub record ChatMessage : Type 0 where
  pub role : Text
  pub content : Text

pub record ChatRecord : Type 0 where
  pub model : Text
  pub remote_host : Text
  pub remote_model : Text
  pub message : Option ChatMessage
  pub finished : Option Bool
  pub reason : Text
  pub error : Option Text
  pub usage : Usage

-- `sameModel`.
unfoldable pub same_model : Text → Text → Bool
same_model reported id = reported == id || reported == id ++ bytes ":local"

not_negative : Option ℤ → Bool
not_negative none = true
not_negative (some n) = leb_ℤ (pos 0) n

-- `validMetrics`.
unfoldable pub valid_metrics : Usage → Bool
unfolding not_negative
valid_metrics u =
    not_negative u.input_tokens
    && not_negative u.output_tokens
    && not_negative u.total_duration_ns
    && not_negative u.load_duration_ns
    && not_negative u.generate_duration_ns

error_code : Text → ErrorCode
error_code t =
    if trim_space t == bytes "the input length exceeds the context length"
    then ErrorCode.invalid_request
    else ErrorCode.backend_failure

from_assistant : Option ChatMessage → Bool
from_assistant none = false
from_assistant (some m) = m.role == bytes "assistant"

well_ended : Option Bool → Text → Bool
well_ended none reason = false
well_ended (some false) reason = true
well_ended (some true) reason = reason == bytes "stop" || reason == bytes "length"

-- What is wrong with a record.
unfoldable pub record_failure : Text → ChatRecord → Option Error
unfolding error_code from_assistant well_ended
record_failure id v = elim v.error [
  | some t ↦ some (failure (error_code t))
  | none ↦
      if not (from_assistant v.message)
        || not (same_model v.model id)
        || v.remote_host != []
        || v.remote_model != []
        || not (valid_metrics v.usage)
        || not (well_ended v.finished v.reason)
      then some (failure ErrorCode.backend_failure)
      else none
]

abbrev pub content_of : ChatRecord → Text
content_of v = elim v.message [ none ↦ [] | some m ↦ m.content ]

unfoldable pub result_of : ChatRecord → Result
result_of v = record empty_result {
  finish_reason = v.reason;
  effective_model = v.model;
  usage = v.usage;
}

-- How a read ends, and the line that it gives.
pub data ReadEnd : Type 0 where
  newline full at_end timed_out broken : ReadEnd

abbrev pub is_full : ReadEnd → Bool
is_full full = true
is_full _ = false

pub record Read : Type 0 where
  pub line : Text
  pub ending : ReadEnd
  pub context_live : Bool

-- The bytes read and the bytes put out so far, and the result once a record has ended it.
pub record Progress : Type 0 where
  pub total : ℕ
  pub output : ℕ
  pub result : Option Result

abbrev pub no_progress : Progress
no_progress = record { total = 0; output = 0; result = none }

abbrev pub is_done : Option Bool → Bool
is_done none = false
is_done (some b) = b

-- `valid` is `validObject`, `decode` is `json.Unmarshal`, and `emit` the callback of the core.
module _ {S : Type 0} (valid : Text → Bool) (decode : Text → Option ChatRecord)
    (emit : Text → S → Option Error × S) (id : Text) where
  -- The content of a record is put out, unless it is empty.
  pub put_out : Text → S → Option Error × S
  put_out t s = if t != [] then emit t s else (none, s)

  settle : Progress → ChatRecord → Option Error × S → Outcome Progress × S
  settle p v (some e, s) = (err e, s)
  settle p v (none, s) =
      (ok (record p { result = if is_done v.finished then some (result_of v) else p.result }), s)

  take_record : Progress → ChatRecord → S → Outcome Progress × S
  unfolding put_out settle
  take_record p v s = elim (record_failure id v) [
    | some e ↦ (err e, s)
    | none ↦
        let n = p.output + length (content_of v) in
        if ltb max_output_bytes n
        then (err (failure ErrorCode.limit_exceeded), s)
        else settle (record p { output = n }) v (put_out (content_of v) s)
  ]

  pub take_line : Progress → Text → S → Outcome Progress × S
  unfolding take_record
  take_line p line s =
      if line == []
      then (ok p, s)
      else if is_some p.result || not (valid line)
      then (err (failure ErrorCode.backend_failure), s)
      else elim (decode line) [
        | none ↦ (err (failure ErrorCode.backend_failure), s)
        | some v ↦ take_record p v s
      ]

  finish : Option Result → ReadEnd → Outcome Result
  finish (some r) at_end = ok r
  finish _ timed_out = err (failure ErrorCode.backend_unavailable)
  finish _ _ = err (failure ErrorCode.backend_failure)

  pub after_line :
      ReadEnd → Outcome Progress × S → (Progress → S → Outcome Result × S) → Outcome Result × S
  unfolding finish
  after_line ending (err e, s) k = (err e, s)
  after_line newline (ok p, s) k = k p s
  after_line ending (ok p, s) k = (finish p.result ending, s)

  -- The loop over the reads, the last of which ends with an error.
  unfoldable pub stream : Progress → S → List Read → Outcome Result × S
  unfolding take_line after_line
  stream p s [] = (err (failure ErrorCode.backend_failure), s)
  stream p s (r ∷ rs) =
      let total = p.total + length r.line in
      let next = λ (q : Progress) (t : S). stream q t rs in
      if ltb record_limit (length r.line) || ltb stream_limit total || is_full r.ending
      then (err (failure ErrorCode.limit_exceeded), s)
      else if not r.context_live
      then (err context_ended, s)
      else after_line r.ending (take_line (record p { total = total }) r.line s) next
