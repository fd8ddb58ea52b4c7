-- ===== src/Examples/Ollama.antt =====
-- Witnesses for the inference backend's client.
use task_worker.Base.Int.{pos}
use task_worker.Base.{
  Bool, Bytes-discrete, List, Option, [], false, none, refl, some, true, ℕ_discrete, ◌++◌, ◌==◌,
  ◌∷◌, ◌≡◌, Bytes-comparable,
}
use task_worker.Errors.{Error, ok}
use task_worker.Jobs.{ContextInfo, Usage}
use task_worker.Ollama.Budget.{Holds, budget, overrun, minus, budget-Holds}
use task_worker.Ollama.Streaming.{
  ChatRecord, record_failure, same_model, valid_metrics, result_of, Read, stream, no_progress,
  newline, at_end,
}
use task_worker.Ollama.Streaming.Whole.{Told, lines_of, stream-Told}
use task_worker.Text.{Text, bytes}

abbrev info : ContextInfo
info = record {
  model_capacity_tokens = some (pos 4096);
  model_capacity_source = [];
  model_capacity_observed_at = none;
  requested_tokens = some (pos 2048);
  loaded = none;
  input_estimate = some (record { tokens = pos 40; method = []; exact = false });
  reserved_output_tokens = pos 128;
}

info_fits : budget info ≡ none
unfolding budget overrun minus
info_fits = refl

budget-Holds_example :
    Holds (some (pos 4096)) 128 40 × Holds (some (pos 2048)) 128 40 × Holds none 128 40
budget-Holds_example = budget-Holds info 128 40 refl refl info_fits

abbrev no_usage : Usage
no_usage = record {
  input_tokens = none;
  output_tokens = none;
  total_duration_ns = none;
  load_duration_ns = none;
  generate_duration_ns = none;
}

abbrev part : Bool → ChatRecord
part finished = record {
  model = bytes "m";
  remote_host = [];
  remote_model = [];
  message = some (record { role = bytes "assistant"; content = bytes "hi" });
  finished = some finished;
  reason = bytes "stop";
  error = none;
  usage = no_usage;
}

abbrev valid : Text → Bool
valid t = true

-- The line `b` is the last record, any other a record before it.
abbrev decode_line : Text → Option ChatRecord
decode_line t = some (part (t == bytes "b"))

abbrev gather : Text → Text → Option Error × Text
gather t s = (none, s ++ t)

abbrev reads : List Read
reads =
    record { line = bytes "a"; ending = newline; context_live = true }
    ∷ record { line = bytes "b"; ending = at_end; context_live = true }
    ∷ []

reads_end :
    stream valid decode_line gather (bytes "m") no_progress [] reads
    ≡ (ok (result_of (part true)), bytes "hihi")
unfolding stream record_failure same_model valid_metrics Bytes-discrete ℕ_discrete
reads_end = refl

stream-Told_example :
    Told valid decode_line gather
      (bytes "m")
      (lines_of reads)
      0
      []
      (bytes "hihi")
      (result_of (part true))
stream-Told_example =
    stream-Told valid decode_line gather (bytes "m") reads [] (bytes "hihi") (result_of (part true))
      reads_end
