-- ===== src/Examples/Bridge.antt =====
-- Witnesses for the bridge.
use task_worker.Base.Int.{pos}
use task_worker.Base.{
  All, Bool, Bytes-discrete, List, Option, [], arith, drop, false, if◌then◌else◌, inl, inr, length,
  map, none, refl, some, suc, take, true, ℕ, ℕ_discrete, ◌++◌, ◌+◌, ◌<◌, ◌==◌, ◌∷◌, ◌≡◌, ◌≤◌, ◌⊎◌,
  Bytes-comparable, ℕ-comparable,
}
use task_worker.Bridge.Calls.{
  Failure, failed, got, fails, Attempt, do_for, do_object_for, do_job_for,
}
use task_worker.Bridge.Calls.Definite.{Reported}
use task_worker.Bridge.Create.{Operation, CreateIn, Body, create, create_body}
use task_worker.Bridge.Create.Acceptance.{IsUnsent, create_definite}
use task_worker.Bridge.Envelope.{Json}
use task_worker.Bridge.Framer.{Head, Wire, new_framer}
use task_worker.Bridge.Framer.Promise.{Move, hears, says, promised, all_idle, run_framer}
use task_worker.Bridge.Framer.Promise.Kept.{Keeps}
use task_worker.Bridge.Framer.Promise.Steps.{run_framer-Keeps}
use task_worker.Bridge.Input.{Filter, cleared, filter_input}
use task_worker.Bridge.Input.Lines.{Line, chunks_of, deliver_all, filter_input-chunks_of}
use task_worker.Bridge.Listing.{list_jobs}
use task_worker.Bridge.Listing.Pages.{present, in_order, list_jobs-take}
use task_worker.Bridge.Output.{page_output}
use task_worker.Bridge.Output.Paging.{IsPage, page_output-IsPage}
use task_worker.Bridge.Output.Following.{read_on, read_on_complete}
use task_worker.Bridge.Reading.{EventJson, EventsIn, no_batch, on_event}
use task_worker.Bridge.Reading.Batches.{Covered, read_events-Covered}
use task_worker.Bridge.Slots.{
  Room, Reaches, at_start, then_step, start_plain, no_calls, send_within, receive, max_concurrent,
  max_waiters, release_never_blocks,
}
use task_worker.Bridge.Waiting.{Poll, Waited, wait_job}
use task_worker.Bridge.Waiting.Seen.{SeenInTime, IsLive, wait_job_honest}
use task_worker.Bridge.Waiting.Ends.{wait_job_ends}
use task_worker.Errors.{Error, faulted, ok}
use task_worker.Examples.Data.{request}
use task_worker.Examples.Http.{
  conflict, conflicted, conflict_reply, frame_decoders, sent, sent-IsGood, cut_off-IsUnfinished,
}
use task_worker.HttpApi.Client.{read_reply, call}
use task_worker.HttpApi.Events.{watch_stream}
use task_worker.HttpApi.Events.Reading.{wire}
use task_worker.HttpApi.Faults.{public_fault}
use task_worker.Text.{Text, bytes, concat, rune_start, utf8_step, valid_string}

hello_page : page_output (bytes "hello") (pos 0) 4 ≡ ok (record { text = bytes "hell"; next = 4 })
unfolding page_output rune_start ℕ_discrete
hello_page = refl

page_output-IsPage_example : IsPage (bytes "hello") 0 4 (record { text = bytes "hell"; next = 4 })
page_output-IsPage_example =
    page_output-IsPage (bytes "hello") 0 4 (record { text = bytes "hell"; next = 4 }) hello_page

hello_valid : valid_string (bytes "hello") ≡ true
unfolding valid_string utf8_step
hello_valid = refl

read_on_complete_example :
    (ps : List Text) × (read_on 6 (bytes "hello") 0 4 ≡ ok ps)
    × (concat ps ≡ bytes "hello")
    × All (λ (t : Text). length t ≤ 4) ps
read_on_complete_example = read_on_complete (bytes "hello") 4 hello_valid (omega arith)

abbrev json : Json
json = record {
  valid = λ t. true;
  batch = λ t. none;
  object = λ t. none;
  string = λ t. none;
  compact = λ t. some t;
  error_reply = λ code t. t;
}

-- `q` is a request under the id 1, `c` its cancellation, and any other text its answer.
abbrev heads : Text → Option Head
heads t =
    if t == bytes "q"
    then some (record { id = bytes "1"; method = bytes "call"; params = [] })
    else if t == bytes "c"
    then some (record { id = []; method = bytes "notifications/cancelled"; params = [] })
    else some (record { id = bytes "1"; method = []; params = [] })

abbrev wired : Wire
wired = record {
  json = json;
  head = heads;
  request_id = λ t. some (bytes "1");
  sink = λ before t. none;
}

abbrev moves : List Move
moves = hears (bytes "q") ∷ hears (bytes "c") ∷ says (bytes "a") ∷ []

run_framer-Keeps_example : Keeps (run_framer wired new_framer moves) (promised wired all_idle moves)
run_framer-Keeps_example = run_framer-Keeps wired moves

abbrev pipe : List Text → Text → Option Error
pipe before t = none

abbrev no_input : Filter
no_input = record { line = []; oversized = false; passed = []; framer = new_framer }

abbrev read_lines : List Line
read_lines = record { pieces = bytes "{\"a" ∷ []; last = bytes "\":1}" } ∷ []

abbrev rest_line : Line
rest_line = record { pieces = []; last = bytes "{}" }

filter_input-chunks_of_example :
    filter_input wired pipe 5 (cleared wired pipe 5 no_input) (chunks_of read_lines rest_line)
    ≡ deliver_all wired pipe 5 (cleared wired pipe 5 no_input) read_lines rest_line
filter_input-chunks_of_example = filter_input-chunks_of wired pipe 5 read_lines rest_line no_input

abbrev asked : CreateIn
asked = record { key = bytes "k"; origin = []; parent_id = []; request = some request }

abbrev attempt : Attempt
attempt = record { reply = conflict_reply; caller_live = true; expired = false }

abbrev same_text : Text → Option Text
same_text t = some t

abbrev itself : Text → Text
itself t = t

abbrev posted : Body → Attempt
posted b = attempt

abbrev conflict_failure : Failure
conflict_failure = failed (faulted (public_fault (faulted conflict)))

refused_create :
    create same_text conflicted same_text itself itself posted Operation.submit asked
    ≡ fails conflict_failure
unfolding create create_body do_job_for do_object_for do_for call read_reply ℕ_discrete
    Bytes-discrete
refused_create = refl

create_definite_example :
    IsUnsent Operation.submit asked conflict_failure
    ⊎ ((b : Body) × (create_body Operation.submit asked ≡ got b)
        × Reported conflicted conflict_reply conflict_failure)
create_definite_example =
    create_definite same_text conflicted same_text itself itself posted Operation.submit asked
      conflict_failure refused_create

abbrev event_json : EventJson
event_json = record {
  head = λ t. some (record { kind = bytes "output"; job_id = bytes "j" });
  cursor = λ t. t;
  quote = λ t. t;
}

abbrev events_in : EventsIn
events_in = record { after = []; job_id = []; max_events = none }

read_events-Covered_example : Covered event_json events_in (no_batch events_in) sent (
  some
      (watch_stream frame_decoders
        (on_event event_json events_in)
        (no_batch events_in)
        (wire sent ++ bytes "id: 0")).0,
  (watch_stream frame_decoders
      (on_event event_json events_in)
      (no_batch events_in)
      (wire sent ++ bytes "id: 0")).1,
)
read_events-Covered_example =
    read_events-Covered event_json events_in frame_decoders sent (bytes "id: 0") sent-IsGood
      (tt, ((refl, record { kind = bytes "output"; job_id = bytes "j" }, refl), tt))
      cut_off-IsUnfinished

-- A job is its state's number; 3 is terminal.
abbrev is_three : ℕ → Bool
is_three n = n == 3

abbrev seen_twice : List (Poll ℕ)
seen_twice =
    record { before = 0; result = got 1; behind = 1; caller_live = true }
    ∷ record { before = 2; result = got 3; behind = 3; caller_live = true }
    ∷ []

ends_at_three :
    wait_job is_three 30 25 none seen_twice ≡ got (record { job = some 3; terminal = true })
unfolding wait_job ℕ_discrete
ends_at_three = refl

abbrev third : Waited ℕ
third = record { job = some 3; terminal = true }

wait_job_honest_example :
    ((third.job ≡ none)
      ⊎ ((job : ℕ) × (third.job ≡ some job) × SeenInTime is_three 30 25 seen_twice job))
    × (third.terminal ≡ true → (job : ℕ) × (third.job ≡ some job) × (is_three job ≡ true))
    × (third.terminal ≡ false → IsLive is_three 30 25 third.job)
wait_job_honest_example = wait_job_honest is_three 30 25 seen_twice third ends_at_three

abbrev seen_once : List (Poll ℕ)
seen_once =
    record { before = 0; result = got 1; behind = 1; caller_live = true }
    ∷ record { before = 25; result = got 1; behind = 26; caller_live = true }
    ∷ []

wait_job_ends_example : (r : Waited ℕ) × (wait_job is_three 30 25 none seen_once ≡ got r)
wait_job_ends_example =
    wait_job_ends is_three 30 25 seen_once ((refl, 1, refl), ((refl, 1, refl), tt))
      (inr (inl (omega arith)))

abbrev listed : List (Option ℕ)
listed = some 1 ∷ some 2 ∷ none ∷ some 3 ∷ []

list_jobs-take_example :
    list_jobs suc true 2 listed 1 ≡ take 2 (map suc (present (drop 1 (in_order true listed))))
list_jobs-take_example = list_jobs-take suc true 2 listed 1

abbrev one_call : Room
one_call = record no_calls { slots = 1; plain = 1 }

one_call-Reaches : Reaches one_call
unfolding send_within
one_call-Reaches = then_step no_calls one_call at_start (start_plain no_calls 1 refl)

release_never_blocks_example :
    (1 + 0 ≤ max_concurrent)
    × (0 ≤ max_waiters)
    × (0 < 1 + 0 + 0 → (n : ℕ) × (receive 1 ≡ some n))
    × (0 < 0 → (n : ℕ) × (receive 0 ≡ some n))
release_never_blocks_example = release_never_blocks one_call one_call-Reaches
