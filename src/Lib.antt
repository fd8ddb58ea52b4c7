-- ===== src/Lib.antt =====
-- A model of the core of TaskWORKER: a worker that runs one inference job at a time, keeps an
-- ordered queue, journals every change before it shows, and recovers its state from the journal; the
-- HTTP server and client in front of it, and the MCP bridge over that client.
--
-- The program's parts, and where they are modelled:
--
--   internal/core/errors.go, jobs.go, events.go, ports.go: the data. Errors (stable fault codes, Go's
--     `error` as a value, results `Outcome`), Jobs, Events (cursors, events, snapshots, receipts,
--     commits, commands), Encoding (the JSON encodings and SHA-256, as parameters).
--   internal/core/state.go: State holds the limits, `ValidateRequest` (validate_request), `Compose`
--     (compose) and `transition`; State.Reducer holds `ApplyCommit` (apply_commit), one function for
--     each of its checks and branches, `TerminalReserve`, `CheckJobFits` and `ValidateCursor`;
--     Cursors holds `Cursor.UnmarshalJSON` (parse_sequence). State.Invariant, State.History,
--     State.Admission, State.Queue, State.Machine and State.Reach are theorems about them.
--   internal/core/worker.go: Worker holds the state of the worker, `commit` and `poison`;
--     Worker.Create the commands Submit, Retry and Branch (submit_job, retry_job, branch_job);
--     Worker.Dispatch, Worker.Backend (`emit`, `complete`), Worker.Commands (`cancelJob`,
--     `setQueuePaused`, reads, `call`), Worker.Models and Worker.Lifecycle (`NewWorker`, `Shutdown`) the rest.
--     Worker.Moves, Worker.Steps and Worker.Runs follow the state through any interleaving,
--     Worker.Startup through a start; Worker.Idempotency is about repeated commands.
--   internal/core/watch.go: Streams holds the bounded backlog of an observer, Watch the worker's
--     side of `Watch`, `Next` (one pass of its loop) and `Close`; Streams.Backlog is about the backlog.
--   internal/adapters/journal/journal.go: Journal holds frames and the handle, Journal.Scan the
--     recovery loop of `Open`, Journal.Append `Append`, `Recover` and `Close`, Journal.Replay
--     `ReadEvents`. Journal.Frames, Journal.Durability, Journal.Restart and Journal.Pages are theorems.
--   internal/adapters/ollama/modelfile.go: Modelfile holds `templateOnlyModelfile`.
--   internal/adapters/ollama/generate.go, http.go: Ollama holds the faults and the answers to a status,
--     Ollama.Objects `validObject`, Ollama.Budget `estimate` and `budget`, Ollama.Streaming `stream`.
--   internal/adapters/httpapi: HttpApi.Ids holds the names of cursors and jobs (codec.go, `jobID`),
--     HttpApi.Faults the public faults and their statuses, HttpApi.Client `Call` and `Wait` (client.go),
--     HttpApi.Routes the paths, HttpApi.Server the checks of `ServeHTTP` and HttpApi.Server.Handle the
--     handlers (serve), HttpApi.Service the interface by which they reach the worker, HttpApi.Events
--     the frames of a stream (send) and `Watch` (watch_stream). HttpApi.Ids.RoundTrip,
--     HttpApi.Client.Outcomes, HttpApi.Server.Trust, Cases, Effects and OverWorker, and
--     HttpApi.Events.Delivery and Reading are theorems about them.
--   internal/adapters/mcpbridge: Bridge.Envelope holds the checks of messages, Bridge.Framer `track`
--     and `Write`, Bridge.Input `filterInput` (framing.go); Bridge.Slots `acquire`, Bridge.Calls the calls
--     of the service and the reports of their errors, Bridge.Create `create`, Bridge.Waiting,
--     Bridge.Listing, Bridge.Reading and Bridge.Output the tools wait_job, list_jobs, read_events and
--     read_job_output (tools.go, view.go). Bridge.Framer.Promise is the abstract machine that the
--     framer implements; the children of the others are theorems. Text.Splits and Text.Boundaries
--     hold what they need of texts.
--
-- How they interact: a command of the worker plans its events, `commit` gives them cursors and times
-- and has `ApplyCommit` check them, the store appends the transaction, and only then the worker
-- takes the new snapshot and pushes the events to its observers. The journal runs the same
-- `ApplyCommit` when it appends and again when it recovers. The HTTP server turns a request into at
-- most two operations of the worker and streams its events as frames; the client reads replies and
-- frames; each tool of the bridge makes calls of that client.
--
-- Conventions:
--   * Strings are lists of bytes (Text); the texts of errors are literals. `Clone` is the identity:
--     it copies a value through its JSON, which keeps strings that are valid UTF-8.
--   * The worker's mutex makes each operation one step on its state. A goroutine of a generation is
--     the record `Generation`; what the backend reports arrives as the steps `emits` and `completes`
--     with any text, result or error. A Boolean `ended` says that the context has ended.
--   * The store, the JSON encodings, SHA-256, the clock and the random source are parameters. Where
--     a theorem relies on them it says so: `IsCodec` is that JSON reads back what it has written and
--     that SHA-256 gives 32 bytes. SHA-256 is not assumed to be injective.
--   * Go's string enumerations have a constructor `other` for any other text. Times are nanoseconds,
--     0 the zero time; the two zeros of a float64 are one. A nil dereference, or a call of
--     a nil function, sets `panicked`.
--   * uint64 arithmetic wraps where the source does not exclude it. Page limits are naturals.
--   * Fuel: `emit` and the scan of `Open` take the length of their text as fuel, since each round
--     consumes a byte; `write_full` takes the number of bytes left, since a round that writes none
--     ends it. `valid_object` takes twice the number of tokens, since each step consumes a token or is
--     followed by one that does; the reader of pages takes the length of the output and one more.
--   * An HTTP request is a record of what net/http, net/url and mime read out of it, and a reply of
--     the service is its status and body. JSON decoders and encoders are parameters, by the type that
--     they decode to. A request of the client is handed over, or its command is not encoded, or it is
--     not built (Sending). The bridge's commands are strings, numbers and JSON that was read, and its
--     paths are escaped, so that its calls start with a request that is handed over.
--     Headers of responses and deadlines on connections are left out. Clock readings,
--     expired contexts and the chunks of an input are data of the steps that read them.
--
-- Not modelled: the system calls of the journal's `Open` (directory, permissions, lock); of the HTTP
-- adapter, `Endpoint`, the shape check of `DecodeCommand` and the writing loop of an event stream; of the
-- bridge, the tool schemas, `jobView` and `summary`, which only rearrange JSON, and the registration
-- with the SDK; the command-line adapter, of the inference backend the transport, the
-- selection of models and the sequence of calls in `Generate`, the web page,
-- process wiring, and the vendored libraries.
mod Base
pub mod Text
pub mod Errors
pub mod Jobs
pub mod Events
pub mod Encoding
pub mod State
pub mod Streams
pub mod Worker
pub mod Watch
pub mod Cursors
pub mod Journal
pub mod Modelfile
pub mod HttpApi
pub mod Bridge
pub mod Ollama
mod Examples
