-- ===== src/HttpApi/Server.antt =====
-- `ServeHTTP` of internal/adapters/httpapi/server.go: the checks in their order, and the dispatch to
-- the service. Headers that a response carries beside its status and body are left out.
pub mod Handle
pub mod Trust
pub mod Cases
pub mod Effects
pub mod OverWorker
use task_worker.HttpApi.Ids.{parse_cursor}
use task_worker.Base.{
  Bool, List, Option, String, [], false, if◌then◌else◌, leb, map, none, not, some, true, ℕ, ◌!=◌,
  ◌&&◌, ◌+◌, ◌==◌, ◌||◌, ◌∷◌, Bytes-comparable, Option-comparable, length, ℕ-comparable,
}
use task_worker.HttpApi.Faults.{public_fault, status_of}
use task_worker.Worker.Models.{Model}
use task_worker.HttpApi.Routes.{Route, get_method, method_of, route_of}
use task_worker.Text.{Text, bytes, cut_prefix, trim_suffix}
use task_worker.Errors.{Error, ErrorCode, Fault, Outcome, fault, faulted, ok, err}
use task_worker.Events.{Cursor, Snapshot, QueueState, SubmitCommand, RetryCommand, BranchCommand}
use task_worker.Jobs.{Job}
use task_worker.Base.Int.{ℤ, pos, ℤ-comparable}

-- The server's own address, and the port that `net.SplitHostPort` finds in it.
pub record Address : Type 0 where
  pub host : Text
  pub port : Option Text

-- A request, with what the standard library reads out of it: `none` for a header that is absent,
-- for a query or a media type that does not parse, and for a body that cannot be read within
-- `MaxBody`. `slot_free` says whether one of the 32 slots is free.
pub record HttpRequest : Type 0 where
  pub host : Text
  pub origins : Option (List Text)
  pub fetch_sites : Option (List Text)
  pub slot_free : Bool
  pub raw_path : Text
  pub path : Text
  pub method : Text
  pub raw_query : Text
  pub query : Option (List (Text × List Text))
  pub content_length : ℤ
  pub transfer_encodings : List Text
  pub content_types : List Text
  pub content_encodings : List Text
  pub media : Option (Text × List (Text × Text))
  pub body : Option Text
  pub last_event_ids : List Text

-- What a response carries; `stream` begins an event stream, with its first frame's snapshot.
pub data Body : Type 0 where
  refusal : Fault → Body
  asset : Text → Text → Body
  serving : Body
  models : List Model → Body
  snapshot : Snapshot → Body
  jobs : List Job → Body
  queue : QueueState → Body
  job : Job → Body
  stream : Option Snapshot → Cursor → ℕ → Body

pub record Response : Type 0 where
  pub status : ℕ
  pub body : Body

-- `DecodeCommand` at the types of the commands.
pub record Decoders : Type 0 where
  pub submit : Text → Outcome SubmitCommand
  pub retry : Text → Outcome RetryCommand
  pub branch : Text → Outcome BranchCommand
  pub nothing : Text → Outcome (Unit {0})

abbrev pub protocol : ℕ → String → Response
protocol status message = record {
  status = status;
  body = refusal (fault ErrorCode.invalid_request message);
}

abbrev pub status_or_zero : Option (ℕ × String) → ℕ
status_or_zero none = 0
status_or_zero (some (n, t)) = n

unfoldable pub fail : Error → Response
fail e =
    let f = public_fault e in
    record { status = status_or_zero (status_of f.code); body = refusal f }

abbrev pub success : Body → Response
success b = record { status = 200; body = b }

abbrev pub bare : ErrorCode → Error
bare code = faulted (fault code "")

-- No slot is free: a client may try again.
abbrev no_slot : Error
no_slot =
    faulted (record { code = ErrorCode.unavailable; message = ""; retryable = true; details = [] })

unfoldable pub same_authority : Text → Address → Bool
same_authority authority a =
    authority == a.host
    || (a.port == some (bytes "80") && authority == trim_suffix (bytes ":80") a.host)

unfoldable pub same_origin : Text → Address → Bool
unfolding same_authority
same_origin origin a = elim (cut_prefix (bytes "http://") origin) [
  | none ↦ false
  | some authority ↦ same_authority authority a
]

-- The headers `Origin` and `Sec-Fetch-Site`, if present, must have one value, and a good one.
unfoldable pub good_origins : Option (List Text) → Address → Bool
unfolding same_origin
good_origins none a = true
good_origins (some (o ∷ [])) a = same_origin o a
good_origins (some _) a = false

unfoldable pub good_sites : Option (List Text) → Bool
good_sites none = true
good_sites (some (v ∷ [])) = v == bytes "same-origin" || v == bytes "none"
good_sites (some _) = false

-- The checks before the path is looked at.
unfoldable pub refuse_early : Address → HttpRequest → Option Response
unfolding same_authority good_origins good_sites fail
refuse_early a r =
    if not (same_authority r.host a)
    then some (protocol 403 "Host rejected")
    else if not (good_origins r.origins a)
    then some (protocol 403 "Origin rejected")
    else if not (good_sites r.fetch_sites)
    then some (protocol 403 "cross-site request rejected")
    else if not r.slot_free
    then some (fail no_slot)
    else if r.raw_path != []
    then some (protocol 400 "encoded path rejected")
    else none

abbrev pub has_body : HttpRequest → Bool
has_body r = r.content_length != pos 0 || length r.transfer_encodings != 0

unfoldable pub serve_asset : HttpRequest → Text × Text → Response
serve_asset r (content, kind) =
    if r.method != get_method
    then protocol 405 "method rejected"
    else if r.raw_query != [] || has_body r
    then protocol 400 "query or body rejected"
    else success (asset content kind)

-- `strings.ToLower` of a byte, as far as the comparison with `utf-8` can tell: outside ASCII only the
-- lower cases of two characters are ASCII letters, and these are `i` and `k`.
abbrev pub lower_byte : ℕ → ℕ
lower_byte b = if leb 65 b && leb b 90 then b + 32 else b

abbrev pub good_params : List (Text × Text) → Bool
good_params [] = true
good_params ((name, value) ∷ []) = name == bytes "charset" && map lower_byte value == bytes "utf-8"
good_params _ = false

abbrev pub good_media : Option (Text × List (Text × Text)) → Bool
good_media none = false
good_media (some (media, params)) = media == bytes "application/json" && good_params params

abbrev pub one_value : List Text → Bool
one_value (v ∷ []) = true
one_value _ = false

-- The checks of a command's headers.
unfoldable pub refuse_command : HttpRequest → Option Response
refuse_command r =
    if not (one_value r.content_types) || length r.content_encodings != 0
    then some (protocol 415 "one application/json Content-Type and no Content-Encoding required")
    else if not (good_media r.media)
    then some (protocol 415 "application/json required")
    else none
