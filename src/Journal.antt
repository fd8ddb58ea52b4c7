-- ===== src/Journal.antt =====
-- internal/adapters/journal/journal.go: the journal file as bytes, its frames, and the handle.
pub mod Scan
pub mod Append
pub mod Replay
pub mod Pages
pub mod Frames
pub mod Durability
pub mod Restart
use task_worker.Events.{Commit, Event, Receipt, Recovery}
use task_worker.Encoding.{Encoding}
use task_worker.State.{invalid, max_commit_bytes}
use task_worker.Text.{Text, byte_at}
use task_worker.Errors.{
  Error, ErrorCode, Outcome, fail_if, fault, or_fail, ◌>>=◌, ◌>>◌, faulted, plain, ok,
}
use task_worker.Base.{
  ◌≡◌, Bool, List, Option, String, [], drop, false, if◌then◌else◌, ltb, none, some, take, ℕ, ◌!=◌,
  ◌%◌, ◌*◌, ◌++◌, ◌+◌, ◌-◌, ◌/◌, ◌==◌, ◌||◌, ◌∷◌, Comparable, length, Bytes-comparable,
  ℕ-comparable,
}

abbrev pub header_size : ℕ
header_size = 64

abbrev pub frame_size : ℕ
frame_size = 72

abbrev pub admission_bytes : ℕ
admission_bytes = 201326592

abbrev pub hard_bytes : ℕ
hard_bytes = 268435456

pub record Index : Type 0 where
  pub offset : ℕ
  pub length : ℕ  -- uint32
  pub first : ℕ
  pub last : ℕ

-- `json.Unmarshal` of a record, with unknown fields and trailing text refused.
pub record Codec : Type 0 where
  pub encoding : Encoding
  pub parse : Text → Outcome Commit

-- The open file, behind the interface `diskFile`: what it holds, and the calls that change it.
-- `write` answers how many bytes it has written.
pub record DiskFile (File : Type 0) : Type 0 where
  pub contents : File → Text
  pub write : File → Text → Option Error × ℕ × File
  pub sync : File → Option Error × File
  pub close : File → Option Error × File

pub record Journal (File : Type 0) : Type 0 where
  pub file : File
  pub state : Recovery
  pub records : List Index
  pub size : ℕ
  pub poisoned : Option Error
  pub closed : Bool
  pub admission : ℕ
  pub hard : ℕ

abbrev pub storage_error : String → Error
storage_error m = faulted (fault ErrorCode.storage m)

abbrev pub budget_exhausted : Error
budget_exhausted = faulted (
    fault ErrorCode.limit_exceeded
      "journal storage budget exhausted; preserve history and use a new data directory")

-- "TWJRNL\r\n".
abbrev pub magic : Text
magic = 84 ∷ 87 ∷ 74 ∷ 82 ∷ 78 ∷ 76 ∷ 13 ∷ 10 ∷ []

-- `binary.BigEndian.PutUint32` and `Uint32`.
unfoldable pub put_uint32 : ℕ → Text
put_uint32 n = n / 16777216 % 256 ∷ n / 65536 % 256 ∷ n / 256 % 256 ∷ n % 256 ∷ []

unfoldable pub get_uint32 : Text → ℕ
get_uint32 b = byte_at 0 b * 16777216 + byte_at 1 b * 65536 + byte_at 2 b * 256 + byte_at 3 b

-- The frame that `Append` writes around an encoded transaction.
unfoldable pub prefix : Text → Text
prefix b = put_uint32 1 ++ put_uint32 (length b)

unfoldable pub frame : (Text → Text) → Text → Text
unfolding prefix
frame sha256 b = prefix b ++ (sha256 (prefix b) ++ (sha256 b ++ b))

-- What stands at the front of the bytes that are left: no whole frame, something corrupt, or the
-- body of a frame.
pub data Front : Type 0 where
  torn : Front
  corrupt : String → Front
  whole : Text → Front

-- The tests of the loop in `Open`, in their order, and their answers.
unfoldable pub judge : Bool → Bool → Bool → Bool → Bool → Text → Front
judge no_header bad_prefix bad_length cut bad_body body =
    if no_header
    then torn
    else if bad_prefix
    then corrupt "frame header checksum mismatch"
    else if bad_length
    then corrupt "unsupported frame or invalid length"
    else if cut
    then torn
    else if bad_body
    then corrupt "checksum mismatch"
    else whole body

abbrev pub bad_length : ℕ → ℕ → Bool
bad_length version size = version != 1 || size == 0 || ltb max_commit_bytes size

unfoldable pub read_frame : (Text → Text) → Text → Front
unfolding judge
read_frame sha256 rest =
    let size = get_uint32 (drop 4 rest) in
    let body = take size (drop frame_size rest) in
    judge (ltb (length rest) frame_size) (sha256 (take 8 rest) != take 32 (drop 8 rest))
      (bad_length (get_uint32 rest) size) (ltb (length rest - frame_size) size)
      (sha256 body != take 32 (drop 40 rest)) body

-- `decode`: only the canonical encoding of a transaction is accepted.
unfoldable pub decode : Codec → Text → Outcome Commit
decode codec b = do
  c ← codec.parse b
  canonical ← or_fail (codec.encoding.commit c) (plain "noncanonical transaction JSON")
  fail_if (canonical != b) (plain "noncanonical transaction JSON")
  ok c

unfoldable pub known_key : Text → List Receipt → Bool
known_key key [] = false
known_key key (r ∷ rs) = r.key == key || known_key key rs

abbrev pub repeats_key : Option Receipt → List Receipt → Bool
repeats_key none rs = false
repeats_key (some r) rs = known_key r.key rs

abbrev pub receipts_with : List Receipt → Option Receipt → List Receipt
receipts_with rs none = rs
receipts_with rs (some r) = rs ++ r ∷ []

abbrev pub first_sequence : List Event → ℕ
first_sequence [] = 0
first_sequence (e ∷ es) = e.cursor.sequence
