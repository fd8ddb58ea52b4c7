-- ===== src/HttpApi/Ids.antt =====
-- `CursorID` and `ParseCursor` of internal/adapters/httpapi/codec.go, and `jobID` of server.go: the
-- texts that name events and jobs.
pub mod RoundTrip
use task_worker.Base.{
  Bool, List, Option, [], all, if◌then◌else◌, length, ltb, none, not, some, suc, zero, ℕ, ◌!=◌, ◌%◌,
  ◌&&◌, ◌*◌, ◌++◌, ◌+◌, ◌-◌, ◌/◌, ◌==◌, ◌||◌, ◌∷◌, ℕ-comparable, Bytes-comparable,
}
use task_worker.Text.{Text, split_on, is_hex_digit}
use task_worker.Events.{Cursor}
use task_worker.Errors.{Outcome, ok, err, Error, ErrorCode, fault, faulted}
use task_worker.State.{max_uint64}

-- `strconv.FormatUint` of a uint64, digit by digit from the end; 20 digits are enough.
format_digits : ℕ → ℕ → Text → Text
format_digits zero n acc = acc
format_digits (suc fuel) n acc =
    let rest = format_digits fuel (n / 10) ((48 + n % 10) ∷ acc) in
    if ltb n 10 then (48 + n) ∷ acc else rest

unfoldable pub format_uint : ℕ → Text
unfolding format_digits
format_uint n = format_digits 20 n []

-- `strconv.ParseUint` in base 10, of 64 bits.
parse_from : ℕ → Text → Option ℕ
parse_from n [] = some n
parse_from n (c ∷ cs) =
    let v = n * 10 + (c - 48) in
    let rest = parse_from v cs in if ltb c 48 || ltb 57 c || ltb max_uint64 v then none else rest

unfoldable pub parse_uint : Text → Option ℕ
unfolding parse_from
parse_uint [] = none
parse_uint (c ∷ cs) = parse_from 0 (c ∷ cs)

unfoldable pub cursor_id : Cursor → Text
cursor_id c = c.store_id ++ 58 ∷ format_uint c.sequence

-- 32 lowercase hexadecimal characters: the names of stores and of jobs.
unfoldable pub is_id : Text → Bool
is_id s = length s == 32 && all is_hex_digit s

abbrev pub bad_cursor : Error
bad_cursor = faulted (fault ErrorCode.cursor_invalid "invalid event cursor")

-- The number behind the colon, which must be written as `FormatUint` writes it.
parse_number : Text → Text → Outcome Cursor
parse_number store s = elim (parse_uint s) [
  | none ↦ err bad_cursor
  | some n ↦
      if format_uint n != s then err bad_cursor else ok (record { store_id = store; sequence = n })
]

parse_parts : List Text → Outcome Cursor
unfolding parse_number
parse_parts (store ∷ number ∷ []) =
    if not (is_id store) || number == [] then err bad_cursor else parse_number store number
parse_parts _ = err bad_cursor

unfoldable pub parse_cursor : Text → Outcome Cursor
unfolding parse_parts
parse_cursor s = parse_parts (split_on 58 s)
