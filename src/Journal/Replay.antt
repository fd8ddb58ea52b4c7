-- ===== src/Journal/Replay.antt =====
-- `ReadEvents` of internal/adapters/journal/journal.go: one page of the events after a cursor.
-- `sort.Search` is taken at its documented result on records in order: the first record that ends
-- after the cursor.
use task_worker.Text.{Text}
use task_worker.Journal.Append.{check_open}
use task_worker.Base.{
  Bool, List, [], drop, false, if◌then◌else◌, leb, length, ltb, not, some, take, true, ℕ, ◌!=◌,
  ◌++◌, ◌+◌, ◌==◌, ◌||◌, ◌∷◌, ℕ-comparable, Bytes-comparable,
}
use task_worker.Errors.{
  ErrorCode, Outcome, fail_if, ◌>>=◌, ◌>>◌, plain, ok, context_ended, err, faulted, fault,
}
use task_worker.State.{max_observer_bytes, max_observer_events}
use task_worker.State.Reducer.{validate_cursor}
use task_worker.Events.{Commit, Cursor, Event}
use task_worker.Worker.{encoded_length}
use task_worker.Journal.{
  Codec, DiskFile, Index, Journal, decode, get_uint32, frame_size, storage_error,
}

-- The page so far, and the size of its encoded events; `full` when `ReadEvents` returns at once.
pub record Page : Type 0 where
  pub events : List Event
  pub size : ℕ
  pub full : Bool

unfoldable pub records_after : ℕ → List Index → List Index
records_after seq [] = []
records_after seq (r ∷ rs) =
    let rest = records_after seq rs in if ltb seq r.last then r ∷ rs else rest

-- The loop over the events of one transaction, which ends when the page has `limit` events.
unfoldable pub add_events : Codec → ℕ → ℕ → List Event → Page → Page
add_events codec after limit [] page = page
add_events codec after limit (e ∷ es) page =
    let n = encoded_length (codec.encoding.event e) in
    let grown : Page = record {
      events = page.events ++ e ∷ [];
      size = page.size + n;
      full = false;
    } in
    let skipped = add_events codec after limit es page in
    let rest = add_events codec after limit es grown in
    if not (ltb after e.cursor.sequence)
    then skipped
    else if ltb max_observer_bytes (page.size + n)
    then record page { full = true }
    else if length grown.events == limit
    then grown
    else rest

-- A frame is read again at its place, with its checksums.
unfoldable pub reread : Codec → Text → Index → Outcome Commit
unfolding decode
reread codec contents r =
    let frame = drop r.offset contents in
    let body = take r.length (drop frame_size frame) in
    fail_if (ltb (length contents) (r.offset + frame_size + r.length)) (plain "EOF")
    >> fail_if
        (get_uint32 frame != 1
          || get_uint32 (drop 4 frame) != r.length
          || codec.encoding.sha256 (take 8 frame) != take 32 (drop 8 frame)
          || codec.encoding.sha256 body != take 32 (drop 40 frame))
        (plain "replay frame changed")
    >> decode codec body

unfoldable pub read_records : Codec → Text → ℕ → ℕ → List Index → Page → Outcome Page
unfolding reread add_events
read_records codec contents after limit [] page = ok page
read_records codec contents after limit (r ∷ rs) page =
    if page.full || leb limit (length page.events)
    then ok page
    else reread codec contents r >>= λ c.
        read_records codec contents after limit rs (add_events codec after limit c.events page)

module _ {File : Type 0} (disk : DiskFile File) (codec : Codec) where
  unfoldable pub finish_page : Outcome Page → Journal File → Outcome (List Event) × Journal File
  finish_page (ok page) j = (ok page.events, j)
  finish_page (err e) j =
      (err (storage_error "journal"), record j { poisoned = some (storage_error "journal") })

  unfoldable pub read_page : Cursor → ℕ → Journal File → Outcome (List Event) × Journal File
  unfolding read_records finish_page records_after
  read_page after limit j =
      finish_page
        (read_records codec (disk.contents j.file) after.sequence limit
          (records_after after.sequence j.records) (record { events = []; size = 0; full = false }))
        j

  -- The tests in front of the search.
  unfoldable pub page_refused : Bool → Cursor → ℕ → Journal File → Outcome (Unit {0})
  unfolding validate_cursor
  page_refused ended after limit j =
      fail_if ended context_ended
      >> check_open j
      >> validate_cursor after j.state.snapshot.cursor
      >> fail_if (ltb limit 1 || ltb max_observer_events limit)
          (faulted (fault ErrorCode.invalid_request "invalid replay page size"))

  unfoldable pub read_events :
      Bool → Cursor → ℕ → Journal File → Outcome (List Event) × Journal File
  unfolding read_page page_refused
  read_events ended after limit j = elim (page_refused ended after limit j) [
    | err e ↦ (err e, j)
    | ok _ ↦ read_page after limit j
  ]
