-- ===== src/Journal/Scan.antt =====
-- The recovery loop of `Open`: frame by frame from the header to the first that is not whole.
use task_worker.Journal.{torn, corrupt, whole, Front}
use task_worker.Base.Int.{pos}
use task_worker.Errors.{Outcome, fail_if, ◌>>=◌, ◌>>◌, plain, ok, err}
use task_worker.Events.{Recovery}
use task_worker.State.Reducer.{apply_commit}
use task_worker.State.{max_pending}
use task_worker.Text.{Text, hex_encode}
use task_worker.Journal.{
  Codec, Index, decode, first_sequence, frame_size, get_uint32, hard_bytes, header_size, magic,
  put_uint32, read_frame, receipts_with, repeats_key, storage_error,
}
use task_worker.Base.{
  Bool, List, [], drop, false, length, ltb, none, suc, take, zero, ℕ, ◌!=◌, ◌++◌, ◌+◌, ◌||◌, ◌∷◌,
  Bytes-comparable, ℕ-comparable,
}

-- The loop's variables: the recovered state, the index of the records and the position.
pub record Scanned : Type 0 where
  pub state : Recovery
  pub records : List Index
  pub pos : ℕ

-- An empty store, with the id of the header.
abbrev pub empty_state : Text → Recovery
empty_state store_id = record {
  snapshot = record {
    cursor = record { store_id = store_id; sequence = 0 };
    queue = record { paused = false; pending = []; active = none; max_pending = pos max_pending };
    jobs = [];
  };
  receipts = [];
}

module _ (codec : Codec) where
  open codec.encoding use {sha256}

  -- The body of the loop for one whole frame.
  unfoldable pub replay_frame : Scanned → Text → Outcome Scanned
  replay_frame s body = do
    c ← decode codec body
    next ← apply_commit codec.encoding s.state.snapshot c
    fail_if (repeats_key c.receipt s.state.receipts) (plain "duplicate receipt")
    ok (record {
      state = record { snapshot = next; receipts = receipts_with s.state.receipts c.receipt };
      records =
          s.records
          ++ record {
            offset = s.pos;
            length = length body;
            first = first_sequence c.events;
            last = next.cursor.sequence;
          }
            ∷ [];
      pos = s.pos + frame_size + length body;
    })

  -- One round: it stops at a torn end, and goes on `again` behind a whole frame.
  unfoldable pub scan_on :
      (Scanned → Text → Outcome Scanned) → Scanned → Text → Front → Outcome Scanned
  scan_on again s rest torn = ok s
  scan_on again s rest (corrupt m) = err (storage_error m)
  scan_on again s rest (whole body) =
      replay_frame s body >>= λ t. again t (drop (frame_size + length body) rest)

  -- On fuel, for each frame takes at least 72 bytes off the rest of the file.
  unfoldable pub scan : ℕ → Scanned → Text → Outcome Scanned
  unfolding scan_on
  scan zero s rest = ok s
  scan (suc fuel) s rest = scan_on (scan fuel) s rest (read_frame sha256 rest)

  -- The header: magic, version, size, 16 bytes of identity, and their checksum.
  unfoldable pub header : Text → Text
  header identity =
      let h = magic ++ (put_uint32 1 ++ (put_uint32 header_size ++ identity)) in h ++ sha256 h

  unfoldable pub bad_file_header : Text → Bool
  bad_file_header h =
      take 8 h != magic
      || get_uint32 (drop 8 h) != 1
      || get_uint32 (drop 12 h) != header_size
      || take 32 (drop 32 h) != sha256 (take 32 h)

  -- `Open` on the bytes of an existing file: what is recovered, and up to which position; the file
  -- is truncated there.
  unfoldable pub recover_file : Text → Outcome Scanned
  unfolding bad_file_header
  recover_file file = do
    fail_if (ltb (length file) header_size || ltb hard_bytes (length file))
        (storage_error "invalid journal file size")
    fail_if (bad_file_header file) (storage_error "corrupt or unsupported header")
    scan (length file)
        (record {
          state = empty_state (hex_encode (take 16 (drop 16 file)));
          records = [];
          pos = header_size;
        })
        (drop header_size file)
