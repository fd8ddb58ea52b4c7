-- ===== src/Examples/Disk.antt =====
-- Witnesses for the journal: a codec that knows one transaction, which pauses the queue.
use task_worker.Journal.Pages.{IsPage, read_events-IsPage}
use task_worker.Journal.Replay.{
  add_events, finish_page, page_refused, read_events, read_page, read_records, records_after,
  reread,
}
use task_worker.Errors.{ok}
use task_worker.Journal.Frames.{read_short}
use task_worker.State.{max_pending}
use task_worker.Base.Int.{ℤ-discrete, pos, ℤ-comparable}
use task_worker.Text.{Text, hex_encode}
use task_worker.Events.{
  Commit, Event, EventKind-discrete, Ids-discrete, QueueState, queue_state, EventKind-comparable,
  Cursor,
}
use task_worker.Journal.Append.{Planned, over_budget, plan_append, check, appended}
use task_worker.Journal.{
  Codec, Journal, admission_bytes, hard_bytes, header_size, known_key, put_uint32, frame, DiskFile,
  get_uint32, prefix, decode,
}
use task_worker.State.Reducer.{
  apply_commit, apply_event, apply_events, apply_kind, apply_queue, bad_header, bad_receipt,
  check_queue, find_active, pending_ids, terminal_reserve, validate_cursor,
}
use task_worker.Journal.Restart.{IsCodec, append_crash, recover_file-restores, view, origin}
use task_worker.Journal.Scan.{empty_state, recover_file, header}
use task_worker.Base.{
  ◌≡◌, Bool, Bool-cases, Bytes-discrete, List, Option, [], ap, arith, false, if◌then◌else◌, inl,
  inr, is_none, length, none, refl, some, sym, take, true, ℕ_discrete, ◌&&◌, ◌++◌, ◌<◌, ◌==◌, ◌∷◌,
  Bytes-comparable, ℕ-comparable,
}
use task_worker.Journal.Durability.{done, frames}
use task_worker.Examples.Data.{zeros, encoding, digits}

abbrev pause : Commit
pause = record {
  version = pos 1;
  events =
      record {
        cursor = record { store_id = digits 32; sequence = 1 };
        at = 1;
        kind = queue_state;
        job_id = [];
        job = none;
        output = none;
        queue =
            some (record {
              paused = true;
              pending = [];
              active = none;
              max_pending = pos max_pending;
            });
      }
      ∷ [];
  receipt = none;
}

QueueState-discrete : Discrete QueueState
QueueState-discrete = hlevel ℕ_discrete

is_pausing : Option QueueState → Bool
is_pausing none = false
is_pausing (some q) = decide_queue (
    QueueState-discrete q
      (record { paused = true; pending = []; active = none; max_pending = pos max_pending }))
  where
    decide_queue : {P : Type 0} → Dec P → Bool
    decide_queue (yes p) = true
    decide_queue (no n) = false

is_pause_event : List Event → Bool
unfolding is_pausing
is_pause_event [] = false
is_pause_event (e ∷ []) =
    e.cursor.store_id == digits 32
    && e.cursor.sequence == 1
    && e.at == 1
    && e.kind == queue_state
    && e.job_id == []
    && is_none e.job
    && is_none e.output
    && is_pausing e.queue
is_pause_event (e ∷ f ∷ es) = false

is_pause : Commit → Bool
unfolding is_pause_event
is_pause c = c.version == pos 1 && is_none c.receipt && is_pause_event c.events

is_pause_event-eq : (es : List Event) → is_pause_event es ≡ true → es ≡ pause.events
unfolding is_pause_event
is_pause_event-eq [] h = cc
is_pause_event-eq (e ∷ []) h = ground arith
is_pause_event-eq (e ∷ f ∷ es) h = cc

is_pause-eq : (c : Commit) → is_pause c ≡ true → c ≡ pause
unfolding is_pause
is_pause-eq c h = ground (arith, is_pause_event-eq c.events)

abbrev codec : Codec
codec = record {
  encoding = record encoding { commit = λ c. if is_pause c then some (1 ∷ []) else none };
  parse = λ b. ok pause;
}

encodes_pause : (c : Commit) (b : Text) → codec.encoding.commit c ≡ some b → c ≡ pause
encodes_pause c b h = elim (Bool-cases (is_pause c)) [
  | inl e ↦ is_pause-eq c e
  | inr e ↦ absurd (ground arith)
]

encodes_byte : (c : Commit) (b : Text) → codec.encoding.commit c ≡ some b → 0 < length b
encodes_byte c b h = elim (Bool-cases (is_pause c)) [
  | inl e ↦
      let one : Text = 1 ∷ [] in let same : one ≡ b = ground arith in omega (arith, ap length same)
  | inr e ↦ absurd (ground arith)
]

codec-IsCodec : IsCodec codec
codec-IsCodec = record {
  digest = record { length_32 = λ b. refl };
  round_trip = λ c b h. ap ok (sym (encodes_pause c b h));
  nonempty = λ c b h. encodes_byte c b h;
}

abbrev identity : Text
identity = zeros 16

-- A handle on a fresh journal.
abbrev fresh : Journal (Unit {0})
fresh = record {
  file = tt;
  state = empty_state (hex_encode identity);
  records = [];
  size = header_size;
  poisoned = none;
  closed = false;
  admission = admission_bytes;
  hard = hard_bytes;
}

abbrev planned : Planned
planned = record {
  body = 1 ∷ [];
  next = record {
    cursor = record { store_id = digits 32; sequence = 1 };
    queue = record { paused = true; pending = []; active = none; max_pending = pos max_pending };
    jobs = [];
  };
}

pause-planned : plan_append codec fresh pause ≡ ok planned
unfolding plan_append check over_budget terminal_reserve is_pause QueueState-discrete apply_commit
    apply_events apply_event apply_kind apply_queue ℤ-discrete ℕ_discrete bad_header Bytes-discrete
    EventKind-discrete Ids-discrete bad_receipt check_queue find_active pending_ids hex_encode
    known_key
pause-planned = refl

-- A crash after 40 bytes of the frame, and after all of it.
append_crash_example :
    recover_file codec (
      header codec identity
      ++ (frames codec.encoding.sha256 [] ++ take 40 (frame codec.encoding.sha256 planned.body)))
    ≡ ok (view fresh)
unfolding header frame put_uint32
append_crash_example =
    append_crash codec codec-IsCodec identity [] fresh pause planned 40 refl done pause-planned
      (omega arith)

recover_file-restores_example :
    recover_file codec (header codec identity ++ (frames codec.encoding.sha256 [] ++ 0 ∷ []))
    ≡ ok (origin identity)
unfolding header put_uint32
recover_file-restores_example =
    recover_file-restores codec codec-IsCodec identity (0 ∷ []) [] (origin identity) refl done
      (read_short codec.encoding.sha256 (0 ∷ []) [] (omega arith)) (omega arith)

-- The same handle after the append, over a file that holds the frame.
abbrev paused : Journal (Unit {0})
paused = appended codec pause planned fresh

abbrev file : DiskFile (Unit {0})
file = record {
  contents = λ _. header codec identity ++ frame codec.encoding.sha256 planned.body;
  write = λ f b. (none, length b, f);
  sync = λ f. (none, f);
  close = λ f. (none, f);
}

abbrev start : Cursor
start = record { store_id = digits 32; sequence = 0 }

paused-read_events : read_events file codec false start 1 paused ≡ (ok pause.events, paused)
unfolding read_events read_page page_refused finish_page read_records records_after reread
    add_events appended header frame prefix put_uint32 get_uint32 decode check validate_cursor
    is_pause QueueState-discrete ℤ-discrete ℕ_discrete Bytes-discrete EventKind-discrete hex_encode
paused-read_events = refl

read_events-IsPage_example : IsPage codec 0 1 pause.events × (paused ≡ paused)
read_events-IsPage_example =
    read_events-IsPage file codec false start 1 paused paused pause.events paused-read_events
