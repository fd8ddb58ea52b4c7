-- ===== src/Watch.antt =====
-- The worker's side of internal/core/watch.go: `Watch`, `Next` and `Close`. A stream is named by its
-- place in the list of streams, which only grows.
use task_worker.Base.{
  Bool, List, Option, [], false, if◌then◌else◌, length, ltb, none, some, true, ℕ, ◌++◌, ◌-◌, ◌==◌,
  ◌∷◌, ℕ-comparable,
}
use task_worker.Worker.{Worker, Env, available, poison}
use task_worker.Streams.{Stream, QueuedEvent, finish}
use task_worker.State.Reducer.{validate_cursor}
use task_worker.Errors.{
  Error, ErrorCode, Outcome, ok, err, fault, faulted, context_ended, end_of_stream,
}
use task_worker.Events.{Cursor, Event}

-- One pass through the loop of `Next`: it returns, or waits for a signal.
pub data Poll : Type 0 where
  returned : Outcome Event → Poll
  waiting : Poll

update_stream : ℕ → (Stream → Stream) → List Stream → List Stream
update_stream id f [] = []
update_stream id f (s ∷ ss) = (if s.id == id then f s else s) ∷ update_stream id f ss

unfoldable pub find_stream : ℕ → List Stream → Option Stream
find_stream id [] = none
find_stream id (s ∷ ss) = if s.id == id then some s else find_stream id ss

-- The error of a closed stream; a stream without one has ended.
closing_error : Option Error → Error
closing_error none = end_of_stream
closing_error (some e) = e

unfoldable pub take_queued : QueuedEvent → List QueuedEvent → Stream → Stream
take_queued q rest s = record s { queue = rest; bytes = s.bytes - q.size; cursor = q.event.cursor }

abbrev pub replay_gap : Error
replay_gap = faulted (fault ErrorCode.storage "replay gap")

module _ {Disk : Type 0} where
  unfoldable pub open_stream : Cursor → Worker Disk → ℕ × Worker Disk
  open_stream c w =
      let id = length w.streams in
      let s : Stream = record {
        id = id;
        attached = true;
        cursor = c;
        through = w.state.cursor.sequence;
        queue = [];
        bytes = 0;
        closed = false;
        err = none;
        wake = false;
      } in
      (id, record w { streams = w.streams ++ s ∷ [] })

  unfoldable pub watch : Bool → Cursor → Worker Disk → Outcome ℕ × Worker Disk
  unfolding open_stream validate_cursor available
  watch ended c w = if ended then (err context_ended, w) else elim (available w) [
    | some e ↦ (err e, w)
    | none ↦ elim (validate_cursor c w.state.cursor) [
      | err e ↦ (err e, w)
      | ok _ ↦ let (id, w') = open_stream c w in (ok id, w')
    ]
  ]

  unfoldable pub close_stream : ℕ → Worker Disk → Worker Disk
  unfolding update_stream finish
  close_stream id w = record w {
    streams = update_stream id (λ s. finish none (record s { attached = false })) w.streams;
  }

  -- `poison` unless the worker is stopping.
  unfoldable pub poison_reader : Error → Worker Disk → Worker Disk
  unfolding poison
  poison_reader e w = if w.stopping then w else poison e w

  -- What `Next` makes of a replayed page; `ended` says whether its context has ended meanwhile.
  unfoldable pub replayed :
      Bool → ℕ → Outcome (List Event) → Stream → Worker Disk → Poll × Worker Disk
  unfolding poison_reader update_stream
  replayed ended id (err e) s w = (returned (err e), if ended then w else poison_reader e w)
  replayed ended id (ok (e ∷ [])) s w =
      if ltb s.through e.cursor.sequence
      then (returned (err replay_gap), poison_reader replay_gap w)
      else (
        returned (ok e),
        record w { streams = update_stream id (λ t. record t { cursor = e.cursor }) w.streams },
      )
  replayed ended id (ok _) s w = (returned (err replay_gap), poison_reader replay_gap w)

module _ {Disk : Type 0} (env : Env Disk) where
  -- The rest of a pass, once the context is found alive.
  unfoldable pub poll_stream : Bool → Stream → Worker Disk → Poll × Worker Disk
  unfolding replayed take_queued closing_error update_stream
  poll_stream ended_after s w =
      if s.closed
      then (returned (err (closing_error s.err)), w)
      else if ltb s.cursor.sequence s.through
      then (let (page, disk) = env.store.read_events w.disk s.cursor 1 in
          replayed ended_after s.id page s (record w { disk = disk }))
      else elim s.queue [
        | [] ↦ (
          waiting,
          record w { streams = update_stream s.id (λ t. record t { wake = false }) w.streams },
        )
        | q ∷ rest ↦ (
          returned (ok q.event),
          record w { streams = update_stream s.id (take_queued q rest) w.streams },
        )
      ]

  unfoldable pub next : Bool → Bool → ℕ → Worker Disk → Option Poll × Worker Disk
  unfolding poll_stream find_stream
  next ended ended_after id w =
      if ended then (some (returned (err context_ended)), w) else elim (find_stream id w.streams) [
        | none ↦ (none, w)
        | some s ↦ let (p, w') = poll_stream ended_after s w in (some p, w')
      ]
