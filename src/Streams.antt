-- ===== src/Streams.antt =====
-- internal/core/watch.go: the bounded backlog of one observer. A stream that has left the worker's
-- `observers` map stays readable; `attached` says whether it is in the map.
pub mod Backlog
use task_worker.Events.{Cursor, Event}
use task_worker.Errors.{Error, ErrorCode, fault, faulted}
use task_worker.State.{max_observer_bytes, max_observer_events}
use task_worker.Base.{
  Bool, List, Option, [], false, if◌then◌else◌, leb, length, ltb, some, true, ℕ, ◌++◌, ◌+◌, ◌||◌,
  ◌∷◌,
}

pub record QueuedEvent : Type 0 where
  pub event : Event
  pub size : ℕ

pub record Stream : Type 0 where
  pub id : ℕ
  pub attached : Bool
  pub cursor : Cursor
  pub through : ℕ
  pub queue : List QueuedEvent
  pub bytes : ℕ
  pub closed : Bool
  pub err : Option Error
  pub wake : Bool

abbrev pub slow_consumer : Error
slow_consumer =
    faulted (
      fault ErrorCode.slow_consumer "observer backlog exceeded; reconnect from last applied cursor")

-- The buffered channel `wake` holds one signal.
unfoldable pub signal : Stream → Stream
signal s = record s { wake = true }

unfoldable pub finish : Option Error → Stream → Stream
unfolding signal
finish e s =
    if s.closed then s else signal (record s { closed = true; err = e; queue = []; bytes = 0 })

-- The Boolean result of `push`, with the stream that it leaves.
unfoldable pub push : Event → ℕ → Stream → Bool × Stream
unfolding signal
push e size s =
    if s.closed
    then (false, s)
    else if leb max_observer_events (length s.queue) || ltb max_observer_bytes (s.bytes + size)
    then (
      false,
      signal (record s { closed = true; err = some slow_consumer; queue = []; bytes = 0 }),
    )
    else (
      true,
      signal (record s {
        queue = s.queue ++ record { event = e; size = size } ∷ [];
        bytes = s.bytes + size;
      }),
    )

-- The loops over `observers`: `push` or `finish` each attached stream.
unfoldable pub push_attached : Event → ℕ → Stream → Stream
unfolding push
push_attached e size s =
    let (kept, t) = push e size s in if s.attached then record t { attached = kept } else s

unfoldable pub finish_attached : Option Error → Stream → Stream
unfolding finish
finish_attached e s = let t = finish e s in if s.attached then record t { attached = false } else s
