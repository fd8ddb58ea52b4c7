-- ===== src/Worker/Steps/Observers.antt =====
-- Opening, reading and closing the stream of an observer.
use task_worker.Base.{Bool, List, Option-cases, [], arith, inl, inr, refl, ℕ, ◌∷◌, ◌≡◌}
use task_worker.Watch.{
  watch, next, close_stream, poison_reader, replayed, poll_stream, find_stream, open_stream,
  replay_gap,
}
use task_worker.Streams.{Stream}
use task_worker.Events.{Cursor, Event}
use task_worker.Errors.{Error, Outcome, err, ok}
use task_worker.Worker.{Env, Worker, poison}
use task_worker.Worker.Moves.{Moves, Moves-quiet}

module _ {Disk : Type 0} where
  -- Only observers, the store's handle and the worker's failure may differ.
  abbrev IsQuiet : Worker Disk → Worker Disk → Type 0
  IsQuiet w v = (v.state ≡ w.state) × (v.receipts ≡ w.receipts)

  watch-IsQuiet : (ended : Bool) (c : Cursor) (w : Worker Disk) → IsQuiet w (watch ended c w).1
  unfolding watch open_stream
  watch-IsQuiet ended c w = ground arith

  poison_reader-IsQuiet : (e : Error) (w : Worker Disk) → IsQuiet w (poison_reader e w)
  unfolding poison_reader poison
  poison_reader-IsQuiet e w = ground arith

  replayed-IsQuiet :
      (ended : Bool) (id : ℕ) (page : Outcome (List Event)) (s : Stream) (w : Worker Disk)
      → IsQuiet w (replayed ended id page s w).1
  unfolding replayed
  replayed-IsQuiet ended id (err e) s w = ground (arith, poison_reader-IsQuiet e w)
  replayed-IsQuiet ended id (ok []) s w = poison_reader-IsQuiet replay_gap w
  replayed-IsQuiet ended id (ok (e ∷ [])) s w = ground (arith, poison_reader-IsQuiet replay_gap w)
  replayed-IsQuiet ended id (ok (e ∷ f ∷ es)) s w = poison_reader-IsQuiet replay_gap w

module _ {Disk : Type 0} (env : Env Disk) where
  poll_stream-IsQuiet :
      (ended : Bool) (s : Stream) (w : Worker Disk) → IsQuiet w (poll_stream env ended s w).1
  unfolding poll_stream
  poll_stream-IsQuiet ended s w =
      let (page, disk) = env.store.read_events w.disk s.cursor 1 in
      ground (arith, replayed-IsQuiet ended s.id page s (record w { disk = disk }))

  pub watch-Moves : (ended : Bool) (c : Cursor) (w : Worker Disk) → Moves env w (watch ended c w).1
  watch-Moves ended c w = let q = watch-IsQuiet ended c w in Moves-quiet env w _ q.0 q.1

  pub next-Moves :
      (ended ended_after : Bool) (id : ℕ) (w : Worker Disk)
      → Moves env w (next env ended ended_after id w).1
  unfolding next
  next-Moves ended after id w = elim (Option-cases (find_stream id w.streams)) [
    | inl e ↦ Moves-quiet env w _ (ground (arith, e)) (ground (arith, e))
    | inr (s, e) ↦
        Moves-quiet env w _ (ground (arith, e, poll_stream-IsQuiet after s w))
          (ground (arith, e, poll_stream-IsQuiet after s w))
  ]

  pub close_stream-Moves : (id : ℕ) (w : Worker Disk) → Moves env w (close_stream id w)
  unfolding close_stream
  close_stream-Moves id w = Moves-quiet env w _ refl refl
