-- ===== src/Worker/Commits.antt =====
-- The two outcomes of `commit`, and what it leaves alone.
use task_worker.Errors.{Error, Outcome, ok, err}
use task_worker.Events.{Commit, Event, Receipt, Snapshot}
use task_worker.Worker.{
  Env, Worker, commit, poison, stamp, append_commit, apply_and_append, with_receipt,
  sequence_exhausted, pos,
}
use task_worker.State.Reducer.{apply_commit}
use task_worker.Base.{
  ◌≡◌, List, Option, Option-cases, arith, inl, inr, is_some, none, refl, some, true, ℕ, length, ◌+◌,
}

module _ {Disk : Type 0} where
  -- The parts of the worker that no commit touches.
  pub record SameFlags (w w' : Worker Disk) : Type 0 where
    pub same_stopping : w'.stopping ≡ w.stopping
    pub same_closed : w'.closed ≡ w.closed
    pub same_panicked : w'.panicked ≡ w.panicked
    pub same_output_err : w'.output_err ≡ w.output_err

module _ {Disk : Type 0} (env : Env Disk) where
  -- The transaction that stands behind a successful commit.
  pub record Committed (receipt : Option Receipt) (w w' : Worker Disk) : Type 0 where
    pub transaction : Commit
    pub carries : transaction.receipt ≡ receipt
    pub applied : apply_commit env.encoding w.state transaction ≡ ok w'.state
    pub receipts_now : w'.receipts ≡ with_receipt receipt w.receipts
    pub flags : SameFlags w w'
    pub same_cancel : w'.cancel ≡ w.cancel
    pub same_fatal : w'.fatal ≡ w.fatal

  pub record Refused (w w' : Worker Disk) : Type 0 where
    pub same_state : w'.state ≡ w.state
    pub same_receipts : w'.receipts ≡ w.receipts
    pub flags : SameFlags w w'
    pub same_running : is_some w'.cancel ≡ is_some w.cancel
    pub fatal_stays : is_some w.fatal ≡ true → is_some w'.fatal ≡ true

  abbrev pub CommitResult : Option Receipt → Worker Disk → Option Error × Worker Disk → Type 0
  CommitResult receipt w (none, w') = Committed receipt w w'
  CommitResult receipt w (some e, w') = Refused w w'

  poison-Refused : (e : Error) (w : Worker Disk) → Refused w (poison e w)
  unfolding poison
  poison-Refused e w = ground arith

  append_commit-result :
      (next : Snapshot) (c : Commit) (r : Option Error × Disk) (w : Worker Disk)
      → apply_commit env.encoding w.state c ≡ ok next
      → CommitResult c.receipt w (append_commit env next c r w)
  unfolding append_commit
  append_commit-result next c (none, disk) w h = record {
    transaction = c;
    carries = refl;
    applied = h;
    receipts_now = refl;
    flags = ground arith;
    same_cancel = refl;
    same_fatal = refl;
  }
  append_commit-result next c (some e, disk) w h = ground arith

  apply_and_append-result :
      (c : Commit) (w : Worker Disk) → CommitResult c.receipt w (apply_and_append env c w)
  unfolding apply_and_append
  apply_and_append-result c w = go (apply_commit env.encoding w.state c) refl
    where
      go :
          (r : Outcome Snapshot)
          → apply_commit env.encoding w.state c ≡ r
          → CommitResult c.receipt w (apply_and_append env c w)
      go (ok next) h = rw (h, apply_and_append) (append_commit-result next c _ w h)
      go (err e) h = rw (h, apply_and_append) (poison-Refused e w)

  -- The readings of the clock are no part of the result.
  pub result-clock :
      (receipt : Option Receipt) (n : ℕ) (w : Worker Disk) (r : Option Error × Worker Disk)
      → CommitResult receipt (record w { clock_reads = n }) r
      → CommitResult receipt w r
  result-clock receipt n w (none, w') h = record {
    transaction = h.transaction;
    carries = h.carries;
    applied = h.applied;
    receipts_now = h.receipts_now;
    flags = ground arith;
    same_cancel = h.same_cancel;
    same_fatal = h.same_fatal;
  }
  result-clock receipt n w (some e, w') h = ground arith

  -- A commit either applies one transaction with the given receipt, or changes no job and no
  -- receipt.
  pub commit-result :
      (events : List Event) (receipt : Option Receipt) (w : Worker Disk)
      → CommitResult receipt w (commit env events receipt w)
  unfolding commit
  commit-result events receipt w =
      let n = w.clock_reads + length events in
      let v : Worker Disk = record w { clock_reads = n } in
      let cursor = w.state.cursor in
      elim (Option-cases (stamp env.now cursor.store_id cursor.sequence w.clock_reads events)) [
        | inl e ↦
            rw (e, commit)
              (result-clock receipt n w (some sequence_exhausted, poison sequence_exhausted v)
                (poison-Refused sequence_exhausted v))
        | inr (stamped, e) ↦
            let c : Commit = record { version = pos 1; events = stamped; receipt = receipt } in
            rw (e, commit)
              (result-clock receipt n w (apply_and_append env c v) (apply_and_append-result c v))
      ]
