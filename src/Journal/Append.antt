-- ===== src/Journal/Append.antt =====
-- `Append`, `Recover`, `Close` and their helpers.
use task_worker.Events.{Commit, Recovery, Snapshot}
use task_worker.Errors.{
  Error, Outcome, fail_if, or_fail, ◌>>=◌, ◌>>◌, plain, err, ok, context_ended,
}
use task_worker.State.{max_commit_bytes}
use task_worker.State.Reducer.{apply_commit, terminal_reserve}
use task_worker.Text.{Text}
use task_worker.Journal.{
  Codec, DiskFile, Journal, budget_exhausted, first_sequence, frame, frame_size, receipts_with,
  repeats_key, storage_error,
}
use task_worker.Base.{
  Bool, Option, [], drop, if◌then◌else◌, is_some, length, ltb, none, some, suc, true, zero, ℕ, ◌&&◌,
  ◌++◌, ◌+◌, ◌==◌, ◌||◌, ◌∷◌, ℕ-comparable,
}

module _ {File : Type 0} (disk : DiskFile File) where
  -- `writeFull`, on fuel: each successful write takes at least one byte.
  unfoldable pub write_full : ℕ → File → Text → Option Error × File
  write_full zero f b = (none, f)
  write_full (suc fuel) f [] = (none, f)
  write_full (suc fuel) f (x ∷ xs) =
      let (e, n, g) = disk.write f (x ∷ xs) in
      elim e [
        | some m ↦ (some m, g)
        | none ↦
            let more = write_full fuel g (drop n (x ∷ xs)) in
            if n == 0 || ltb (length (x ∷ xs)) n then (some (plain "short write"), g) else more
      ]

module _ {File : Type 0} where
  unfoldable pub check : Journal File → Option Error
  check j = elim j.poisoned [
    | some e ↦ some e
    | none ↦ if j.closed then some (storage_error "closed") else none
  ]

  abbrev pub check_open : Journal File → Outcome (Unit {0})
  check_open j = elim (check j) [ none ↦ ok tt | some e ↦ err e ]

  unfoldable pub recover : Bool → Journal File → Outcome Recovery
  recover ended j =
      if ended then err context_ended else elim (check j) [ some e ↦ err e | none ↦ ok j.state ]

-- What `Append` has decided before it writes: the encoded transaction and the state after it.
pub record Planned : Type 0 where
  pub body : Text
  pub next : Snapshot

module _ {File : Type 0} (codec : Codec) where
  -- New work stops at the admission limit; what is needed to end the accepted jobs stays reserved.
  unfoldable pub over_budget : Journal File → Commit → Text → Snapshot → Bool
  over_budget j c b next =
      (is_some c.receipt && ltb j.admission (j.size + frame_size + length b))
      || ltb j.hard (j.size + frame_size + length b + terminal_reserve codec.encoding next)

  unfoldable pub plan_append : Journal File → Commit → Outcome Planned
  plan_append j c = do
    check_open j
    b ← or_fail (codec.encoding.commit c) (storage_error "encoding")
    fail_if (ltb max_commit_bytes (length b)) budget_exhausted
    next ← apply_commit codec.encoding j.state.snapshot c
    fail_if (repeats_key c.receipt j.state.receipts) (storage_error "duplicate receipt")
    fail_if (over_budget j c b next) budget_exhausted
    ok (record { body = b; next = next })

  -- The handle after the frame is on disk.
  unfoldable pub appended : Commit → Planned → Journal File → Journal File
  appended c p j = record j {
    records =
        j.records
        ++ record {
          offset = j.size;
          length = length p.body;
          first = first_sequence c.events;
          last = p.next.cursor.sequence;
        }
          ∷ [];
    size = j.size + frame_size + length p.body;
    state = record { snapshot = p.next; receipts = receipts_with j.state.receipts c.receipt };
  }

module _ {File : Type 0} (disk : DiskFile File) (codec : Codec) where
  -- A failed write or sync poisons the handle.
  write_and_sync : Text → Journal File → Option Error × Journal File
  write_and_sync b j =
      let (e, f) = write_full disk (length b) j.file b in
      let (s, g) = disk.sync f in
      elim e [
        | some m ↦ (
          some (storage_error "write"),
          record j { file = f; poisoned = some (storage_error "write") },
        )
        | none ↦ elim s [
          | some m ↦ (
            some (storage_error "sync"),
            record j { file = g; poisoned = some (storage_error "sync") },
          )
          | none ↦ (none, record j { file = g })
        ]
      ]

  unfoldable pub write_planned : Commit → Planned → Journal File → Option Error × Journal File
  unfolding write_and_sync
  write_planned c p j =
      let (e, j') = write_and_sync (frame codec.encoding.sha256 p.body) j in
      elim e [ some m ↦ (some m, j') | none ↦ (none, appended codec c p j') ]

  unfoldable pub append : Bool → Commit → Journal File → Option Error × Journal File
  append ended c j =
      if ended
      then (some context_ended, j)
      else elim (plan_append codec j c) [ err e ↦ (some e, j) | ok p ↦ write_planned c p j ]

  unfoldable pub close : Journal File → Option Error × Journal File
  close j =
      let (e, f) = disk.close j.file in
      if j.closed then (none, j) else (e, record j { closed = true; file = f })
