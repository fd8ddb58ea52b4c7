-- ===== src/State/Reducer/Inversion.antt =====
-- What an accepted event has passed: the checks of each branch of the reducer, one by one.
use task_worker.Base.Int.{ℤ-comparable}
use task_worker.Base.{
  ◌≡◌, inl, inr, Option-cases, true, false, some, none, [], ◌∷◌, ◌++◌, arith, ◌==◌, length, ◌<◌,
  ◌≤◌, ◌||◌, ◌+◌, ◌!=◌, ◌≢◌, ◌⊎◌, ℕ-comparable,
}
use task_worker.Errors.{ok, fail_if, >>-eq-ok, >>=-eq-ok}
use task_worker.Jobs.{Job}
use task_worker.Events.{Event, EventKind, OutputDelta, QueueState, Snapshot, Commit, job_accepted}
use task_worker.Encoding.{Encoding}
use task_worker.State.{
  find_job, replace_job, transition, max_jobs, is_active, pos, valid_string, max_pending,
  max_output_bytes, max_uint64,
}
use task_worker.State.Reducer.{
  Progress, check_job_fits, accept_job, change_job, apply_output, apply_queue,
  expected_instructions, not_fresh, starts_out_of_turn, rewrites_history, bad_times, bad_result,
  append_output, bad, apply_commit, apply_event, apply_events, apply_job_event, apply_kind,
  at_cursor, bad_header, bad_job, bad_receipt, check_queue,
}

module _ (enc : Encoding) (p q : Progress) where
  pub change_job-inv :
      (kind : EventKind) (j : Job)
      → change_job enc p kind j ≡ ok q
      → (old : Job) × (find_job j.id p.snapshot.jobs ≡ some old)
        × (transition old.state j.state ≡ true)
        × (starts_out_of_turn p.snapshot.queue j ≡ false)
        × (rewrites_history old j ≡ false)
        × (bad_times kind old j ≡ false)
        × (bad_result old j ≡ false)
        × (q ≡ (
            let s = p.snapshot in record p { snapshot = record s { jobs = replace_job j s.jobs } }))
  unfolding change_job
  change_job-inv kind j h = elim (Option-cases (find_job j.id p.snapshot.jobs)) [
    | inl e ↦ absurd (ground arith)
    | inr (old, e) ↦
        (old, e, ground arith, ground arith, ground arith, ground arith, ground arith, ground arith)
  ]

  pub accept_job-inv :
      (j : Job)
      → accept_job enc p j ≡ ok q
      → (check_job_fits enc j ≡ ok tt)
        × (find_job j.id p.snapshot.jobs ≡ none)
        × (p.accepted ≡ [])
        × (length p.snapshot.jobs < max_jobs)
        × (not_fresh j ≡ false)
        × (expected_instructions j.lineage j.request p.snapshot.jobs ≡ ok j.instructions)
        × (q ≡ (
            let s = p.snapshot in
            record { snapshot = record s { jobs = s.jobs ++ j ∷ [] }; accepted = j.id }))
  unfolding accept_job
  accept_job-inv j h = ground arith

  pub apply_output-inv :
      (e : Event)
      → apply_output enc p e ≡ ok q
      → (o : OutputDelta) × (j : Job) × (e.output ≡ some o)
        × (find_job e.job_id p.snapshot.jobs ≡ some j)
        × (is_active j.state ≡ true)
        × (o.offset_bytes ≡ pos (length j.result.text))
        × (valid_string o.text ≡ true)
        × (length j.result.text + length o.text ≤ max_output_bytes)
        × (check_job_fits enc (append_output j o.text) ≡ ok tt)
        × (q ≡ (
            let s = p.snapshot in
            record p {
              snapshot = record s { jobs = replace_job (append_output j o.text) s.jobs };
            }))
  unfolding apply_output
  apply_output-inv e h = elim (Option-cases e.output) [
    | inl none_here ↦ absurd (ground arith)
    | inr (o, given) ↦ elim (Option-cases (find_job e.job_id p.snapshot.jobs)) [
      | inl missing ↦ absurd (ground arith)
      | inr (j, found) ↦ (
        o,
        j,
        given,
        found,
        ground arith,
        ground arith,
        ground arith,
        ground arith,
        ground arith,
        ground arith,
      )
    ]
  ]

  pub apply_queue-inv :
      (e : Event)
      → apply_queue enc p e ≡ ok q
      → (r : QueueState) × (r.max_pending ≡ pos max_pending)
        × (q ≡ (let s = p.snapshot in record p { snapshot = record s { queue = r } }))
  unfolding apply_queue
  apply_queue-inv e h = elim (Option-cases e.queue) [
    | inl none_here ↦ absurd (ground arith)
    | inr (r, given) ↦ (r, ground arith, ground arith)
  ]

  pub apply_job_event-inv :
      (e : Event)
      → apply_job_event enc p e ≡ ok q
      → (j : Job) × (e.job ≡ some j)
        × (bad_job e j ≡ false)
        × (((e.kind ≡ job_accepted) × (accept_job enc p j ≡ ok q))
            ⊎ ((e.kind ≢ job_accepted) × (change_job enc p e.kind j ≡ ok q)))
  unfolding apply_job_event
  apply_job_event-inv e h = elim (Option-cases e.job) [
    | inl none_here ↦ absurd (ground arith)
    | inr (j, given) ↦ (j, given, ground arith, ground arith)
  ]

  pub apply_event-inv :
      (e : Event)
      → apply_event enc p e ≡ ok q
      → (r : Progress) × (bad_header p.snapshot e ≡ false)
        × (apply_kind enc e.kind p e ≡ ok r)
        × (q ≡ at_cursor e.cursor r)
  unfolding apply_event
  apply_event-inv e h =
      let (fine, rest) = >>-eq-ok (fail_if (bad_header p.snapshot e) bad) _ h in
      let (r, applied, result) = >>=-eq-ok (apply_kind enc e.kind p e) _ rest in
      (r, ground arith, applied, ground arith)

module _ (enc : Encoding) (s t : Snapshot) (c : Commit) where
  pub apply_commit-inv :
      apply_commit enc s c ≡ ok t
      → (p : Progress) × (apply_events enc (record { snapshot = s; accepted = [] }) c.events ≡ ok p)
        × (bad_receipt p.accepted c.receipt ≡ false)
        × (check_queue p.snapshot ≡ ok tt)
        × (t ≡ p.snapshot)
  unfolding apply_commit
  apply_commit-inv h =
      let (version, rest) =
        >>-eq-ok (fail_if (c.version != pos 1 || length c.events == 0) bad) _ h in
      let (p, run, last) =
        >>=-eq-ok (apply_events enc (record { snapshot = s; accepted = [] }) c.events) _ rest in
      let (receipt, more) = >>-eq-ok (fail_if (bad_receipt p.accepted c.receipt) bad) _ last in
      let (checked, result) = >>-eq-ok (check_queue p.snapshot) _ more in
      (p, run, ground arith, checked, ground arith)

-- An event's header continues the sequence of the snapshot, in the same store.
pub bad_header-next :
    (s : Snapshot) (e : Event)
    → bad_header s e ≡ false
    → s.cursor.sequence ≤ max_uint64
    → (e.cursor.sequence ≡ s.cursor.sequence + 1)
      × (e.cursor.store_id ≡ s.cursor.store_id)
      × (s.cursor.sequence < max_uint64)
      × (e.at ≢ 0)
unfolding bad_header
bad_header-next s e h b = (ground arith, ground arith, ground arith, ground arith)

pub bad_header-sequence :
    (s : Snapshot) (e : Event)
    → bad_header s e ≡ false
    → s.cursor.sequence ≤ max_uint64
    → e.cursor.sequence ≤ max_uint64
bad_header-sequence s e h b = let (next, _, below, _) = bad_header-next s e h b in omega arith
