-- ===== src/State/Invariant.antt =====
-- What every journalled snapshot satisfies, and that each transaction keeps it.
use task_worker.Encoding.{Encoding}
use task_worker.Errors.{>>=-eq-ok}
use task_worker.State.Reducer.Inversion.{
  accept_job-inv, apply_commit-inv, apply_event-inv, apply_job_event-inv, apply_output-inv,
  apply_queue-inv, bad_header-sequence, change_job-inv,
}
use task_worker.Text.{Text, valid_string}
use task_worker.Jobs.{Job, succeeded, JobId}
use task_worker.Text.Utf8.{valid_string-append}
use task_worker.Events.{
  Event, EventKind, Snapshot, Commit, job_accepted, job_state, job_result, job_output, queue_state,
}
use task_worker.State.Reducer.{
  append_output, bad_job, bad_result, bad_times, no_code, not_fresh, pending_ids, Progress,
  accept_job, apply_commit, apply_event, apply_events, apply_job_event, apply_kind, apply_output,
  apply_queue, change_job,
}
use task_worker.Base.{
  ◌≡◌, All, List, [], arith, false, is_some, length, length-append, none, true, ◌+◌, ◌∷◌, ◌≢◌, ◌≤◌,
  All-append, inl, inr, subst, sym,
}
use task_worker.State.{
  terminal, validate_request, max_output_bytes, is_active, max_jobs, max_pending, max_uint64, ok,
  pos,
}
use task_worker.State.Lookup.{
  Distinct, All-find, All-replace, Distinct-append, Distinct-replace, length-replace,
}
use task_worker.State.Queue.{active_ids, option_list, IsNamed, check_queue-inv}

-- The record of one job makes sense in its state.
pub record IsSound (j : Job) : Type 0 where
  pub named : j.id ≢ []
  pub requested : validate_request j.request j.instructions ≡ ok tt
  pub created : j.created_at ≢ 0
  pub output_bounded : length j.result.text ≤ max_output_bytes
  pub output_utf8 : valid_string j.result.text ≡ true
  pub finished_iff : is_some j.finished_at ≡ terminal j.state
  pub started : is_active j.state ≡ true → is_some j.started_at ≡ true
  pub clean : terminal j.state ≡ false → j.error ≡ none
  pub succeeded_clean : j.state ≡ succeeded → j.error ≡ none
  pub failure_coded : terminal j.state ≡ true → j.state ≢ succeeded → no_code j.error ≡ false

-- What holds between two events of a transaction.
pub record IsOrderly (s : Snapshot) : Type 0 where
  pub distinct : Distinct s.jobs
  pub sound : All IsSound s.jobs
  pub retained : length s.jobs ≤ max_jobs
  pub queue_limit : s.queue.max_pending ≡ pos max_pending
  pub sequence_fits : s.cursor.sequence ≤ max_uint64

-- What holds between two transactions.
pub record IsConsistent (s : Snapshot) : Type 0 where
  pub orderly : IsOrderly s
  pub open orderly use *
  pub pending_exact : s.queue.pending ≡ pending_ids s.jobs
  pub pending_bounded : length s.queue.pending ≤ max_pending
  pub one_active : active_ids s.jobs ≡ option_list s.queue.active

pub All-IsNamed : (js : List Job) → All IsSound js → All IsNamed js
All-IsNamed [] a = tt
All-IsNamed (j ∷ js) a = (a.0.named, All-IsNamed js a.1)

IsSound-fresh : (e : Event) (j : Job) → bad_job e j ≡ false → not_fresh j ≡ false → IsSound j
unfolding bad_job not_fresh
IsSound-fresh e j h k = ground arith

IsSound-changed :
    (e : Event) (kind : EventKind) (old j : Job)
    → IsSound old
    → bad_job e j ≡ false
    → bad_times kind old j ≡ false
    → bad_result old j ≡ false
    → IsSound j
unfolding bad_job bad_times bad_result
IsSound-changed e kind old j s h k l = ground arith

IsSound-output :
    (j : Job) (t : Text)
    → IsSound j
    → is_active j.state ≡ true
    → valid_string t ≡ true
    → length j.result.text + length t ≤ max_output_bytes
    → IsSound (append_output j t)
unfolding append_output
IsSound-output j t s a v b =
    ground (arith, length-append j.result.text t, valid_string-append j.result.text t)

module _ (enc : Encoding) where
  accept_job-IsOrderly :
      (p q : Progress) (e : Event) (j : Job)
      → IsOrderly p.snapshot
      → bad_job e j ≡ false
      → accept_job enc p j ≡ ok q
      → IsOrderly q.snapshot
  accept_job-IsOrderly p q e j v b h =
      let (fits, fresh, first, room, new, expected, result) = accept_job-inv enc p q j h in
      subst (λ (r : Progress). IsOrderly r.snapshot) (sym result)
        (record {
          distinct = Distinct-append j p.snapshot.jobs v.distinct fresh;
          sound = All-append IsSound p.snapshot.jobs (j ∷ []) v.sound (IsSound-fresh e j b new, tt);
          retained = omega (arith, length-append p.snapshot.jobs (j ∷ []));
          queue_limit = v.queue_limit;
          sequence_fits = v.sequence_fits;
        })

  change_job-IsOrderly :
      (p q : Progress) (e : Event) (j : Job)
      → IsOrderly p.snapshot
      → bad_job e j ≡ false
      → change_job enc p e.kind j ≡ ok q
      → IsOrderly q.snapshot
  change_job-IsOrderly p q e j v b h =
      let (old, found, moves, turn, same, times, outcome, result) =
        change_job-inv enc p q e.kind j h in
      let before = All-find IsSound j.id p.snapshot.jobs old v.sound found in
      let after = IsSound-changed e e.kind old j before b times outcome in
      subst (λ (r : Progress). IsOrderly r.snapshot) (sym result)
        (record {
          distinct = Distinct-replace j p.snapshot.jobs v.distinct;
          sound = All-replace IsSound j p.snapshot.jobs after v.sound;
          retained = omega (arith, length-replace j p.snapshot.jobs, v.retained);
          queue_limit = v.queue_limit;
          sequence_fits = v.sequence_fits;
        })

  apply_output-IsOrderly :
      (p q : Progress) (e : Event)
      → IsOrderly p.snapshot
      → apply_output enc p e ≡ ok q
      → IsOrderly q.snapshot
  apply_output-IsOrderly p q e v h =
      let (o, j, given, found, busy, offset, utf8, room, fits, result) =
        apply_output-inv enc p q e h in
      let before = All-find IsSound e.job_id p.snapshot.jobs j v.sound found in
      let after = IsSound-output j o.text before busy utf8 room in
      subst (λ (r : Progress). IsOrderly r.snapshot) (sym result)
        (record {
          distinct = Distinct-replace (append_output j o.text) p.snapshot.jobs v.distinct;
          sound = All-replace IsSound (append_output j o.text) p.snapshot.jobs after v.sound;
          retained =
              omega (arith, length-replace (append_output j o.text) p.snapshot.jobs, v.retained);
          queue_limit = v.queue_limit;
          sequence_fits = v.sequence_fits;
        })

  apply_queue-IsOrderly :
      (p q : Progress) (e : Event)
      → IsOrderly p.snapshot
      → apply_queue enc p e ≡ ok q
      → IsOrderly q.snapshot
  apply_queue-IsOrderly p q e v h =
      let (r, limited, result) = apply_queue-inv enc p q e h in
      subst (λ (t : Progress). IsOrderly t.snapshot) (sym result)
        (record {
          distinct = v.distinct;
          sound = v.sound;
          retained = v.retained;
          queue_limit = limited;
          sequence_fits = v.sequence_fits;
        })

  apply_job_event-IsOrderly :
      (p q : Progress) (e : Event)
      → IsOrderly p.snapshot
      → apply_job_event enc p e ≡ ok q
      → IsOrderly q.snapshot
  apply_job_event-IsOrderly p q e v h =
      let (j, given, fine, rest) = apply_job_event-inv enc p q e h in
      elim rest [
        | inl accepted ↦ accept_job-IsOrderly p q e j v fine accepted.1
        | inr changed ↦ change_job-IsOrderly p q e j v fine changed.1
      ]

  apply_kind-IsOrderly :
      (k : EventKind) (p q : Progress) (e : Event)
      → IsOrderly p.snapshot
      → apply_kind enc k p e ≡ ok q
      → IsOrderly q.snapshot
  unfolding apply_kind
  apply_kind-IsOrderly job_accepted p q e v h = apply_job_event-IsOrderly p q e v h
  apply_kind-IsOrderly job_state p q e v h = apply_job_event-IsOrderly p q e v h
  apply_kind-IsOrderly job_result p q e v h = apply_job_event-IsOrderly p q e v h
  apply_kind-IsOrderly job_output p q e v h = apply_output-IsOrderly p q e v h
  apply_kind-IsOrderly queue_state p q e v h = apply_queue-IsOrderly p q e v h
  apply_kind-IsOrderly (EventKind.other t) p q e v h = cc

  apply_event-IsOrderly :
      (p q : Progress) (e : Event)
      → IsOrderly p.snapshot
      → apply_event enc p e ≡ ok q
      → IsOrderly q.snapshot
  apply_event-IsOrderly p q e v h =
      let (r, fine, applied, result) = apply_event-inv enc p q e h in
      let w = apply_kind-IsOrderly e.kind p r e v applied in
      subst (λ (t : Progress). IsOrderly t.snapshot) (sym result)
        (record {
          distinct = w.distinct;
          sound = w.sound;
          retained = w.retained;
          queue_limit = w.queue_limit;
          sequence_fits = bad_header-sequence p.snapshot e fine v.sequence_fits;
        })

  pub apply_events-IsOrderly :
      (p q : Progress) (es : List Event)
      → IsOrderly p.snapshot
      → apply_events enc p es ≡ ok q
      → IsOrderly q.snapshot
  unfolding apply_events
  apply_events-IsOrderly p q [] v h =
      let same : p ≡ q = ground arith in subst (λ (t : Progress). IsOrderly t.snapshot) same v
  apply_events-IsOrderly p q (e ∷ es) v h =
      let (r, first, rest) = >>=-eq-ok (apply_event enc p e) _ h in
      apply_events-IsOrderly r q es (apply_event-IsOrderly p r e v first) rest

  -- Every transaction that the reducer accepts, applied to any orderly snapshot, gives a consistent
  -- one.
  pub apply_commit-IsConsistent :
      (s t : Snapshot) (c : Commit) → IsOrderly s → apply_commit enc s c ≡ ok t → IsConsistent t
  apply_commit-IsConsistent s t c v h =
      let (p, run, receipt, checked, result) = apply_commit-inv enc s t c h in
      let w = apply_events-IsOrderly _ p c.events v run in
      let (exact, bounded, alone) =
        check_queue-inv p.snapshot (All-IsNamed p.snapshot.jobs w.sound) checked in
      subst IsConsistent (sym result) (record {
        orderly = w;
        pending_exact = exact;
        pending_bounded = subst (λ (l : List JobId). length l ≤ max_pending) (sym exact) bounded;
        one_active = alone;
      })
