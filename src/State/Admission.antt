-- ===== src/State/Admission.antt =====
-- Receipts and accepted jobs: a transaction carries a receipt exactly if it adds a job.
use task_worker.Errors.{>>=-eq-ok, ok}
use task_worker.Jobs.{Job, JobId}
use task_worker.State.Lookup.{find-append_none, length-replace}
use task_worker.Encoding.{Encoding}
use task_worker.State.{find_job}
use task_worker.State.Reducer.Inversion.{
  accept_job-inv, apply_commit-inv, apply_event-inv, apply_job_event-inv, apply_output-inv,
  apply_queue-inv, change_job-inv,
}
use task_worker.State.Reducer.{
  Progress, accept_job, append_output, apply_commit, apply_event, apply_events, apply_job_event,
  apply_kind, bad_job, bad_receipt,
}
use task_worker.Events.{
  Commit, Event, EventKind, Receipt, Snapshot, job_accepted, job_state, job_result, job_output,
  queue_state,
}
use task_worker.Base.{
  ◌≡◌, List, Option, Option-cases, [], ap, arith, false, inl, inr, length, length-append, none,
  refl, some, subst, sym, ◌++◌, ◌+◌, ◌∙◌, ◌∷◌, ◌≢◌, ◌⊎◌,
}
use task_worker.State.History.{Keeps, apply_kind-Keeps, Keeps-trans, Keeps-refl}

abbrev pub IsPresent : JobId → List Job → Type 0
IsPresent id js = (j : Job) × (find_job id js ≡ some j)

pub IsPresent-Keeps :
    (id : JobId) (xs ys : List Job) → Keeps xs ys → IsPresent id xs → IsPresent id ys
IsPresent-Keeps id xs ys k (j, h) = let (l, found, _) = k id j h in (l, found)

absent_before :
    (id : JobId) (xs ys : List Job) → Keeps xs ys → find_job id ys ≡ none → find_job id xs ≡ none
absent_before id xs ys k h = elim (Option-cases (find_job id xs)) [
  | inl e ↦ e
  | inr (j, e) ↦ let (l, found, _) = k id j e in absurd (ground arith)
]

-- With a receipt: one job more, which was absent. Without: as many jobs as before.
abbrev pub Admits : Option Receipt → List Job → List Job → Type 0
Admits none xs ys = length ys ≡ length xs
Admits (some r) xs ys =
    (find_job r.job_id xs ≡ none) × IsPresent r.job_id ys × (length ys ≡ length xs + 1)

-- What a pass over the events has accepted, against the jobs at its start.
abbrev Accepts : List Job → Progress → Type 0
Accepts xs p =
    ((p.accepted ≡ []) × (length p.snapshot.jobs ≡ length xs))
    ⊎ ((p.accepted ≢ [])
        × (find_job p.accepted xs ≡ none)
        × IsPresent p.accepted p.snapshot.jobs
        × (length p.snapshot.jobs ≡ length xs + 1))

module _ (enc : Encoding) (xs : List Job) where
  Accepts-kept :
      (p q : Progress)
      → q.accepted ≡ p.accepted
      → length q.snapshot.jobs ≡ length p.snapshot.jobs
      → Keeps p.snapshot.jobs q.snapshot.jobs
      → Accepts xs p
      → Accepts xs q
  Accepts-kept p q same size k (inl (e, n)) = inl (same ∙ e, size ∙ n)
  Accepts-kept p q same size k (inr (e, fresh, present, n)) = inr (
    (λ z. e (sym same ∙ z)),
    subst (λ i. find_job i xs ≡ none) (sym same) fresh,
    subst (λ i. IsPresent i q.snapshot.jobs) (sym same)
        (IsPresent-Keeps p.accepted p.snapshot.jobs q.snapshot.jobs k present),
    size ∙ n,
  )

  accept_job-Accepts :
      (p q : Progress) (e : Event) (j : Job)
      → bad_job e j ≡ false
      → Keeps xs p.snapshot.jobs
      → accept_job enc p j ≡ ok q
      → Accepts xs p
      → Accepts xs q
  unfolding bad_job find_job
  accept_job-Accepts p q e j fine k h a =
      let (fits, fresh, first, room, new, expected, result) = accept_job-inv enc p q j h in
      let size : length p.snapshot.jobs ≡ length xs = ground arith in
      let present : find_job j.id (p.snapshot.jobs ++ j ∷ []) ≡ some j =
        find-append_none j.id p.snapshot.jobs (j ∷ []) fresh ∙ found_self in
      subst (Accepts xs) (sym result) (
        inr (
          named,
          absent_before j.id xs p.snapshot.jobs k fresh,
          (j, present),
          omega (arith, length-append p.snapshot.jobs (j ∷ []), size),
        ))
    where
      named : j.id ≢ []
      named = ground arith

      found_self : find_job j.id (j ∷ []) ≡ some j
      found_self = ground arith

  apply_job_event-Accepts :
      (p q : Progress) (e : Event)
      → Keeps xs p.snapshot.jobs
      → Keeps p.snapshot.jobs q.snapshot.jobs
      → apply_job_event enc p e ≡ ok q
      → Accepts xs p
      → Accepts xs q
  apply_job_event-Accepts p q e k kq h a =
      let (j, given, fine, rest) = apply_job_event-inv enc p q e h in
      elim rest [
        | inl (_, accepted) ↦ accept_job-Accepts p q e j fine k accepted a
        | inr (_, changed) ↦
            let (old, found, moves, turn, same, times, outcome, result) =
              change_job-inv enc p q e.kind j changed in
            Accepts-kept p q (ap (λ (r : Progress). r.accepted) result)
              (ap (λ (r : Progress). length r.snapshot.jobs) result
                ∙ length-replace j p.snapshot.jobs)
              kq a
      ]

  apply_kind-Accepts :
      (kind : EventKind) (p q : Progress) (e : Event)
      → Keeps xs p.snapshot.jobs
      → Keeps p.snapshot.jobs q.snapshot.jobs
      → apply_kind enc kind p e ≡ ok q
      → Accepts xs p
      → Accepts xs q
  unfolding apply_kind
  apply_kind-Accepts job_accepted p q e k kq h a = apply_job_event-Accepts p q e k kq h a
  apply_kind-Accepts job_state p q e k kq h a = apply_job_event-Accepts p q e k kq h a
  apply_kind-Accepts job_result p q e k kq h a = apply_job_event-Accepts p q e k kq h a
  apply_kind-Accepts job_output p q e k kq h a =
      let (o, j, given, found, busy, offset, utf8, room, fits, result) =
        apply_output-inv enc p q e h in
      Accepts-kept p q (ap (λ (r : Progress). r.accepted) result)
        (ap (λ (r : Progress). length r.snapshot.jobs) result
          ∙ length-replace (append_output j o.text) p.snapshot.jobs)
        kq a
  apply_kind-Accepts queue_state p q e k kq h a =
      let (r, limited, result) = apply_queue-inv enc p q e h in
      Accepts-kept p q (ap (λ (t : Progress). t.accepted) result)
        (ap (λ (t : Progress). length t.snapshot.jobs) result) kq a
  apply_kind-Accepts (EventKind.other t) p q e k kq h a = cc

  apply_events-Accepts :
      (p q : Progress) (es : List Event)
      → Keeps xs p.snapshot.jobs
      → apply_events enc p es ≡ ok q
      → Accepts xs p
      → Accepts xs q
  unfolding apply_events
  apply_events-Accepts p q [] k h a = let same : p ≡ q = ground arith in subst (Accepts xs) same a
  apply_events-Accepts p q (e ∷ es) k h a =
      let (r, first, rest) = >>=-eq-ok (apply_event enc p e) _ h in
      let (b, fine, applied, result) = apply_event-inv enc p r e first in
      let kb = apply_kind-Keeps enc e.kind p b e applied in
      let step = apply_kind-Accepts e.kind p b e k kb applied a in
      let all_kept = Keeps-trans xs p.snapshot.jobs b.snapshot.jobs k kb in
      apply_events-Accepts r q es
        (subst (λ (t : Progress). Keeps xs t.snapshot.jobs) (sym result) all_kept) rest
        (subst (Accepts xs) (sym result) step)

Admits-receipt :
    (xs : List Job) (p : Progress) (receipt : Option Receipt)
    → bad_receipt p.accepted receipt ≡ false
    → Accepts xs p
    → Admits receipt xs p.snapshot.jobs
unfolding bad_receipt
Admits-receipt xs p none h a = ground arith
Admits-receipt xs p (some r) h (inl (e, n)) = absurd (ground arith)
Admits-receipt xs p (some r) h (inr (e, fresh, present, n)) =
    let same : p.accepted ≡ r.job_id = ground arith in
    (
      subst (λ i. find_job i xs ≡ none) same fresh,
      subst (λ i. IsPresent i p.snapshot.jobs) same present,
      n,
    )

-- A transaction with a receipt adds exactly one job, the one that the receipt names, under an id
-- that was free; a transaction without one adds none.
pub apply_commit-Admits :
    (enc : Encoding) (s t : Snapshot) (c : Commit)
    → apply_commit enc s c ≡ ok t
    → Admits c.receipt s.jobs t.jobs
apply_commit-Admits enc s t c h =
    let (p, run, receipt, checked, result) = apply_commit-inv enc s t c h in
    let a =
      apply_events-Accepts enc s.jobs _ p c.events (Keeps-refl s.jobs) run (inl (refl, refl)) in
    subst (λ (u : Snapshot). Admits c.receipt s.jobs u.jobs) (sym result)
      (Admits-receipt s.jobs p c.receipt receipt a)
