-- ===== src/State/History.antt =====
-- What transactions do to the history of each job.
use task_worker.Jobs.{Job, JobId}
use task_worker.Errors.{>>=-eq-ok, ok}
use task_worker.Text.{Text}
use task_worker.State.Reducer.Inversion.{
  accept_job-inv, apply_commit-inv, apply_event-inv, apply_job_event-inv, apply_output-inv,
  apply_queue-inv, change_job-inv,
}
use task_worker.Encoding.{Encoding}
use task_worker.State.Reducer.{
  Progress, append_output, apply_commit, apply_event, apply_events, apply_job_event, apply_kind,
  apply_output, bad_times, rewrites_history,
}
use task_worker.Events.{
  Commit, Event, EventKind, Snapshot, job_accepted, job_state, job_result, job_output, queue_state,
}
use mathlib.Core.List.{append-nil, append_assoc}
use task_worker.Base.{
  ◌≡◌, Bytes-discrete, List, [], ap, arith, false, inl, inr, is_some, refl, some, subst, sym, true,
  ◌++◌, ◌∙◌, ◌∷◌,
}
use task_worker.State.{find_job, replace_job, terminal, is_active, transition}
use task_worker.State.Lookup.{find-id, find-append_some, find-replace_other, find-replace_self}
use task_worker.State.Machine.{◌⟶*◌, here, then, terminal-transition, transition-⟶, ⟶*-trans}

-- From one record of a job to a later one: what was accepted stays, output only grows, the state
-- follows the machine, and a terminal record is final.
pub record Evolves (old new : Job) : Type 0 where
  pub same_id : new.id ≡ old.id
  pub same_request : new.request ≡ old.request
  pub same_instructions : new.instructions ≡ old.instructions
  pub same_lineage : new.lineage ≡ old.lineage
  pub same_origin : new.origin ≡ old.origin
  pub same_creation : new.created_at ≡ old.created_at
  pub same_start : is_some old.started_at ≡ true → new.started_at ≡ old.started_at
  pub moved : old.state ⟶* new.state
  pub grown : (extra : Text) × (new.result.text ≡ old.result.text ++ extra)
  pub final : terminal old.state ≡ true → new ≡ old

Evolves-refl : (j : Job) → Evolves j j
Evolves-refl j = record {
  same_id = refl;
  same_request = refl;
  same_instructions = refl;
  same_lineage = refl;
  same_origin = refl;
  same_creation = refl;
  same_start = λ _. refl;
  moved = here;
  grown = ([], sym (append-nil j.result.text));
  final = λ _. refl;
}

Evolves-trans : (i j k : Job) → Evolves i j → Evolves j k → Evolves i k
Evolves-trans i j k p q = record {
  same_id = q.same_id ∙ p.same_id;
  same_request = q.same_request ∙ p.same_request;
  same_instructions = q.same_instructions ∙ p.same_instructions;
  same_lineage = q.same_lineage ∙ p.same_lineage;
  same_origin = q.same_origin ∙ p.same_origin;
  same_creation = q.same_creation ∙ p.same_creation;
  same_start = λ h. q.same_start (ap is_some (p.same_start h) ∙ h) ∙ p.same_start h;
  moved = ⟶*-trans p.moved q.moved;
  grown = (
    p.grown.0 ++ q.grown.0,
    q.grown.1 ∙ ap (λ t. t ++ q.grown.0) p.grown.1 ∙ append_assoc i.result.text p.grown.0 q.grown.0,
  );
  final = λ h. q.final (ap (λ (r : Job). terminal r.state) (p.final h) ∙ h) ∙ p.final h;
}

Evolves-changed :
    (kind : EventKind) (old j : Job)
    → j.id ≡ old.id
    → transition old.state j.state ≡ true
    → rewrites_history old j ≡ false
    → bad_times kind old j ≡ false
    → Evolves old j
unfolding rewrites_history bad_times
Evolves-changed kind old j i m h t = record {
  same_id = i;
  same_request = ground arith;
  same_instructions = ground arith;
  same_lineage = ground arith;
  same_origin = ground arith;
  same_creation = ground arith;
  same_start = λ s. ground arith;
  moved = then (transition-⟶ old.state j.state m) here;
  grown = ([], same_text ∙ sym (append-nil old.result.text));
  final = λ s. absurd (ground (arith, terminal-transition old.state j.state s));
}
  where
    same_text : j.result.text ≡ old.result.text
    same_text = ground arith

Evolves-output : (j : Job) (t : Text) → is_active j.state ≡ true → Evolves j (append_output j t)
unfolding append_output
Evolves-output j t a = record {
  same_id = refl;
  same_request = refl;
  same_instructions = refl;
  same_lineage = refl;
  same_origin = refl;
  same_creation = refl;
  same_start = λ _. refl;
  moved = here;
  grown = (t, refl);
  final = λ s. absurd (ground arith);
}

-- Every job of the first list is found in the second, evolved.
abbrev pub Keeps : List Job → List Job → Type 0
Keeps before after =
    (id : JobId) (j : Job)
    → find_job id before ≡ some j
    → (k : Job) × (find_job id after ≡ some k) × Evolves j k

pub Keeps-refl : (js : List Job) → Keeps js js
Keeps-refl js id j h = (j, h, Evolves-refl j)

pub Keeps-trans : (xs ys zs : List Job) → Keeps xs ys → Keeps ys zs → Keeps xs zs
Keeps-trans xs ys zs p q id j h =
    let (k, found, first) = p id j h in
    let (l, later, second) = q id k found in (l, later, Evolves-trans j k l first second)

Keeps-append : (js ks : List Job) → Keeps js (js ++ ks)
Keeps-append js ks id j h = (j, find-append_some id js ks j h, Evolves-refl j)

Keeps-replace :
    (js : List Job) (old new : Job)
    → find_job new.id js ≡ some old
    → Evolves old new
    → Keeps js (replace_job new js)
Keeps-replace js old new found e id j h = elim (Bytes-discrete id new.id) [
  | yes same ↦
      let hit : find_job new.id js ≡ some j = subst (λ i. find_job i js ≡ some j) same h in
      let is_old : old ≡ j = ground arith in
      (
        new,
        subst (λ i. find_job i (replace_job new js) ≡ some new) (sym same)
            (find-replace_self new js old found),
        subst (λ (o : Job). Evolves o new) is_old e,
      )
  | no other ↦ (j, find-replace_other id new js other ∙ h, Evolves-refl j)
]

module _ (enc : Encoding) where
  apply_job_event-Keeps :
      (p q : Progress) (e : Event)
      → apply_job_event enc p e ≡ ok q
      → Keeps p.snapshot.jobs q.snapshot.jobs
  apply_job_event-Keeps p q e h =
      let (j, given, fine, rest) = apply_job_event-inv enc p q e h in
      elim rest [
        | inl (_, accepted) ↦
            let (fits, fresh, first, room, new, expected, result) =
              accept_job-inv enc p q j accepted in
            subst (λ (t : Progress). Keeps p.snapshot.jobs t.snapshot.jobs) (sym result)
              (Keeps-append p.snapshot.jobs (j ∷ []))
        | inr (_, changed) ↦
            let (old, found, moves, turn, same, times, outcome, result) =
              change_job-inv enc p q e.kind j changed in
            let i = sym (find-id j.id p.snapshot.jobs old found) in
            subst (λ (t : Progress). Keeps p.snapshot.jobs t.snapshot.jobs) (sym result)
              (Keeps-replace p.snapshot.jobs old j found
                (Evolves-changed e.kind old j i moves same times))
      ]

  apply_output-Keeps :
      (p q : Progress) (e : Event)
      → apply_output enc p e ≡ ok q
      → Keeps p.snapshot.jobs q.snapshot.jobs
  unfolding append_output
  apply_output-Keeps p q e h =
      let (o, j, given, found, busy, offset, utf8, room, fits, result) =
        apply_output-inv enc p q e h in
      let i = sym (find-id e.job_id p.snapshot.jobs j found) in
      subst (λ (t : Progress). Keeps p.snapshot.jobs t.snapshot.jobs) (sym result)
        (Keeps-replace p.snapshot.jobs j (append_output j o.text)
          (subst (λ d. find_job d p.snapshot.jobs ≡ some j) i found) (Evolves-output j o.text busy))

  pub apply_kind-Keeps :
      (k : EventKind) (p q : Progress) (e : Event)
      → apply_kind enc k p e ≡ ok q
      → Keeps p.snapshot.jobs q.snapshot.jobs
  unfolding apply_kind
  apply_kind-Keeps job_accepted p q e h = apply_job_event-Keeps p q e h
  apply_kind-Keeps job_state p q e h = apply_job_event-Keeps p q e h
  apply_kind-Keeps job_result p q e h = apply_job_event-Keeps p q e h
  apply_kind-Keeps job_output p q e h = apply_output-Keeps p q e h
  apply_kind-Keeps queue_state p q e h =
      let (r, limited, result) = apply_queue-inv enc p q e h in
      subst (λ (t : Progress). Keeps p.snapshot.jobs t.snapshot.jobs) (sym result)
        (Keeps-refl p.snapshot.jobs)
  apply_kind-Keeps (EventKind.other t) p q e h = cc

  pub apply_events-Keeps :
      (p q : Progress) (es : List Event)
      → apply_events enc p es ≡ ok q
      → Keeps p.snapshot.jobs q.snapshot.jobs
  unfolding apply_events
  apply_events-Keeps p q [] h =
      let same : p ≡ q = ground arith in
      subst (λ (t : Progress). Keeps p.snapshot.jobs t.snapshot.jobs) same
        (Keeps-refl p.snapshot.jobs)
  apply_events-Keeps p q (e ∷ es) h =
      let (r, first, rest) = >>=-eq-ok (apply_event enc p e) _ h in
      let (a, fine, applied, result) = apply_event-inv enc p r e first in
      let step = apply_kind-Keeps e.kind p a e applied in
      Keeps-trans p.snapshot.jobs r.snapshot.jobs q.snapshot.jobs
        (subst (λ (t : Progress). Keeps p.snapshot.jobs t.snapshot.jobs) (sym result) step)
        (apply_events-Keeps r q es rest)

  -- A transaction loses no job: each is found under its id afterwards, with the same request,
  -- instructions, lineage, origin and creation time, with its output kept as a prefix, in a state
  -- that the machine reaches, and unchanged if it was terminal.
  pub apply_commit-Keeps :
      (s t : Snapshot) (c : Commit) → apply_commit enc s c ≡ ok t → Keeps s.jobs t.jobs
  apply_commit-Keeps s t c h =
      let (p, run, receipt, checked, result) = apply_commit-inv enc s t c h in
      subst (λ (u : Snapshot). Keeps s.jobs u.jobs) (sym result)
        (apply_events-Keeps _ p c.events run)
