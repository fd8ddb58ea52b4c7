-- ===== src/Worker/Startup.antt =====
-- What `NewWorker` makes of a recovered journal.
use task_worker.Text.{Text}
use task_worker.Base.{
  All, Bool-cases, List, Option, Option-cases, [], arith, inl, inr, none, refl, some, subst, ◌==◌,
  ◌∷◌, ◌≡◌, Bytes-comparable,
}
use task_worker.Worker.{Env, Worker, find_receipt}
use task_worker.Worker.Moves.{IsLinked, Moves, Moves-quiet, Moves-trans}
use task_worker.Worker.Steps.{commit_after, dispatch-Moves}
use task_worker.Worker.Lifecycle.{
  receipts_of, recovered, interrupt_active, close_interrupted, start_recovered, unless_fatal,
  new_worker,
}
use task_worker.Worker.Dispatch.{dispatch}
use task_worker.Events.{Receipt, Recovery}
use task_worker.Jobs.{JobId}
use task_worker.Errors.{Error, ok, err}
use task_worker.State.{find_job}
use task_worker.State.Admission.{IsPresent}
use task_worker.State.Invariant.{IsConsistent}
use task_worker.State.History.{Keeps}
use task_worker.State.Reach.{Reach-IsConsistent, Reach-Keeps}

-- Every receipt of the journal names one of its jobs.
abbrev pub AreLinked : Recovery → Type 0
AreLinked r = All (λ (x : Receipt). IsPresent x.job_id r.snapshot.jobs) r.receipts

All-receipts_of :
    (P : Receipt → Type 0) (acc rs : List Receipt)
    → All P acc
    → All P rs
    → All P (receipts_of acc rs)
All-receipts_of P acc [] a h = a
All-receipts_of P acc (r ∷ rs) a h = All-receipts_of P (r ∷ acc) rs (h.0, a) h.1

All-find_receipt :
    (P : Receipt → Type 0) (key : Text) (rs : List Receipt) (r : Receipt)
    → All P rs
    → find_receipt key rs ≡ some r
    → P r
unfolding find_receipt
All-find_receipt P key [] r h e = cc
All-find_receipt P key (x ∷ xs) r h e = elim (Bool-cases (x.key == key)) [
  | inl same ↦ subst P (ground (arith, same, e)) h.0
  | inr other ↦ All-find_receipt P key xs r h.1 (ground (arith, other, e))
]

no_result {ℓ κ} : {A : Type ℓ} {P : Type κ} (e : Error) (a : A) → err e ≡ ok a → P
no_result e a h = cc

unless_fatal-ok : {Disk : Type 0} (u v : Worker Disk) → unless_fatal u ≡ ok v → u ≡ v
unfolding unless_fatal
unless_fatal-ok u v h = elim (Option-cases u.fatal) [
  | inl e ↦ ground (arith, e, h)
  | inr (f, e) ↦ absurd (ground (arith, e, h))
]

module _ {Disk : Type 0} (env : Env Disk) where
  recovered-IsLinked : (r : Recovery) (disk : Disk) → AreLinked r → IsLinked (recovered r disk)
  unfolding recovered
  recovered-IsLinked r disk h key x e =
      let P = λ (y : Receipt). IsPresent y.job_id r.snapshot.jobs in
      All-find_receipt P key (receipts_of [] r.receipts) x (All-receipts_of P [] r.receipts tt h) e

  interrupt_active-Moves :
      (id : JobId) (w : Worker Disk) → Moves env w (interrupt_active env id w).1
  unfolding interrupt_active
  interrupt_active-Moves id w = elim (Option-cases (find_job id w.state.jobs)) [
    | inl e ↦ rw (e, interrupt_active) (Moves-quiet env w _ refl refl)
    | inr (old, e) ↦ rw (e, interrupt_active) (commit_after env w _ _ none refl refl tt)
  ]

  close_interrupted-Moves :
      (active : Option JobId) (w : Worker Disk) → Moves env w (close_interrupted env active w).1
  unfolding close_interrupted
  close_interrupted-Moves none w = Moves-quiet env w w refl refl
  close_interrupted-Moves (some id) w = interrupt_active-Moves id w

  start_recovered-Moves :
      (step : Worker Disk → Worker Disk) (w : Worker Disk) (m : Option Error × Worker Disk)
      (v : Worker Disk)
      → ((u : Worker Disk) → Moves env u (step u))
      → Moves env w m.1
      → start_recovered step m ≡ ok v
      → Moves env w v
  unfolding start_recovered
  start_recovered-Moves step w (some e, u) v s m h = no_result e v h
  start_recovered-Moves step w (none, u) v s m h =
      subst (Moves env w) (unless_fatal-ok (step u) v h) (Moves-trans env w u (step u) m (s u))

  moved-safe :
      (found : Recovery) (rest : Disk) (w : Worker Disk)
      → IsConsistent found.snapshot
      → AreLinked found
      → Moves env (recovered found rest) w
      → IsConsistent w.state × IsLinked w × Keeps found.snapshot.jobs w.state.jobs
  unfolding recovered
  moved-safe found rest w c l m = (
    Reach-IsConsistent env.encoding c m.reach,
    m.linked (recovered-IsLinked found rest l),
    Reach-Keeps env.encoding m.reach,
  )

  -- A worker that starts on a consistent journal whose receipts name its jobs is consistent, its
  -- receipts name its jobs, and it has kept every job of the journal, evolved.
  pub new_worker-safe :
      (disk rest : Disk) (found : Recovery) (w : Worker Disk)
      → env.store.recover disk ≡ (ok found, rest)
      → IsConsistent found.snapshot
      → AreLinked found
      → new_worker env disk ≡ ok w
      → IsConsistent w.state × IsLinked w × Keeps found.snapshot.jobs w.state.jobs
  unfolding new_worker
  new_worker-safe disk rest found w r c l h =
      let begun = recovered found rest in
      let active = found.snapshot.queue.active in
      let m =
        start_recovered-Moves (dispatch env) begun (close_interrupted env active begun) w
          (dispatch-Moves env) (close_interrupted-Moves active begun) (rw r at h) in
      moved-safe found rest w c l m
