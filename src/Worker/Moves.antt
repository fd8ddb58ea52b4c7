-- ===== src/Worker/Moves.antt =====
-- What every operation of the worker respects: it changes the state by accepted transactions
-- alone, forgets no receipt, and keeps each receipt tied to a job.
use task_worker.State.History.{apply_commit-Keeps}
use task_worker.Errors.{Error}
use task_worker.Text.{Text}
use task_worker.Jobs.{Job}
use task_worker.State.Admission.{Admits, IsPresent, IsPresent-Keeps, apply_commit-Admits}
use task_worker.Events.{Event, Receipt, Snapshot}
use task_worker.Worker.{Env, Worker, commit, find_receipt, with_receipt}
use task_worker.Worker.Commits.{CommitResult, Committed, commit-result}
use task_worker.Base.{
  ◌≡◌, Bytes-discrete, List, Option, ap, arith, inl, inr, none, some, subst, sym, ◌∙◌, ◌⊎◌,
}
use task_worker.State.Reach.{Reach, here, next, Reach-trans}

module _ {Disk : Type 0} where
  -- Every receipt names a retained job.
  abbrev pub IsLinked : Worker Disk → Type 0
  IsLinked w =
      (key : Text) (r : Receipt)
      → find_receipt key w.receipts ≡ some r
      → IsPresent r.job_id w.state.jobs

module _ {Disk : Type 0} (env : Env Disk) where
  pub record Moves (w w' : Worker Disk) : Type 0 where
    pub reach : Reach env.encoding w.state w'.state
    pub remembered :
        (key : Text) (r : Receipt)
        → find_receipt key w.receipts ≡ some r
        → find_receipt key w'.receipts ≡ some r
    pub linked : IsLinked w → IsLinked w'

  pub Moves-trans : (u v w : Worker Disk) → Moves u v → Moves v w → Moves u w
  Moves-trans u v w p q = record {
    reach = Reach-trans env.encoding p.reach q.reach;
    remembered = λ key r h. q.remembered key r (p.remembered key r h);
    linked = λ l. q.linked (p.linked l);
  }

  -- An operation that touches neither the state nor the receipts.
  pub Moves-quiet : (v w : Worker Disk) → w.state ≡ v.state → w.receipts ≡ v.receipts → Moves v w
  Moves-quiet v w s r = record {
    reach = subst (Reach env.encoding v.state) (sym s) here;
    remembered = λ key x h. ap (find_receipt key) r ∙ h;
    linked = λ l key x h.
        subst (λ (t : Snapshot). IsPresent x.job_id t.jobs) (sym s)
          (l key x (sym (ap (find_receipt key) r) ∙ h));
  }

  -- The key of a commit's receipt must be new.
  abbrev pub IsFresh : Option Receipt → Worker Disk → Type 0
  IsFresh none w = Unit
  IsFresh (some r) w = find_receipt r.key w.receipts ≡ none

  find_receipt-with :
      (key : Text) (rc : Option Receipt) (w : Worker Disk) (r : Receipt)
      → IsFresh rc w
      → find_receipt key w.receipts ≡ some r
      → find_receipt key (with_receipt rc w.receipts) ≡ some r
  unfolding find_receipt
  find_receipt-with key none w r f h = h
  find_receipt-with key (some x) w r f h = elim (Bytes-discrete x.key key) [
    | yes e ↦ absurd (clash (subst (λ k. find_receipt k w.receipts ≡ none) e f))
    | no n ↦ ground arith
  ]
    where
      clash : find_receipt key w.receipts ≡ none → ⊥
      clash z = cc

  with_receipt-cases :
      (key : Text) (rc : Option Receipt) (w : Worker Disk) (r : Receipt)
      → find_receipt key (with_receipt rc w.receipts) ≡ some r
      → (rc ≡ some r) ⊎ (find_receipt key w.receipts ≡ some r)
  unfolding find_receipt
  with_receipt-cases key none w r h = inr h
  with_receipt-cases key (some x) w r h = ground arith

  Admits-IsPresent :
      (rc : Option Receipt) (r : Receipt) (xs ys : List Job)
      → rc ≡ some r
      → Admits rc xs ys
      → IsPresent r.job_id ys
  Admits-IsPresent none r xs ys e a = cc
  Admits-IsPresent (some x) r xs ys e a =
      let same : x ≡ r = ground arith in subst (λ (y : Receipt). IsPresent y.job_id ys) same a.1

  Committed-Moves :
      (rc : Option Receipt) (v w : Worker Disk) → IsFresh rc v → Committed env rc v w → Moves v w
  Committed-Moves rc v w f c = record {
    reach = next here c.transaction c.applied;
    remembered = λ key r h. ap (find_receipt key) c.receipts_now ∙ find_receipt-with key rc v r f h;
    linked = λ l key r h.
        elim (with_receipt-cases key rc v r (sym (ap (find_receipt key) c.receipts_now) ∙ h)) [
          | inl e ↦
              Admits-IsPresent c.transaction.receipt r v.state.jobs w.state.jobs (c.carries ∙ e)
                (apply_commit-Admits env.encoding v.state w.state c.transaction c.applied)
          | inr old ↦
              IsPresent-Keeps r.job_id v.state.jobs w.state.jobs
                (apply_commit-Keeps env.encoding v.state w.state c.transaction c.applied)
                (l key r old)
        ];
  }

  CommitResult-Moves :
      (rc : Option Receipt) (v : Worker Disk) (r : Option Error × Worker Disk)
      → IsFresh rc v
      → CommitResult env rc v r
      → Moves v r.1
  CommitResult-Moves rc v (none, w) f c = Committed-Moves rc v w f c
  CommitResult-Moves rc v (some e, w) f c = Moves-quiet v w c.same_state c.same_receipts

  pub commit-Moves :
      (events : List Event) (rc : Option Receipt) (w : Worker Disk)
      → IsFresh rc w
      → Moves w (commit env events rc w).1
  commit-Moves events rc w f =
      CommitResult-Moves rc w (commit env events rc w) f (commit-result env events rc w)
