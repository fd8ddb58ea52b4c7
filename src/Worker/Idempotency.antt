-- ===== src/Worker/Idempotency.antt =====
-- Create commands are idempotent under their key.
use task_worker.Worker.Commits.{CommitResult, commit-result}
use task_worker.Worker.Steps.{dispatch-Moves}
use task_worker.Worker.Dispatch.{dispatch}
use task_worker.Worker.Runs.{Run, Run-Moves}
use task_worker.Worker.Plans.{IsAdmissible, plan_create-inv}
use task_worker.Text.{Text}
use task_worker.Errors.{>>-eq-ok, >>=-eq-ok, fail_if, Error, Outcome, err}
use task_worker.Events.{Receipt, job_accepted}
use task_worker.Worker.Moves.{Moves}
use task_worker.Jobs.{Job, JobId}
use task_worker.State.Reach.{Reach-Keeps}
use task_worker.Worker.{Env, Worker, available, find_receipt, ok, commit, job_event, queue_event}
use task_worker.State.{find_job, invalid}
use task_worker.Worker.Create.{
  Creation, bad_key, check_request, create, digest_of, plan_create, return_job, existing,
  check_available, draft, follow_plan, plan_new, Plan, admit, plan_known, queue_admitted, admitted,
}
use task_worker.Base.{
  ◌≡◌, arith, false, none, refl, some, Option-cases, ap, inl, inr, ◌∙◌, Option, [], subst, sym, ◌+◌,
  ◌∷◌, List,
}
use task_worker.State.History.{Evolves}

module _ {Disk : Type 0} (env : Env Disk) where
  -- The worker holds the receipt of this command, and `j` is the record of its job.
  pub record Remembers (w : Worker Disk) (c : Creation) (j : Job) : Type 0 where
    pub receipt : Receipt
    pub found : find_receipt c.key w.receipts ≡ some receipt
    pub digest_is : digest_of env c ≡ ok receipt.digest
    pub good_key : bad_key c ≡ false
    pub request_ok : check_request c ≡ ok tt
    pub job_found : find_job receipt.job_id w.state.jobs ≡ some j

  Remembers-Moves :
      (w v : Worker Disk) (c : Creation) (j : Job)
      → Moves env w v
      → Remembers w c j
      → (k : Job) × Remembers v c k × Evolves j k
  Remembers-Moves w v c j m h =
      let (k, found, evolved) = Reach-Keeps env.encoding m.reach h.receipt.job_id j h.job_found in
      (
        k,
        record {
          receipt = h.receipt;
          found = m.remembered c.key h.receipt h.found;
          digest_is = h.digest_is;
          good_key = h.good_key;
          request_ok = h.request_ok;
          job_found = found;
        },
        evolved,
      )

  plan_remembered :
      (w : Worker Disk) (c : Creation) (j : Job)
      → available w ≡ none
      → (h : Remembers w c j) → plan_create env w c ≡ ok (existing h.receipt.job_id)
  unfolding plan_create
  plan_remembered w c j a h = ground (arith, a, h.good_key, h.request_ok, h.digest_is, h.found)

  return_found :
      (id : JobId) (j : Job) (w : Worker Disk)
      → find_job id w.state.jobs ≡ some j
      → return_job id w ≡ (ok j, w)
  unfolding return_job
  return_found id j w h = rw (h, return_job) refl

  -- A remembered command changes nothing and gives its job.
  replay :
      (w : Worker Disk) (c : Creation) (j : Job)
      → available w ≡ none
      → Remembers w c j
      → create env false c w ≡ (ok j, w)
  unfolding create return_job
  replay w c j a h =
      ap (λ p. follow_plan env p w) (plan_remembered w c j a h)
      ∙ return_found h.receipt.job_id j w h.job_found

  return_job-inv :
      (id : JobId) (w v : Worker Disk) (j : Job)
      → return_job id w ≡ (ok j, v)
      → (v ≡ w) × (find_job id w.state.jobs ≡ some j)
  unfolding return_job
  return_job-inv id w v j h = elim (Option-cases (find_job id w.state.jobs)) [
    | inl e ↦ absurd (ground arith)
    | inr (k, e) ↦ (ground arith, ground arith)
  ]

  plan_new-not_existing :
      (w : Worker Disk) (c : Creation) (d : Text) (id : JobId)
      → plan_new env w c d ≡ ok (existing id)
      → ⊥
  unfolding plan_new
  plan_new-not_existing w c d id h =
      let (t, drafted, rest) = >>=-eq-ok (draft w.state.jobs c) _ h in ground arith

  plan_known-existing :
      (w : Worker Disk) (c : Creation) (d : Text) (id : JobId) (o : Option Receipt)
      → plan_known env w c d o ≡ ok (existing id)
      → (r : Receipt) × (o ≡ some r) × (r.digest ≡ d) × (r.job_id ≡ id)
  unfolding plan_known
  plan_known-existing w c d id none h = absurd (plan_new-not_existing w c d id h)
  plan_known-existing w c d id (some r) h = (r, refl, ground arith, ground arith)

  plan_existing-inv :
      (w : Worker Disk) (c : Creation) (id : JobId)
      → plan_create env w c ≡ ok (existing id)
      → (r : Receipt) × (find_receipt c.key w.receipts ≡ some r)
        × (digest_of env c ≡ ok r.digest)
        × (bad_key c ≡ false)
        × (check_request c ≡ ok tt)
        × (r.job_id ≡ id)
  unfolding plan_create
  plan_existing-inv w c id h =
      let (alive, h1) = >>-eq-ok (check_available w) _ h in
      let (good, h2) =
        >>-eq-ok (fail_if (bad_key c) (invalid "invalid idempotency key or origin")) _ h1 in
      let (request, h3) = >>-eq-ok (check_request c) _ h2 in
      let (d, digest, last) = >>=-eq-ok (digest_of env c) _ h3 in
      let (r, known, same, id_is) =
        plan_known-existing w c d id (find_receipt c.key w.receipts) last in
      (r, known, digest ∙ ap ok (sym same), ground arith, request, id_is)

  own_receipt :
      (r : Receipt) (rs : List Receipt) (key : Text)
      → r.key ≡ key
      → find_receipt key (r ∷ rs) ≡ some r
  unfolding find_receipt
  own_receipt r rs key e = ground arith

  planned_request :
      (w : Worker Disk) (c : Creation) (p : Plan)
      → plan_create env w c ≡ ok p
      → check_request c ≡ ok tt
  unfolding plan_create
  planned_request w c p h =
      let (alive, h1) = >>-eq-ok (check_available w) _ h in
      let (good, h2) =
        >>-eq-ok (fail_if (bad_key c) (invalid "invalid idempotency key or origin")) _ h1 in
      (>>-eq-ok (check_request c) _ h2).0

  admitted_Remembers :
      (w v : Worker Disk) (c : Creation) (a : Job) (r : Receipt) (j : Job)
      → plan_create env w c ≡ ok (admitted a r)
      → admit env a r w ≡ (ok j, v)
      → Remembers v c j
  unfolding admit
  admitted_Remembers w v c a r j planned h =
      let p = plan_create-inv env w c a r planned in
      let u : Worker Disk = record w {
        clock_reads = w.clock_reads + 1;
        random_reads = w.random_reads + 1;
      } in
      let events =
        job_event job_accepted a ∷ queue_event (queue_admitted w.state.queue a.id) ∷ [] in
      after p (commit env events (some r) u) (commit-result env events (some r) u) h
    where
      after :
          IsAdmissible env w c a r
          → (x : Option Error × Worker Disk)
          → CommitResult env
              (some r)
              (record w { clock_reads = w.clock_reads + 1; random_reads = w.random_reads + 1 })
              x
          → (let y : Outcome Job × Worker Disk = elim x.0 [
            | some f ↦ (err f, x.1)
            | none ↦ return_job a.id (dispatch env x.1)
          ] in
              y)
            ≡ (ok j, v)
          → Remembers v c j
      after p (some f, x) done k = absurd (ground arith)
      after p (none, x) done k =
          let (same, present) = return_job-inv a.id (dispatch env x) v j k in
          let m = dispatch-Moves env x in
          subst (λ (y : Worker Disk). Remembers y c j) (sym same)
            (record {
              receipt = r;
              found = m.remembered c.key r (
                  ap (find_receipt c.key) done.receipts_now
                  ∙ own_receipt r w.receipts c.key p.key_is);
              digest_is = p.digest_is;
              good_key = p.good_key;
              request_ok = planned_request w c (admitted a r) planned;
              job_found =
                  subst (λ i. find_job i (dispatch env x).state.jobs ≡ some j) (sym p.job_is)
                    present;
            })

  -- The command that a success answers is remembered from then on.
  create-Remembers :
      (w v : Worker Disk) (c : Creation) (j : Job)
      → create env false c w ≡ (ok j, v)
      → Remembers v c j
  unfolding create
  create-Remembers w v c j h = go (plan_create env w c) refl h
    where
      go :
          (p : Outcome Plan)
          → plan_create env w c ≡ p
          → follow_plan env p w ≡ (ok j, v)
          → Remembers v c j
      go (err e) planned k = absurd (ground arith)
      go (ok (existing id)) planned k =
          let (r, known, digest, good, request, id_is) = plan_existing-inv w c id planned in
          let (same, present) = return_job-inv id w v j k in
          subst (λ (x : Worker Disk). Remembers x c j) (sym same)
            (record {
              receipt = r;
              found = known;
              digest_is = digest;
              good_key = good;
              request_ok = request;
              job_found = subst (λ i. find_job i w.state.jobs ≡ some j) (sym id_is) present;
            })
      go (ok (admitted a r)) planned k = admitted_Remembers w v c a r j planned k

  -- Once a create command has been answered with a job, repeating it after any operations gives the
  -- record of that same job, evolved, and changes nothing, unless the worker is broken or stopping.
  pub create-repeated :
      (w v u : Worker Disk) (c : Creation) (j : Job)
      → create env false c w ≡ (ok j, v)
      → Run env v u
      → available u ≡ none
      → (k : Job) × (create env false c u ≡ (ok k, u)) × Evolves j k
  create-repeated w v u c j h run alive =
      let (k, held, evolved) =
        Remembers-Moves v u c j (Run-Moves env run) (create-Remembers w v c j h) in
      (k, replay u c k alive held, evolved)
