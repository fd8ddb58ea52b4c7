-- ===== src/Worker/Plans.antt =====
-- What the checks of `create` have established when they admit a new job.
use task_worker.Text.{Text}
use task_worker.Events.{Receipt}
use task_worker.Errors.{>>=-eq-ok, ok, >>-eq-ok, fail_if}
use task_worker.State.Reducer.{check_job_fits, not_fresh}
use task_worker.Jobs.{Job}
use task_worker.Worker.Create.{
  Creation, Draft, bad_key, digest_of, draft, plan_create, plan_new, admitted, check_available,
  check_request,
}
use task_worker.State.{max_jobs, max_pending, validate_request, invalid}
use task_worker.Worker.{Env, Worker, available, find_receipt}
use task_worker.Base.{◌≡◌, Option-cases, arith, false, inl, inr, length, none, ◌<◌}

module _ {Disk : Type 0} (env : Env Disk) where
  pub record IsAdmissible (w : Worker Disk) (c : Creation) (j : Job) (r : Receipt) : Type 0 where
    pub alive : available w ≡ none
    pub good_key : bad_key c ≡ false
    pub drafted : Draft
    pub from_draft : draft w.state.jobs c ≡ ok drafted
    pub request_is : j.request ≡ drafted.request
    pub instructions_are : j.instructions ≡ drafted.instructions
    pub lineage_is : j.lineage ≡ drafted.lineage
    pub origin_is : j.origin ≡ c.origin
    pub created_now : j.created_at ≡ env.now w.clock_reads
    pub valid : validate_request j.request j.instructions ≡ ok tt
    pub room : length w.state.queue.pending < max_pending
    pub retained : length w.state.jobs < max_jobs
    pub fits : check_job_fits env.encoding j ≡ ok tt
    pub new : not_fresh j ≡ false
    pub unknown : find_receipt r.key w.receipts ≡ none
    pub key_is : r.key ≡ c.key
    pub job_is : r.job_id ≡ j.id
    pub digest_is : digest_of env c ≡ ok r.digest

  plan_new-inv :
      (w : Worker Disk) (c : Creation) (d : Text) (j : Job) (r : Receipt)
      → available w ≡ none
      → bad_key c ≡ false
      → digest_of env c ≡ ok d
      → find_receipt c.key w.receipts ≡ none
      → plan_new env w c d ≡ ok (admitted j r)
      → IsAdmissible w c j r
  unfolding plan_new not_fresh
  plan_new-inv w c d j r alive good digest unknown h =
      let (t, drafted, rest) = >>=-eq-ok (draft w.state.jobs c) _ h in
      record {
        alive = alive;
        good_key = good;
        drafted = t;
        from_draft = drafted;
        request_is = ground arith;
        instructions_are = ground arith;
        lineage_is = ground arith;
        origin_is = ground arith;
        created_now = ground arith;
        valid = ground arith;
        room = ground arith;
        retained = ground arith;
        fits = ground arith;
        new = ground arith;
        unknown = ground arith;
        key_is = ground arith;
        job_is = ground arith;
        digest_is = ground arith;
      }

  pub plan_create-inv :
      (w : Worker Disk) (c : Creation) (j : Job) (r : Receipt)
      → plan_create env w c ≡ ok (admitted j r)
      → IsAdmissible w c j r
  unfolding plan_create
  plan_create-inv w c j r h =
      let (alive, h1) = >>-eq-ok (check_available w) _ h in
      let (good, h2) =
        >>-eq-ok (fail_if (bad_key c) (invalid "invalid idempotency key or origin")) _ h1 in
      let (request, h3) = >>-eq-ok (check_request c) _ h2 in
      let (d, digest, last) = >>=-eq-ok (digest_of env c) _ h3 in
      elim (Option-cases (find_receipt c.key w.receipts)) [
        | inl unknown ↦
            plan_new-inv w c d j r (ground arith) (ground arith) digest unknown (ground arith)
        | inr (old, known) ↦ absurd (ground arith)
      ]
