-- ===== src/Bridge/Waiting/Seen.antt =====
-- What `wait_job` may report.
use task_worker.Base.{
  Bool, Bool-cases, List, Option, [], arith, false, inl, inr, leb, none, refl, some, subst, true, ℕ,
  ◌&&◌, ◌-◌, ◌<◌, ◌∷◌, ◌≡◌, ◌⊎◌,
}
use task_worker.Bridge.Calls.{Called, got, fails, Failure}
use task_worker.Bridge.Waiting.{Poll, Waited, is_timeout, poll_limit, expired, on_failure, wait_job}

Called-cases :
    {A : Type 0} (c : Called A) → ((f : Failure) × (c ≡ fails f)) ⊎ ((a : A) × (c ≡ got a))
Called-cases (fails f) = inl (f, refl)
Called-cases (got a) = inr (a, refl)

module _ {D : Type 0} (terminal : D → Bool) (call_limit deadline : ℕ) where
  -- A job that a poll, begun and ended before the deadline, has seen.
  abbrev pub SeenInTime : List (Poll D) → D → Type 0
  SeenInTime [] job = ⊥
  SeenInTime (p ∷ ps) job =
      ((p.before < deadline) × (p.behind < deadline) × (p.result ≡ got job)) ⊎ SeenInTime ps job

  -- No job, or one that is not terminal.
  abbrev pub IsLive : Option D → Type 0
  IsLive none = Unit
  IsLive (some job) = terminal job ≡ false

  -- A job that is reported was seen in time, and it is terminal exactly if it is said to be.
  pub record Honest (last : Option D) (ps : List (Poll D)) (r : Waited D) : Type 0 where
    pub seen : (r.job ≡ last) ⊎ ((job : D) × (r.job ≡ some job) × SeenInTime ps job)
    pub said : r.terminal ≡ true → (job : D) × (r.job ≡ some job) × (terminal job ≡ true)
    pub unsaid : IsLive last → r.terminal ≡ false → IsLive r.job

  got_inj : (x y : Waited D) → got x ≡ got y → x ≡ y
  got_inj x y h = cc

  expired-Honest :
      (last : Option D) (ps : List (Poll D)) (r : Waited D)
      → expired terminal call_limit deadline last ≡ got r
      → Honest last ps r
  unfolding expired
  expired-Honest last ps r h =
      subst (Honest last ps) (got_inj _ r h) (record {
        seen = inl refl;
        said = λ t. absurd (ground (arith, t));
        unsaid = λ live f. live;
      })

  failure-Honest :
      (f : Failure) (b : Bool) (last : Option D) (ps : List (Poll D)) (r : Waited D)
      → on_failure terminal call_limit deadline f b last ≡ got r
      → Honest last ps r
  unfolding on_failure
  failure-Honest f b last ps r h = elim (Bool-cases (b && is_timeout f)) [
    | inl spent ↦ expired-Honest last ps r (rw spent at h)
    | inr other ↦ absurd (ground (arith, rw other at h))
  ]

  -- What a later poll leads to.
  later-Honest :
      (last : Option D) (p : Poll D) (ps : List (Poll D)) (r : Waited D) (job : D)
      → p.before < deadline
      → p.behind < deadline
      → p.result ≡ got job
      → terminal job ≡ false
      → Honest (some job) ps r
      → Honest last (p ∷ ps) r
  later-Honest last p ps r job b a e live k = record {
    seen = elim k.seen [
      | inl now ↦ inr (job, now, inl (b, a, e))
      | inr (other, is, later) ↦ inr (other, is, inr later)
    ];
    said = k.said;
    unsaid = λ any f. k.unsaid live f;
  }

  finished :
      (last : Option D) (p : Poll D) (ps : List (Poll D)) (job : D)
      → p.before < deadline
      → p.behind < deadline
      → p.result ≡ got job
      → terminal job ≡ true
      → Honest last (p ∷ ps) (record { job = some job; terminal = true })
  finished last p ps job b a e done = record {
    seen = inr (job, refl, inl (b, a, e));
    said = λ t. (job, refl, done);
    unsaid = λ live f. absurd (ground (arith, f));
  }

  wait-Honest :
      (ps : List (Poll D)) (last : Option D) (r : Waited D)
      → wait_job terminal call_limit deadline last ps ≡ got r
      → Honest last ps r
  unfolding wait_job
  wait-Honest [] last r h = absurd (ground (arith, h))
  wait-Honest (p ∷ ps) last r h = elim (Bool-cases (leb deadline p.before)) [
    | inl over ↦ expired-Honest last (p ∷ ps) r (rw over at h)
    | inr running ↦ elim (Called-cases p.result) [
      | inl (f, e) ↦
          failure-Honest f (poll_limit call_limit (deadline - p.before)).1 last (p ∷ ps) r
            (rw (running, e) at h)
      | inr (job, e) ↦ elim (Bool-cases (leb deadline p.behind)) [
        | inl late ↦ expired-Honest last (p ∷ ps) r (rw (running, e, late) at h)
        | inr in_time ↦
            let b : p.before < deadline = ground (arith, running) in
            let a : p.behind < deadline = ground (arith, in_time) in
            elim (Bool-cases (terminal job)) [
              | inl done ↦
                  subst (Honest last (p ∷ ps)) (got_inj _ r (rw (running, e, in_time, done) at h))
                    (finished last p ps job b a e done)
              | inr live ↦ elim (Bool-cases p.caller_live) [
                | inl on ↦
                    later-Honest last p ps r job b a e live
                      (wait-Honest ps (some job) r (rw (running, e, in_time, live, on) at h))
                | inr gone ↦ absurd (ground (arith, rw (running, e, in_time, live, gone) at h))
              ]
            ]
      ]
    ]
  ]

  -- A wait that reports, reports no job or one that a poll begun and ended before the deadline has
  -- seen: a reply that comes later is never reported. It says that the job is terminal only of a terminal job,
  -- and reports no terminal job as one that is not.
  pub wait_job_honest :
      (ps : List (Poll D)) (r : Waited D)
      → wait_job terminal call_limit deadline none ps ≡ got r
      → ((r.job ≡ none) ⊎ ((job : D) × (r.job ≡ some job) × SeenInTime ps job))
        × (r.terminal ≡ true → (job : D) × (r.job ≡ some job) × (terminal job ≡ true))
        × (r.terminal ≡ false → IsLive r.job)
  wait_job_honest ps r h = let k = wait-Honest ps none r h in (k.seen, k.said, k.unsaid tt)
