-- ===== src/Bridge/Waiting/Ends.antt =====
-- `wait_job` reports.
use task_worker.Base.{
  All, Bool, Bool-cases, List, Option, [], arith, false, inl, inr, leb, none, refl, some, true, ℕ,
  ◌∷◌, ◌≡◌, ◌≤◌, ◌⊎◌,
}
use task_worker.Bridge.Calls.{got}
use task_worker.Bridge.Waiting.{Poll, Waited, wait_job, expired}

module _ {D : Type 0} (terminal : D → Bool) (call_limit deadline : ℕ) where
  -- The clock passes the deadline.
  abbrev pub Passes : List (Poll D) → Type 0
  Passes [] = ⊥
  Passes (p ∷ ps) = (deadline ≤ p.before) ⊎ Passes ps

  -- A poll that the service answers, and behind which the caller is still there.
  abbrev pub IsAnswered : Poll D → Type 0
  IsAnswered p = (p.caller_live ≡ true) × (job : D) × (p.result ≡ got job)

  waits :
      (ps : List (Poll D)) (last : Option D)
      → All IsAnswered ps
      → Passes ps
      → (r : Waited D) × (wait_job terminal call_limit deadline last ps ≡ got r)
  unfolding wait_job expired
  waits [] last a past = absurd past
  waits (p ∷ ps) last a past = elim (Bool-cases (leb deadline p.before)) [
    | inl over ↦ (record { job = last; terminal = false }, rw over refl)
    | inr running ↦
        let job = a.0.1 in
        let e = a.0.2 in
        elim (Bool-cases (leb deadline p.behind)) [
          | inl late ↦ (record { job = last; terminal = false }, rw (running, e, late) refl)
          | inr in_time ↦ elim (Bool-cases (terminal job)) [
            | inl done ↦
                (record { job = some job; terminal = true }, rw (running, e, in_time, done) refl)
            | inr live ↦
                let (r, later) = waits ps (some job) a.1 (rest past running) in
                (r, rw (running, e, in_time, live, a.0.0) later)
          ]
        ]
  ]
    where
      rest : (deadline ≤ p.before) ⊎ Passes ps → leb deadline p.before ≡ false → Passes ps
      rest (inl over) running = absurd (ground (arith, over, running))
      rest (inr later) running = later

  -- When the service answers every poll and the caller stays, the wait ends with a report once the
  -- clock passes the deadline, whatever the jobs are.
  pub wait_job_ends :
      (ps : List (Poll D))
      → All IsAnswered ps
      → Passes ps
      → (r : Waited D) × (wait_job terminal call_limit deadline none ps ≡ got r)
  wait_job_ends ps a past = waits ps none a past
