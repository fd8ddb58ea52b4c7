-- ===== src/Bridge/Waiting.antt =====
-- The loop of `wait_job` of internal/adapters/mcpbridge/tools.go.
pub mod Seen
pub mod Ends
use task_worker.Base.{
  Bool, Bool-cases, List, Option, [], arith, false, if◌then◌else◌, inl, inr, leb, refl, some, subst,
  true, ℕ, ◌&&◌, ◌-◌, ◌<◌, ◌∷◌, ◌≡◌, ◌⊎◌,
}
use task_worker.Bridge.Calls.{Called, got, fails, Failure, timed_out, failed}
use task_worker.Errors.{context_ended}

-- One poll: the clock before it, its result, the clock after it, and whether the caller's context is
-- live when the pause behind it ends.
pub record Poll (D : Type 0) : Type 0 where
  pub before : ℕ
  pub result : Called D
  pub behind : ℕ
  pub caller_live : Bool

-- The job that is reported, if any was seen in time, and whether it is terminal.
pub record Waited (D : Type 0) : Type 0 where
  pub job : Option D
  pub terminal : Bool

is_timeout : Failure → Bool
is_timeout timed_out = true
is_timeout _ = false

-- The limit of a poll, and whether it is the remaining budget.
unfoldable pub poll_limit : ℕ → ℕ → ℕ × Bool
poll_limit call_limit left = if leb left call_limit then (left, true) else (call_limit, false)

module _ {D : Type 0} (terminal : D → Bool) (call_limit deadline : ℕ) where
  expired : Option D → Called (Waited D)
  expired last = got (record { job = last; terminal = false })

  on_failure : Failure → Bool → Option D → Called (Waited D)
  unfolding expired is_timeout
  on_failure f budget_bound last = if budget_bound && is_timeout f then expired last else fails f

  -- The polls that the service would answer, in order; the context ends when they are used up.
  unfoldable pub wait_job : Option D → List (Poll D) → Called (Waited D)
  unfolding expired on_failure
  wait_job last [] = fails (failed context_ended)
  wait_job last (p ∷ ps) = if leb deadline p.before then expired last else elim p.result [
    | fails f ↦ on_failure f (poll_limit call_limit (deadline - p.before)).1 last
    | got job ↦
        let later = wait_job (some job) ps in
        if leb deadline p.behind
        then expired last
        else if terminal job
        then got (record { job = some job; terminal = true })
        else if p.caller_live
        then later
        else fails (failed context_ended)
  ]

  -- `timeout_seconds: 0`: one poll, bounded only by the call limit.
  unfoldable pub check_once : Called D → Called (Waited D)
  check_once (fails f) = fails f
  check_once (got job) = got (record { job = some job; terminal = terminal job })
