-- ===== src/State/Machine.antt =====
-- The job state machine as a relation, and `transition` against it.
use task_worker.Base.{◌≡◌, arith, false, refl, true, ◌↔◌}
use task_worker.Jobs.{
  JobState, queued, running, cancelling, succeeded, failed, interrupted, JobState-discrete,
}
use task_worker.State.{transition, terminal}

infix 40 ◌⟶◌ ◌⟶*◌
pub data ◌⟶◌ : JobState → JobState → Type 0 where
  dispatched : queued ⟶ running
  withdrawn : queued ⟶ JobState.cancelled
  asked_to_stop : running ⟶ cancelling
  finished : running ⟶ succeeded
  broke : running ⟶ failed
  stopped_running : running ⟶ interrupted
  stopped : cancelling ⟶ JobState.cancelled
  stopped_cancelling : cancelling ⟶ interrupted

pub data ◌⟶*◌ : JobState → JobState → Type 0 where
  here : {s : JobState} → s ⟶* s
  then : {s t u : JobState} → s ⟶ t → t ⟶* u → s ⟶* u

pub ⟶*-trans : {s t u : JobState} → s ⟶* t → t ⟶* u → s ⟶* u
⟶*-trans here r = r
⟶*-trans (then e q) r = then e (⟶*-trans q r)

ruleset edges = (
  dispatched, withdrawn, asked_to_stop, finished, broke, stopped_running, stopped,
  stopped_cancelling,
)

pub transition-⟶ : (a b : JobState) → transition a b ≡ true → a ⟶ b
unfolding transition
transition-⟶ a b h = grind (arith, edges)

pub ⟶-transition : {a b : JobState} → a ⟶ b → transition a b ≡ true
unfolding transition JobState-discrete
⟶-transition dispatched = refl
⟶-transition withdrawn = refl
⟶-transition asked_to_stop = refl
⟶-transition finished = refl
⟶-transition broke = refl
⟶-transition stopped_running = refl
⟶-transition stopped = refl
⟶-transition stopped_cancelling = refl

-- `transition` accepts a change of state exactly if it is an edge of the machine.
pub transition_iff : (a b : JobState) → (transition a b ≡ true) ↔ (a ⟶ b)
transition_iff a b = (transition-⟶ a b, λ e. ⟶-transition e)

-- Terminal states have no way out.
pub terminal-transition : (a b : JobState) → terminal a ≡ true → transition a b ≡ false
unfolding transition
terminal-transition a b h = ground arith
