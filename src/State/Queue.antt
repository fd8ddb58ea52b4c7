-- ===== src/State/Queue.antt =====
-- The queue that the jobs themselves show, and the check at the end of a transaction.
use task_worker.Errors.{ok, >>=-eq-ok}
use task_worker.Events.{Snapshot}
use task_worker.Jobs.{Job, JobId}
use task_worker.Base.{
  ◌≡◌, List, Option, ◌∷◌, [], ◌≢◌, All, some, arith, ◌⊎◌, length, inl, ◌≤◌, refl, Bool-cases, inr,
  if◌then◌else◌, none,
}
use task_worker.State.{is_active, max_pending}
use task_worker.State.Reducer.{find_active, pending_ids, check_queue}

abbrev pub active_ids : List Job → List JobId
active_ids [] = []
active_ids (j ∷ js) = if is_active j.state then j.id ∷ active_ids js else active_ids js

abbrev pub option_list {ℓ} : {A : Type ℓ} → Option A → List A
option_list none = []
option_list (some a) = a ∷ []

abbrev pub IsNamed : Job → Type 0
IsNamed j = j.id ≢ []

-- Once an active job is found, no other may follow.
find_active_found :
    (active : JobId) (js : List Job) (r : JobId)
    → active ≢ []
    → find_active active js ≡ ok r
    → (active_ids js ≡ []) × (r ≡ active)
unfolding find_active
find_active_found active [] r n h = (refl, ground arith)
find_active_found active (j ∷ js) r n h = ground (arith, find_active_found active js r n)

find_active-active_ids :
    (js : List Job) (r : JobId)
    → All IsNamed js
    → find_active [] js ≡ ok r
    → ((r ≡ []) × (active_ids js ≡ [])) ⊎ ((r ≢ []) × (active_ids js ≡ r ∷ []))
unfolding find_active
find_active-active_ids [] r a h = inl (ground arith, refl)
find_active-active_ids (j ∷ js) r a h = elim (Bool-cases (is_active j.state)) [
  | inl e ↦
      let found = find_active_found j.id js r a.0 (ground arith) in inr (ground arith, ground arith)
  | inr e ↦ ground (arith, find_active-active_ids js r a.1)
]

-- What the final check accepts: the pending list is the queued jobs in order of acceptance, within
-- its limit, and the active job is the only one that runs.
pub check_queue-inv :
    (s : Snapshot)
    → All IsNamed s.jobs
    → check_queue s ≡ ok tt
    → (s.queue.pending ≡ pending_ids s.jobs)
      × (length (pending_ids s.jobs) ≤ max_pending)
      × (active_ids s.jobs ≡ option_list s.queue.active)
unfolding check_queue
check_queue-inv s named h =
    let (active, e, rest) = >>=-eq-ok (find_active [] s.jobs) _ h in
    let view = find_active-active_ids s.jobs active named e in
    (ground arith, ground arith, ground arith)
