-- ===== src/State/Reach.antt =====
-- Snapshots that transactions lead to.
use task_worker.Errors.{ok}
use task_worker.Events.{Commit, Snapshot}
use task_worker.State.Invariant.{IsConsistent, apply_commit-IsConsistent}
use task_worker.Encoding.{Encoding}
use task_worker.State.Reducer.{apply_commit}
use task_worker.Base.{◌≡◌}
use task_worker.State.History.{Keeps, Keeps-refl, Keeps-trans, apply_commit-Keeps}

module _ (enc : Encoding) where
  pub data Reach (s : Snapshot) : Snapshot → Type 0 where
    here : Reach s s
    next : {t u : Snapshot} → Reach s t → (c : Commit) → apply_commit enc t c ≡ ok u → Reach s u

  pub Reach-trans : {s t u : Snapshot} → Reach s t → Reach t u → Reach s u
  Reach-trans p here = p
  Reach-trans p (next q c h) = next (Reach-trans p q) c h

  pub Reach-IsConsistent : {s t : Snapshot} → IsConsistent s → Reach s t → IsConsistent t
  Reach-IsConsistent v here = v
  Reach-IsConsistent v (next {t} {u} q c h) =
      apply_commit-IsConsistent enc t u c (Reach-IsConsistent v q).orderly h

  pub Reach-Keeps : {s t : Snapshot} → Reach s t → Keeps s.jobs t.jobs
  Reach-Keeps {s} here = Keeps-refl s.jobs
  Reach-Keeps {s} (next {t} {u} q c h) =
      Keeps-trans s.jobs t.jobs u.jobs (Reach-Keeps q) (apply_commit-Keeps enc t u c h)
