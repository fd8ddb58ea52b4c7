-- ===== src/State/Lookup.antt =====
-- Finding and replacing jobs by their id.
use mathlib.Core.Option.{some, none}
use task_worker.Base.{
  ◌≡◌, Bytes-discrete, List, ◌∷◌, ◌≢◌, length, All, some, none, arith, ◌++◌, subst, [], sym, refl,
}
use task_worker.State.{find_job, replace_job}
use task_worker.Jobs.{Job, JobId}

-- No id stands twice.
abbrev pub Distinct : List Job → Type 0
Distinct [] = Unit
Distinct (j ∷ js) = (find_job j.id js ≡ none) × Distinct js

pub find-replace_self :
    (j : Job) (js : List Job) (old : Job)
    → find_job j.id js ≡ some old
    → find_job j.id (replace_job j js) ≡ some j
unfolding find_job replace_job
find-replace_self j [] old h = cc
find-replace_self j (k ∷ ks) old h = ground (arith, find-replace_self j ks old)

pub find-replace_other :
    (id : JobId) (j : Job) (js : List Job)
    → id ≢ j.id
    → find_job id (replace_job j js) ≡ find_job id js
unfolding find_job replace_job
find-replace_other id j [] h = refl
find-replace_other id j (k ∷ ks) h = ground (arith, find-replace_other id j ks)

pub find-replace_none :
    (id : JobId) (j : Job) (js : List Job)
    → find_job id js ≡ none
    → find_job id (replace_job j js) ≡ none
unfolding find_job replace_job
find-replace_none id j [] h = refl
find-replace_none id j (k ∷ ks) h = ground (arith, find-replace_none id j ks)

pub find-append_some :
    (id : JobId) (js ks : List Job) (j : Job)
    → find_job id js ≡ some j
    → find_job id (js ++ ks) ≡ some j
unfolding find_job
find-append_some id [] ks j h = cc
find-append_some id (i ∷ is) ks j h = ground (arith, find-append_some id is ks j)

pub find-append_none :
    (id : JobId) (js ks : List Job)
    → find_job id js ≡ none
    → find_job id (js ++ ks) ≡ find_job id ks
unfolding find_job
find-append_none id [] ks h = refl
find-append_none id (i ∷ is) ks h = ground (arith, find-append_none id is ks)

pub find-id : (id : JobId) (js : List Job) (j : Job) → find_job id js ≡ some j → j.id ≡ id
unfolding find_job
find-id id [] j h = cc
find-id id (k ∷ ks) j h = ground (arith, find-id id ks j)

pub length-replace : (j : Job) (js : List Job) → length (replace_job j js) ≡ length js
unfolding replace_job
length-replace j [] = refl
length-replace j (k ∷ ks) = ground (arith, length-replace j ks)

pub All-find {ℓ} :
    (P : Job → Type ℓ) (id : JobId) (js : List Job) (j : Job)
    → All P js
    → find_job id js ≡ some j
    → P j
unfolding find_job
All-find P id [] j a h = absurd (cc)
All-find P id (k ∷ ks) j a h = elim (Bytes-discrete k.id id) [
  | yes e ↦ subst P (hit e) a.0
  | no n ↦ All-find P id ks j a.1 (miss n)
]
  where
    hit : k.id ≡ id → k ≡ j
    hit e = ground arith

    miss : k.id ≢ id → find_job id ks ≡ some j
    miss n = ground arith

pub All-replace {ℓ} :
    (P : Job → Type ℓ) (j : Job) (js : List Job) → P j → All P js → All P (replace_job j js)
unfolding replace_job
All-replace P j [] h a = tt
All-replace P j (k ∷ ks) h a = elim (Bytes-discrete k.id j.id) [
  | yes e ↦ subst (All P) (sym (hit e)) (h, a.1)
  | no n ↦ subst (All P) (sym (miss n)) (a.0, All-replace P j ks h a.1)
]
  where
    hit : k.id ≡ j.id → replace_job j (k ∷ ks) ≡ j ∷ ks
    hit e = ground arith

    miss : k.id ≢ j.id → replace_job j (k ∷ ks) ≡ k ∷ replace_job j ks
    miss n = ground arith

pub Distinct-replace : (j : Job) (js : List Job) → Distinct js → Distinct (replace_job j js)
unfolding replace_job
Distinct-replace j [] d = tt
Distinct-replace j (k ∷ ks) d = ground (arith, Distinct-replace j ks, find-replace_none k.id j ks)

pub Distinct-append :
    (j : Job) (js : List Job) → Distinct js → find_job j.id js ≡ none → Distinct (js ++ j ∷ [])
unfolding find_job
Distinct-append j [] d h = (refl, tt)
Distinct-append j (k ∷ ks) d h =
    ground (arith, Distinct-append j ks d.1, find-append_none k.id ks (j ∷ []))
