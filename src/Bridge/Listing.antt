-- ===== src/Bridge/Listing.antt =====
-- The page of `list_jobs` of internal/adapters/mcpbridge/tools.go.
pub mod Pages
use task_worker.Base.{
  Bool, List, Option, [], if◌then◌else◌, leb, length, none, some, suc, zero, ℕ, ◌++◌, ◌-◌, ◌∷◌,
}

-- An entry that is no object is `none`.
unfoldable pub entry {ℓ} : {A : Type ℓ} → ℕ → List (Option A) → Option A
entry i [] = none
entry zero (x ∷ xs) = x
entry (suc i) (x ∷ xs) = entry i xs

abbrev pub place : Bool → ℕ → ℕ → ℕ
place newest n i = if newest then n - 1 - i else i

module _ {A B : Type 0} (summary : A → B) (newest : Bool) (limit : ℕ) (jobs : List (Option A)) where
  append_summary : List B → Option A → List B
  append_summary sums none = sums
  append_summary sums (some j) = sums ++ summary j ∷ []

  -- The loop from index `i` on, with the number of the indices that are left.
  summaries : ℕ → ℕ → List B → List B
  unfolding append_summary
  summaries zero i sums = sums
  summaries (suc left) i sums =
      let more = append_summary sums (entry (place newest (length jobs) i) jobs) in
      let rest = summaries left (suc i) more in if leb limit (length sums) then sums else rest

  unfoldable pub list_jobs : ℕ → List B
  unfolding summaries
  list_jobs offset = summaries (length jobs - offset) offset []
