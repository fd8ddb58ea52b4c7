-- ===== src/Text/Splits.antt =====
-- Splitting a text at one byte.
use task_worker.Base.{
  All, Bool-cases, List, [], arith, false, inl, inr, refl, ℕ, ◌++◌, ◌==◌, ◌∷◌, ◌≡◌, ℕ-comparable,
}
use task_worker.Text.{Text, split_on, join}

-- A text without the byte.
abbrev pub Avoids : ℕ → Text → Type 0
Avoids sep s = All (λ c. (c == sep) ≡ false) s

pub split_on_none : (sep : ℕ) (s : Text) → Avoids sep s → split_on sep s ≡ s ∷ []
unfolding split_on
split_on_none sep [] h = refl
split_on_none sep (c ∷ cs) h = rw (h.0, split_on_none sep cs h.1)

pub split_on_pair :
    (sep : ℕ) (a b : Text) → Avoids sep a → Avoids sep b → split_on sep (a ++ sep ∷ b) ≡ a ∷ b ∷ []
unfolding split_on
split_on_pair sep [] b h k = ground (arith, split_on_none sep b k)
split_on_pair sep (c ∷ cs) b h k = rw (h.0, split_on_pair sep cs b h.1 k)

pub split_on-ne : (sep : ℕ) (s : Text) → (p : Text) × (ps : List Text) × (split_on sep s ≡ p ∷ ps)
unfolding split_on
split_on-ne sep [] = ([], [], refl)
split_on-ne sep (c ∷ cs) =
    let (p, ps, e) = split_on-ne sep cs in
    elim (Bool-cases (c == sep)) [
      | inl h ↦ ([], split_on sep cs, rw h)
      | inr h ↦ (c ∷ p, ps, rw (h, e))
    ]

join-cons_head :
    (sep p : Text) (c : ℕ) (ps : List Text) → join ((c ∷ p) ∷ ps) sep ≡ c ∷ join (p ∷ ps) sep
unfolding join
join-cons_head sep p c [] = refl
join-cons_head sep p c (q ∷ qs) = refl

-- Joining the parts gives the text back.
pub join-split_on : (sep : ℕ) (s : Text) → join (split_on sep s) (sep ∷ []) ≡ s
unfolding split_on join
join-split_on sep [] = refl
join-split_on sep (c ∷ cs) =
    let (p, ps, e) = split_on-ne sep cs in
    let ih : join (p ∷ ps) (sep ∷ []) ≡ cs = rw e at (join-split_on sep cs) in
    elim (Bool-cases (c == sep)) [
      | inl h ↦ ground (arith, e, ih, h)
      | inr h ↦ ground (arith, e, ih, h, join-cons_head (sep ∷ []) p c ps)
    ]

-- The first part ends at the first such byte.
pub split_on_first :
    (sep : ℕ) (a b : Text) → Avoids sep a → split_on sep (a ++ sep ∷ b) ≡ a ∷ split_on sep b
unfolding split_on
split_on_first sep [] b h = ground arith
split_on_first sep (c ∷ cs) b h = rw (h.0, split_on_first sep cs b h.1)
