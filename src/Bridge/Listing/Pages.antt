-- ===== src/Bridge/Listing/Pages.antt =====
-- The page is a slice of the jobs in the asked order.
use task_worker.Base.{
  List, Option, [], ap, arith, drop, length, length-append, none, refl, some, suc, zero, ℕ, ◌++◌,
  ◌-◌, ◌<◌, ◌∙◌, ◌∷◌, ◌≡◌, Bool, Bool-cases, if◌then◌else◌, inl, inr, map, sym, take, ℕ_discrete,
  ◌+◌, Option-cases, leb, ◌≤◌,
}
use mathlib.Core.List.{reverse, reverse-cons, append_assoc, append-nil}
use task_worker.Bridge.Listing.{entry, place, append_summary, summaries, list_jobs}

-- The entries that are objects.
unfoldable pub present {ℓ} : {A : Type ℓ} → List (Option A) → List A
present [] = []
present (none ∷ xs) = present xs
present (some a ∷ xs) = a ∷ present xs

module _ {A : Type 0} where
  entry-append_left :
      (i : ℕ) (xs : List (Option A)) (y : Option A)
      → i < length xs
      → entry i (xs ++ y ∷ []) ≡ entry i xs
  unfolding entry
  entry-append_left i [] y h = absurd (omega (arith, h))
  entry-append_left zero (x ∷ xs) y h = refl
  entry-append_left (suc i) (x ∷ xs) y h = entry-append_left i xs y (omega (arith, h))

  entry-append_last : (xs : List (Option A)) (y : Option A) → entry (length xs) (xs ++ y ∷ []) ≡ y
  unfolding entry
  entry-append_last [] y = refl
  entry-append_last (x ∷ xs) y = entry-append_last xs y

  length-reverse : (xs : List (Option A)) → length (reverse xs) ≡ length xs
  length-reverse [] = refl
  length-reverse (x ∷ xs) =
      ap length (reverse-cons x xs)
      ∙ omega (arith, length-append (reverse xs) (x ∷ []), length-reverse xs)

  entry-reverse :
      (i : ℕ) (xs : List (Option A))
      → i < length xs
      → entry (length xs - 1 - i) xs ≡ entry i (reverse xs)
  unfolding entry
  entry-reverse i [] h = absurd (omega (arith, h))
  entry-reverse i (x ∷ ys) h = elim (ℕ_discrete i (length ys)) [
    | yes last ↦
        let first : length ys - i ≡ 0 = omega (arith, last) in
        ap (λ n. entry n (x ∷ ys)) (index ∙ first)
        ∙ (sym (entry-append_last (reverse ys) x)
            ∙ (ap (λ n. entry n (reverse ys ++ x ∷ [])) (length-reverse ys ∙ sym last)
                ∙ ap (entry i) (sym (reverse-cons x ys))))
    | no before ↦
        let inside : i < length ys = omega (arith, h, before) in
        let further : length ys - i ≡ suc (length ys - 1 - i) = omega (arith, inside) in
        ap (λ n. entry n (x ∷ ys)) (index ∙ further)
        ∙ (entry-reverse i ys inside
            ∙ (sym (entry-append_left i (reverse ys) x (omega (arith, inside, length-reverse ys)))
                ∙ ap (entry i) (sym (reverse-cons x ys))))
  ]
    where
      index : suc (length ys) - 1 - i ≡ length ys - i
      index = omega arith

  drop-entry :
      (i : ℕ) (xs : List (Option A)) → i < length xs → drop i xs ≡ entry i xs ∷ drop (suc i) xs
  unfolding entry
  drop-entry i [] h = absurd (omega (arith, h))
  drop-entry zero (x ∷ xs) h = refl
  drop-entry (suc i) (x ∷ xs) h = drop-entry i xs (omega (arith, h))

take_nil : {A : Type 0} (n : ℕ) → ◌≡◌ {A = List A} (take n []) []
take_nil zero = refl
take_nil (suc n) = refl

drop_past : {A : Type 0} (i : ℕ) (xs : List A) → length xs ≤ i → drop i xs ≡ []
drop_past zero [] h = refl
drop_past zero (x ∷ xs) h = absurd (omega (arith, h))
drop_past (suc i) [] h = refl
drop_past (suc i) (x ∷ xs) h = drop_past i xs (omega (arith, h))

-- The jobs in the asked order.
abbrev pub in_order : {A : Type 0} → Bool → List (Option A) → List (Option A)
in_order newest jobs = if newest then reverse jobs else jobs

module _ {A B : Type 0} (summary : A → B) (newest : Bool) (limit : ℕ) (jobs : List (Option A)) where
  placed :
      (i : ℕ)
      → i < length jobs
      → entry (place newest (length jobs) i) jobs ≡ entry i (in_order newest jobs)
  placed i h = elim (Bool-cases newest) [
    | inl new ↦ rw new (entry-reverse i jobs h)
    | inr old ↦ rw old refl
  ]

  length-in_order : length (in_order newest jobs) ≡ length jobs
  length-in_order = elim (Bool-cases newest) [
    | inl new ↦ rw new (length-reverse jobs)
    | inr old ↦ rw old refl
  ]

  rest_of : ℕ → List A
  rest_of i = present (drop i (in_order newest jobs))

  rest_next :
      (i : ℕ)
      → i < length jobs
      → rest_of i
        ≡ present (entry (place newest (length jobs) i) jobs ∷ drop (suc i) (in_order newest jobs))
  unfolding rest_of
  rest_next i h =
      ap present (drop-entry i (in_order newest jobs) (omega (arith, h, length-in_order)))
      ∙ ap (λ e. present (e ∷ drop (suc i) (in_order newest jobs))) (sym (placed i h))

  rest_missing :
      (i : ℕ)
      → i < length jobs
      → entry (place newest (length jobs) i) jobs ≡ none
      → rest_of i ≡ rest_of (suc i)
  unfolding rest_of present
  rest_missing i h e = rest_next i h ∙ rw e refl

  rest_there :
      (i : ℕ) (a : A)
      → i < length jobs
      → entry (place newest (length jobs) i) jobs ≡ some a
      → rest_of i ≡ a ∷ rest_of (suc i)
  unfolding rest_of present
  rest_there i a h e = rest_next i h ∙ rw e refl

  summaries-take :
      (left i : ℕ) (sums : List B)
      → i + left ≡ length jobs
      → summaries summary newest limit jobs left i sums
        ≡ sums ++ take (limit - length sums) (map summary (rest_of i))
  unfolding summaries append_summary present rest_of
  summaries-take zero i sums e =
      sym (append-nil sums)
      ∙ ap (λ (t : List B). sums ++ t)
          (sym (take_nil (limit - length sums))
            ∙ ap (λ (o : List (Option A)). take (limit - length sums) (map summary (present o)))
                (sym (drop_past i (in_order newest jobs) (omega (arith, e, length-in_order)))))
  summaries-take (suc left) i sums e = elim (Bool-cases (leb limit (length sums))) [
    | inl full ↦
        let none_left : limit - length sums ≡ 0 = ground (arith, full) in
        rw (full, none_left) (sym (append-nil sums))
    | inr room ↦
        let inside : i < length jobs = omega (arith, e) in
        let more : suc i + left ≡ length jobs = omega (arith, e) in
        elim (Option-cases (entry (place newest (length jobs) i) jobs)) [
          | inl missing ↦
              rw (room, missing)
                (summaries-take left (suc i) sums more
                  ∙ ap (λ (t : List A). sums ++ take (limit - length sums) (map summary t))
                      (sym (rest_missing i inside missing)))
          | inr (a, there) ↦
              let next = sums ++ summary a ∷ [] in
              let one : limit - length sums ≡ suc (limit - length next) =
                ground (arith, room, length-append sums (summary a ∷ [])) in
              rw (room, there)
                (summaries-take left (suc i) next more
                  ∙ (append_assoc sums (summary a ∷ []) _
                      ∙ (ap (λ n. sums ++ take n (summary a ∷ map summary (rest_of (suc i))))
                            (sym one)
                          ∙ ap (λ (t : List A). sums ++ take (limit - length sums) (map summary t))
                              (sym (rest_there i a inside there)))))
        ]
  ]

  -- The page: of the jobs in the asked order, those behind the first `offset` entries, as many as
  -- are asked for at the most, each summarized, none left out and none twice.
  pub list_jobs-take :
      (offset : ℕ)
      → list_jobs summary newest limit jobs offset
        ≡ take limit (map summary (present (drop offset (in_order newest jobs))))
  unfolding list_jobs
  list_jobs-take offset = elim (Bool-cases (leb offset (length jobs))) [
    | inl within ↦
        let whole : offset + (length jobs - offset) ≡ length jobs = ground (arith, within) in
        unfold rest_of in
        (summaries-take (length jobs - offset) offset [] whole
          ∙ ap (λ n. take n (map summary (rest_of offset))) (omega arith))
    | inr past ↦
        let none_left : length jobs - offset ≡ 0 = ground (arith, past) in
        let beyond : length (in_order newest jobs) ≤ offset =
          ground (arith, past, length-in_order) in
        rw (none_left, drop_past offset (in_order newest jobs) beyond)
          (unfold summaries present in sym (take_nil limit))
  ]
