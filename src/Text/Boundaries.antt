-- ===== src/Text/Boundaries.antt =====
-- Where the characters of a valid UTF-8 text begin: a character has at most four bytes.
use task_worker.Base.{
  arith, false, inl, inr, length, refl, some, true, ℕ, ◌≡◌, ◌≤◌, ◌⊎◌, Option-cases, [], suc, ◌<◌,
  ◌∷◌, drop, subst, ◌+◌, zero, ap, ◌∙◌,
}
use task_worker.Text.{
  Text, byte_at, rune_start, utf8_step, leading, Phase, start, one, two, three, after_e0, after_ed,
  after_f0, after_f4, valid_from, valid_string,
}

-- An index at which a character begins, or the end.
abbrev pub IsBoundary : Text → ℕ → Type 0
IsBoundary s i = (i ≡ length s) ⊎ (rune_start (byte_at i s) ≡ true)

leading-rune_start : (b : ℕ) (q : Phase) → leading b ≡ some q → rune_start b ≡ true
unfolding leading rune_start
leading-rune_start b q h = ground arith

-- The bytes that a character still needs, at the most.
bytes_left : Phase → ℕ
bytes_left start = 0
bytes_left one = 1
bytes_left two = 2
bytes_left three = 3
bytes_left after_e0 = 2
bytes_left after_ed = 2
bytes_left after_f0 = 3
bytes_left after_f4 = 3

leading-bytes_left : (b : ℕ) (q : Phase) → leading b ≡ some q → bytes_left q ≤ 3
unfolding bytes_left
leading-bytes_left b start h = omega arith
leading-bytes_left b one h = omega arith
leading-bytes_left b two h = omega arith
leading-bytes_left b _ h = omega arith

-- A byte inside a character is not the start of one.
step-rune_start :
    (p : Phase) (b : ℕ) (q : Phase) → utf8_step p b ≡ some q → (p ≡ start) ⊎ (rune_start b ≡ false)
unfolding utf8_step rune_start
step-rune_start start b q h = inl refl
step-rune_start one b q h = inr (ground (arith, h))
step-rune_start two b q h = inr (ground (arith, h))
step-rune_start three b q h = inr (ground (arith, h))
step-rune_start after_e0 b q h = inr (ground (arith, h))
step-rune_start after_ed b q h = inr (ground (arith, h))
step-rune_start after_f0 b q h = inr (ground (arith, h))
step-rune_start after_f4 b q h = inr (ground (arith, h))

step-bytes_left :
    (p : Phase) (b : ℕ) (q : Phase)
    → utf8_step p b ≡ some q
    → (p ≡ start) ⊎ (bytes_left q < bytes_left p)
unfolding utf8_step bytes_left
step-bytes_left start b q h = inl refl
step-bytes_left one b q h = inr (ground (arith, h))
step-bytes_left two b q h = inr (ground (arith, h))
step-bytes_left three b q h = inr (ground (arith, h))
step-bytes_left after_e0 b q h = inr (ground (arith, h))
step-bytes_left after_ed b q h = inr (ground (arith, h))
step-bytes_left after_f0 b q h = inr (ground (arith, h))
step-bytes_left after_f4 b q h = inr (ground (arith, h))

-- The next character begins after the bytes that this one needs.
Near : ℕ → Text → Type 0
Near most s = (k : ℕ) × (k ≤ most) × (k ≤ length s) × IsBoundary s k

Near-start : (s : Text) → valid_from start s ≡ true → Near 0 s
unfolding Near valid_from utf8_step
Near-start [] h = (0, omega arith, omega arith, inl refl)
Near-start (b ∷ bs) h = elim (Option-cases (leading b)) [
  | inl bad ↦ absurd (ground (arith, h, bad))
  | inr (q, e) ↦ (0, omega arith, omega arith, inr (leading-rune_start b q e))
]

IsBoundary-cons : (b : ℕ) (bs : Text) (k : ℕ) → IsBoundary bs k → IsBoundary (b ∷ bs) (suc k)
IsBoundary-cons b bs k (inl end) = inl (omega (arith, end))
IsBoundary-cons b bs k (inr here) = inr here

Near-later : (most : ℕ) (b : ℕ) (bs : Text) → Near most bs → Near (suc most) (b ∷ bs)
unfolding Near
Near-later most b bs (k, few, inside, at) =
    (suc k, omega (arith, few), omega (arith, inside), IsBoundary-cons b bs k at)

Near-wider : (m n : ℕ) (s : Text) → m ≤ n → Near m s → Near n s
unfolding Near
Near-wider m n s h (k, few, inside, at) = (k, omega arith, inside, at)

end_phase : (p : Phase) → valid_from p [] ≡ true → p ≡ start
unfolding valid_from
end_phase start h = refl
end_phase one h = cc
end_phase two h = cc
end_phase three h = cc
end_phase after_e0 h = cc
end_phase after_ed h = cc
end_phase after_f0 h = cc
end_phase after_f4 h = cc

near : (p : Phase) (s : Text) → valid_from p s ≡ true → Near (bytes_left p) s
unfolding Near valid_from
near p [] h = (0, omega arith, omega arith, inl refl)
near p (b ∷ bs) h = elim (Option-cases (utf8_step p b)) [
  | inl bad ↦ absurd (ground (arith, rw (bad, valid_from) at h))
  | inr (q, e) ↦ elim (step-bytes_left p b q e) [
    | inl here ↦
        Near-wider 0 (bytes_left p) (b ∷ bs) (omega arith)
          (Near-start (b ∷ bs) (subst (λ p2. valid_from p2 (b ∷ bs) ≡ true) here h))
    | inr less ↦
        Near-wider (suc (bytes_left q)) (bytes_left p) (b ∷ bs) less
          (Near-later (bytes_left q) b bs (near q bs (rw (e, valid_from) at h)))
  ]
]

-- Where a character begins, the rest of the text is valid as it stands.
pub valid_from-drop :
    (p : Phase) (s : Text) (i : ℕ)
    → valid_from p s ≡ true
    → IsBoundary s i
    → valid_from start (drop i s) ≡ true
unfolding valid_from
valid_from-drop p [] zero h b = refl
valid_from-drop p [] (suc i) h b = refl
valid_from-drop p (c ∷ cs) zero h (inl end) = absurd (omega (arith, end))
valid_from-drop p (c ∷ cs) zero h (inr here) = elim (Option-cases (utf8_step p c)) [
  | inl bad ↦ absurd (ground (arith, rw (bad, valid_from) at h))
  | inr (q, e) ↦ elim (step-rune_start p c q e) [
    | inl begins ↦ subst (λ p2. valid_from p2 (c ∷ cs) ≡ true) begins h
    | inr inside ↦ absurd (ground (arith, here, inside))
  ]
]
valid_from-drop p (c ∷ cs) (suc i) h b = elim (Option-cases (utf8_step p c)) [
  | inl bad ↦ absurd (ground (arith, rw (bad, valid_from) at h))
  | inr (q, e) ↦ valid_from-drop q cs i (rw (e, valid_from) at h) (boundary_tail c cs i b)
]
  where
    boundary_tail : (c : ℕ) (cs : Text) (i : ℕ) → IsBoundary (c ∷ cs) (suc i) → IsBoundary cs i
    boundary_tail c cs i (inl end) = inl (omega (arith, end))
    boundary_tail c cs i (inr here) = inr here

next_of_start :
    (s : Text)
    → valid_from start s ≡ true
    → 0 < length s
    → (k : ℕ) × (0 < k) × (k ≤ 4) × (k ≤ length s) × IsBoundary s k
unfolding Near valid_from utf8_step
next_of_start [] h some_left = absurd (omega (arith, some_left))
next_of_start (b ∷ bs) h some_left = elim (Option-cases (leading b)) [
  | inl bad ↦ absurd (ground (arith, h, bad))
  | inr (q, e) ↦
      let few = leading-bytes_left b q e in
      let (k, most, inside, at) = near q bs (rw (e, valid_from) at h) in
      (
        suc k,
        omega arith,
        omega (arith, most, few),
        omega (arith, inside),
        IsBoundary-cons b bs k at,
      )
]

pub length-drop : (i : ℕ) (s : Text) → i ≤ length s → i + length (drop i s) ≡ length s
length-drop zero s h = omega arith
length-drop (suc i) [] h = absurd (omega (arith, h))
length-drop (suc i) (c ∷ cs) h = omega (arith, length-drop i cs (omega (arith, h)))

next_index : (i k : ℕ) → suc (i + k) ≡ suc i + k
next_index i k = omega arith

pub byte_at-drop : (i k : ℕ) (s : Text) → byte_at k (drop i s) ≡ byte_at (i + k) s
byte_at-drop zero k s = ap (λ n. byte_at n s) (omega arith)
byte_at-drop (suc i) k [] = refl
byte_at-drop (suc i) k (c ∷ cs) =
    byte_at-drop i k cs ∙ ap (λ n. byte_at n (c ∷ cs)) (next_index i k)

-- After the character that begins at `i` the next one begins, four bytes on at the most.
pub next-IsBoundary :
    (s : Text) (i : ℕ)
    → valid_string s ≡ true
    → IsBoundary s i
    → i < length s
    → (j : ℕ) × (i < j) × (j ≤ i + 4) × (j ≤ length s) × IsBoundary s j
unfolding valid_string
next-IsBoundary s i h b less =
    let whole = length-drop i s (omega (arith, less)) in
    let (k, later, few, inside, at) =
      next_of_start (drop i s) (valid_from-drop start s i h b) (omega (arith, whole, less)) in
    (
      i + k,
      omega (arith, later),
      omega (arith, few),
      omega (arith, inside, whole),
      shift k at whole,
    )
  where
    shift :
        (k : ℕ) → IsBoundary (drop i s) k → i + length (drop i s) ≡ length s → IsBoundary s (i + k)
    shift k (inl end) whole = inl (omega (arith, end, whole))
    shift k (inr here) whole = inr (subst (λ c. rune_start c ≡ true) (byte_at-drop i k s) here)

pub valid_string-IsBoundary : (s : Text) → valid_string s ≡ true → IsBoundary s 0
unfolding valid_string valid_from utf8_step
valid_string-IsBoundary [] h = inl refl
valid_string-IsBoundary (b ∷ bs) h = elim (Option-cases (leading b)) [
  | inl bad ↦ absurd (ground (arith, h, bad))
  | inr (q, e) ↦ inr (leading-rune_start b q e)
]
