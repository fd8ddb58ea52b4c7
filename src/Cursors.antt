-- ===== src/Cursors.antt =====
-- `Cursor.UnmarshalJSON` of internal/core/state.go: the decimal text of a sequence number.
use task_worker.Text.{Text}
use task_worker.State.{max_uint64}
use task_worker.Base.{
  ◌≡◌, All, Bool, Option, [], arith, false, if◌then◌else◌, ltb, none, refl, some, true, ℕ, ◌%◌, ◌*◌,
  ◌+◌, ◌-◌, ◌/◌, ◌==◌, ◌^◌, ◌||◌, ◌↔◌, ◌∷◌, ◌≤◌, ℕ-comparable, Bool-cases, inl, inr, sym,
}

-- The loop over the digits: `n` is the value so far, a uint64.
unfoldable pub parse_digits : ℕ → Text → Option ℕ
parse_digits n [] = some n
parse_digits n (r ∷ rs) =
    let rest = parse_digits ((n * 10 + (r - b'0')) % 2 ^ 64) rs in
    if ltb r b'0' || ltb b'9' r || ltb ((max_uint64 - (r - b'0')) / 10) n then none else rest

abbrev pub leading_zero : Text → Bool
leading_zero [] = true
leading_zero (r ∷ []) = false
leading_zero (r ∷ s ∷ rs) = r == b'0'

-- An empty text and one with a superfluous zero in front are refused.
unfoldable pub parse_sequence : Text → Option ℕ
unfolding parse_digits
parse_sequence s = if leading_zero s then none else parse_digits 0 s

-- The value of a decimal text, most significant digit first.
abbrev pub decimal : ℕ → Text → ℕ
decimal n [] = n
decimal n (r ∷ rs) = decimal (n * 10 + (r - b'0')) rs

abbrev pub IsDigit : ℕ → Type 0
IsDigit r = (b'0' ≤ r) × (r ≤ b'9')

decimal-grows : (n : ℕ) (s : Text) → n ≤ decimal n s
decimal-grows n [] = omega arith
decimal-grows n (r ∷ rs) = omega (arith, decimal-grows (n * 10 + (r - b'0')) rs)

digits_accepted :
    (n : ℕ) (s : Text)
    → All IsDigit s
    → decimal n s ≤ max_uint64
    → parse_digits n s ≡ some (decimal n s)
unfolding parse_digits
digits_accepted n [] d h = refl
digits_accepted n (r ∷ rs) d h =
    let step = n * 10 + (r - b'0') in
    let small : step ≤ max_uint64 = omega (arith, decimal-grows step rs) in
    let same : step % 2 ^ 64 ≡ step = omega arith in
    let rest = digits_accepted step rs d.1 h in ground (arith, same, rest, small)

digits_refused :
    (n : ℕ) (s : Text) (v : ℕ)
    → n ≤ max_uint64
    → parse_digits n s ≡ some v
    → All IsDigit s × (v ≡ decimal n s) × (v ≤ max_uint64)
unfolding parse_digits
digits_refused n [] v b h = (tt, ground arith, ground arith)
digits_refused n (r ∷ rs) v b h =
    let step = n * 10 + (r - b'0') in
    let fits : step ≤ max_uint64 = ground arith in
    let same : step % 2 ^ 64 ≡ step = omega arith in
    let rest = digits_refused step rs v fits (ground arith) in ground (arith, rest, same)

parse_sequence-inv :
    (s : Text) (v : ℕ)
    → parse_sequence s ≡ some v
    → (leading_zero s ≡ false) × All IsDigit s × (decimal 0 s ≡ v) × (v ≤ max_uint64)
unfolding parse_sequence
parse_sequence-inv s v h = elim (Bool-cases (leading_zero s)) [
  | inl z ↦ absurd (ground (arith, h, z))
  | inr z ↦
      let (d, e, b) = digits_refused 0 s v (omega arith) (ground (arith, h, z)) in (z, d, sym e, b)
]

parse_sequence-accepts :
    (s : Text) (v : ℕ)
    → leading_zero s ≡ false
    → All IsDigit s
    → decimal 0 s ≡ v
    → v ≤ max_uint64
    → parse_sequence s ≡ some v
unfolding parse_sequence
parse_sequence-accepts s v z d e b =
    let bound : decimal 0 s ≤ max_uint64 = omega (arith, e, b) in
    let run = digits_accepted 0 s d bound in ground (arith, z, run, e)

-- A sequence number is read exactly if its text is canonical: decimal digits with no superfluous
-- zero in front, and a value that a uint64 holds, which is then the result.
pub parse_sequence_iff :
    (s : Text) (v : ℕ)
    → (parse_sequence s ≡ some v)
      ↔ ((leading_zero s ≡ false) × All IsDigit s × (decimal 0 s ≡ v) × (v ≤ max_uint64))
parse_sequence_iff s v =
    (parse_sequence-inv s v, λ (z, d, e, b). parse_sequence-accepts s v z d e b)
