-- ===== src/HttpApi/Ids/RoundTrip.antt =====
-- Writing and reading cursors.
use task_worker.Events.{Cursor}
use mathlib.Core.List.{◌∷◌}
use mathlib.Core.Bool.{true, false}
use Prim.Native.Nat.{◌%◌, ◌+◌}
use task_worker.State.{max_uint64}
use task_worker.Text.{Text, is_hex_digit, split_on, join}
use task_worker.Base.{
  arith, suc, zero, ℕ, ◌/◌, ◌<◌, ◌≡◌, ◌≤◌, Bool-cases, [], all, ap, inl, inr, ltb, lt→ltb, refl,
  some, ◌*◌, ◌-◌, ◌∙◌, ◌==◌, !=-eq_false, List, Bytes-comparable, Bytes-discrete, Option-cases, sym,
  ◌↔◌, All-append, Bool, length, length-append, ◌||◌, ℕ-comparable,
}
use task_worker.HttpApi.Ids.{
  format_digits, format_uint, parse_from, parse_uint, cursor_id, is_id, parse_cursor, parse_parts,
  ok, parse_number,
}
use task_worker.Text.Splits.{Avoids, split_on_pair, join-split_on}

-- The numbers that are written with a number of digits.
abbrev Below : ℕ → ℕ → Type 0
Below zero n = n < 1
Below (suc f) n = Below f (n / 10)

Below-20 : (n : ℕ) → n ≤ max_uint64 → Below 20 n
Below-20 n h = omega arith

-- Reading one digit in front.
parse_from_digit :
    (v d : ℕ) (acc : Text)
    → d < 10
    → v * 10 + d ≤ max_uint64
    → parse_from v ((48 + d) ∷ acc) ≡ parse_from (v * 10 + d) acc
unfolding parse_from
parse_from_digit v d acc small h =
    let same : v * 10 + (48 + d - 48) ≡ v * 10 + d = omega arith in ground (arith, same)

first_digit : (d : ℕ) (acc : Text) → d < 10 → parse_from 0 ((48 + d) ∷ acc) ≡ parse_from d acc
first_digit d acc small =
    parse_from_digit 0 d acc small (omega arith) ∙ ap (λ m. parse_from m acc) (omega arith)

parse-format_digits :
    (f n : ℕ) (acc : Text)
    → Below (suc f) n
    → n ≤ max_uint64
    → parse_from 0 (format_digits (suc f) n acc) ≡ parse_from n acc
unfolding format_digits
parse-format_digits zero n acc b h =
    let small : n < 10 = omega arith in rw (lt→ltb n 10 small) (first_digit n acc small)
parse-format_digits (suc f) n acc b h = elim (Bool-cases (ltb n 10)) [
  | inl few ↦ rw few (first_digit n acc (ground (arith, few)))
  | inr many ↦ rw many (
      parse-format_digits f (n / 10) ((48 + n % 10) ∷ acc) b (omega arith)
      ∙ (parse_from_digit (n / 10) (n % 10) acc (omega arith) (omega arith)
          ∙ ap (λ m. parse_from m acc) (omega arith)))
]

format_digits-ne :
    (f n d : ℕ) (acc : Text) → (c : ℕ) × (cs : Text) × (format_digits f n (d ∷ acc) ≡ c ∷ cs)
unfolding format_digits
format_digits-ne zero n d acc = (d, acc, refl)
format_digits-ne (suc f) n d acc = elim (Bool-cases (ltb n 10)) [
  | inl few ↦ (48 + n, d ∷ acc, rw few)
  | inr many ↦
      let (c, cs, e) = format_digits-ne f (n / 10) (48 + n % 10) (d ∷ acc) in (c, cs, rw many e)
]

format_uint-ne : (n : ℕ) → (c : ℕ) × (cs : Text) × (format_uint n ≡ c ∷ cs)
unfolding format_uint format_digits
format_uint-ne n = elim (Bool-cases (ltb n 10)) [
  | inl few ↦ (48 + n, [], rw few)
  | inr many ↦ let (c, cs, e) = format_digits-ne 19 (n / 10) (48 + n % 10) [] in (c, cs, rw many e)
]

parse_uint-format_uint : (n : ℕ) → n ≤ max_uint64 → parse_uint (format_uint n) ≡ some n
unfolding parse_uint parse_from
parse_uint-format_uint n h =
    let (c, cs, e) = format_uint-ne n in
    let whole : parse_from 0 (format_uint n) ≡ some n =
      unfold format_uint in parse-format_digits 19 n [] (Below-20 n h) h in
    rw e (rw e at whole)

-- A byte that is no decimal digit.
abbrev pub is_other : ℕ → Bool
is_other sep = ltb sep 48 || ltb 57 sep

format_digits-Avoids :
    (sep f n : ℕ) (acc : Text)
    → is_other sep ≡ true
    → Avoids sep acc
    → Avoids sep (format_digits f n acc)
unfolding format_digits
format_digits-Avoids sep zero n acc o h = h
format_digits-Avoids sep (suc f) n acc o h = elim (Bool-cases (ltb n 10)) [
  | inl few ↦ rw few (ground (arith, few, o), h)
  | inr many ↦
      rw many (format_digits-Avoids sep f (n / 10) ((48 + n % 10) ∷ acc) o (ground (arith, o), h))
]

all_hex-Avoids :
    (sep : ℕ) (s : Text) → is_hex_digit sep ≡ false → all is_hex_digit s ≡ true → Avoids sep s
all_hex-Avoids sep [] o h = tt
all_hex-Avoids sep (c ∷ cs) o h =
    (ground (arith, o, h), all_hex-Avoids sep cs o (ground (arith, h)))

length-format_digits : (f n : ℕ) (acc : Text) → length (format_digits f n acc) ≤ f + length acc
unfolding format_digits
length-format_digits zero n acc = omega arith
length-format_digits (suc f) n acc =
    ground (arith, length-format_digits f (n / 10) ((48 + n % 10) ∷ acc))

-- What a cursor must be to have a name: the store is 32 hexadecimal digits, the number a uint64.
pub record IsCursor (c : Cursor) : Type 0 where
  pub store_named : is_id c.store_id ≡ true
  pub sequence_fits : c.sequence ≤ max_uint64

-- A number in its own writing is read.
parse_parts_written :
    (store t : Text) (n : ℕ)
    → is_id store ≡ true
    → (t == []) ≡ false
    → parse_uint t ≡ some n
    → format_uint n ≡ t
    → parse_parts (store ∷ t ∷ []) ≡ ok (record { store_id = store; sequence = n })
unfolding parse_parts parse_number
parse_parts_written store t n good ne read same = ground (arith, !=-eq_false (format_uint n) t same)

parse_cursor-cursor_id : (c : Cursor) → IsCursor c → parse_cursor (cursor_id c) ≡ ok c
unfolding parse_cursor cursor_id is_id is_hex_digit Bytes-discrete
parse_cursor-cursor_id c h =
    let n = c.sequence in
    let hex : all is_hex_digit c.store_id ≡ true = ground (arith, h.store_named) in
    let digits : Avoids 58 (format_uint n) =
      unfold format_uint in format_digits-Avoids 58 20 n [] refl tt in
    let parts =
      split_on_pair 58 c.store_id (format_uint n) (all_hex-Avoids 58 c.store_id refl hex) digits in
    let (d, ds, ne) = format_uint-ne n in
    ap parse_parts parts
    ∙ parse_parts_written c.store_id (format_uint n) n h.store_named (rw ne refl)
        (parse_uint-format_uint n h.sequence_fits) refl

parse_from-le : (n v : ℕ) (s : Text) → n ≤ max_uint64 → parse_from n s ≡ some v → v ≤ max_uint64
unfolding parse_from
parse_from-le n v [] b h = ground (arith, h)
parse_from-le n v (c ∷ cs) b h =
    parse_from-le (n * 10 + (c - 48)) v cs (ground (arith, h)) (ground (arith, h))

parse_uint-le : (v : ℕ) (s : Text) → parse_uint s ≡ some v → v ≤ max_uint64
unfolding parse_uint
parse_uint-le v [] h = cc
parse_uint-le v (c ∷ cs) h = parse_from-le 0 v (c ∷ cs) (omega arith) h

parse_parts-inv :
    (ps : List Text) (c : Cursor)
    → parse_parts ps ≡ ok c
    → (ps ≡ c.store_id ∷ format_uint c.sequence ∷ []) × IsCursor c
unfolding parse_parts
parse_parts-inv [] c h = cc
parse_parts-inv (a ∷ []) c h = cc
parse_parts-inv (a ∷ b ∷ x ∷ xs) c h = cc
parse_parts-inv (a ∷ b ∷ []) c h = elim (Option-cases (parse_uint b)) [
  | inl e ↦ absurd (ground (arith, e, h))
  | inr (n, e) ↦
      let bound = parse_uint-le n b e in
      (
        ground (arith, e, h),
        record { store_named = ground (arith, e, h); sequence_fits = ground (arith, e, h, bound) },
      )
]

parse_cursor-inv : (s : Text) (c : Cursor) → parse_cursor s ≡ ok c → (s ≡ cursor_id c) × IsCursor c
unfolding parse_cursor cursor_id join
parse_cursor-inv s c h =
    let (parts, named) = parse_parts-inv (split_on 58 s) c h in
    (sym (join-split_on 58 s) ∙ ap (λ (ps : List Text). join ps (58 ∷ [])) parts, named)

-- A text is read as a cursor exactly if it is the writing of that cursor, and the cursor has one:
-- its store is 32 lowercase hexadecimal digits and its number fits a uint64. So writing and
-- reading are inverse, and no cursor has two writings.
pub parse_cursor_iff :
    (s : Text) (c : Cursor) → (parse_cursor s ≡ ok c) ↔ ((s ≡ cursor_id c) × IsCursor c)
parse_cursor_iff s c =
    (parse_cursor-inv s c, λ (e, h). ap parse_cursor e ∙ parse_cursor-cursor_id c h)

-- The writing of a cursor is short, and holds no byte that is no hexadecimal digit but its colon.
pub cursor_id-Avoids :
    (sep : ℕ) (c : Cursor)
    → IsCursor c
    → is_other sep ≡ true
    → is_hex_digit sep ≡ false
    → (58 == sep) ≡ false
    → Avoids sep (cursor_id c)
unfolding cursor_id is_id
cursor_id-Avoids sep c h o x colon =
    All-append (λ (b : ℕ). (b == sep) ≡ false) c.store_id (58 ∷ format_uint c.sequence)
      (all_hex-Avoids sep c.store_id x (ground (arith, h.store_named)))
      (colon, unfold format_uint in format_digits-Avoids sep 20 c.sequence [] o tt)

pub length-cursor_id : (c : Cursor) → IsCursor c → length (cursor_id c) ≤ 53
unfolding cursor_id is_id
length-cursor_id c h =
    let number : length (format_uint c.sequence) ≤ 20 + 0 =
      unfold format_uint in length-format_digits 20 c.sequence [] in
    let store : length c.store_id ≡ 32 = ground (arith, h.store_named) in
    omega (arith, number, store, length-append c.store_id (58 ∷ format_uint c.sequence))
