-- ===== src/Bridge/Output/Following.antt =====
-- A reader who takes page after page, each at the `next_offset_bytes` of the one before.
use mathlib.Core.Bool.{false, not, ◌&&◌, ◌||◌}
use Prim.Native.Nat.{◌+◌}
use task_worker.Base.{
  List, [], length, suc, true, zero, ℕ, ◌<◌, ◌≡◌, ◌≤◌, drop, take, ◌==◌, All, Bool-cases, arith,
  inl, inr, leb, ltb, refl, ◌++◌, ◌∷◌, ℕ-comparable, ap, sym, ◌∙◌, Bool,
}
use task_worker.Bridge.Output.{Page, back_up, page_output, pos}
use task_worker.Bridge.Output.Paging.{
  IsPage, page_output-IsPage, back_up_stops, drop-take-append, length-drop-take,
}
use task_worker.Errors.{Outcome, ok, ◌>>=◌}
use task_worker.Text.{Text, concat, byte_at, rune_start, valid_string}
use task_worker.Text.Boundaries.{IsBoundary, next-IsBoundary, valid_string-IsBoundary}

-- On valid UTF-8, at a boundary, with room for one character, there is a page.
answers :
    (text : Text) (o most : ℕ)
    → valid_string text ≡ true
    → IsBoundary text o
    → o ≤ length text
    → 4 ≤ most
    → (p : Page) × (page_output text (pos o) most ≡ ok p)
unfolding page_output
answers text o most v b h k =
    let cut = back_up text o (o + most) in
    let wrong = ltb (length text) o || (ltb o (length text) && not (rune_start (byte_at o text))) in
    let fine = inside text o b h in
    elim (Bool-cases (leb (length text) (o + most))) [
      | inl last ↦ (record { text = drop o text; next = length text }, rw (fine, last) refl)
      | inr more ↦
          let (j, after, near, within, at) = next-IsBoundary text o v b (ground (arith, more)) in
          let past = stops text o most j after (omega (arith, near, k)) (ground (arith, more)) at in
          (record { text = drop o (take cut text); next = cut }, rw (fine, more, past) refl)
    ]
  where
    inside :
        (text : Text) (o : ℕ)
        → IsBoundary text o
        → o ≤ length text
        → (ltb (length text) o || (ltb o (length text) && not (rune_start (byte_at o text))))
          ≡ false
    inside text o (inl end) h = ground (arith, end)
    inside text o (inr starts) h = ground (arith, h, starts)

    stops :
        (text : Text) (o most j : ℕ)
        → o < j
        → j ≤ o + most
        → o + most < length text
        → IsBoundary text j
        → (back_up text o (o + most) == o) ≡ false
    stops text o most j h k l (inl end) = absurd (omega (arith, k, l, end))
    stops text o most j h k l (inr starts) =
        let past = back_up_stops text o (o + most) j h k starts in ground (arith, past, h)

-- One page before the later ones, unless it is the last.
one_more : Bool → Text → Outcome (List Text) → Outcome (List Text)
one_more true t later = ok (t ∷ [])
one_more false t later = later >>= λ ts. ok (t ∷ ts)

-- The reader, with fuel for the pages. It stops at the end of the output.
unfoldable pub read_on : ℕ → Text → ℕ → ℕ → Outcome (List Text)
unfolding one_more
read_on zero text o most = ok []
read_on (suc fuel) text o most = page_output text (pos o) most >>= λ p.
    one_more (p.next == length text) p.text (read_on fuel text p.next most)

-- The pages from `o` on: as many bytes as are asked for at the most, and together the text.
abbrev Covers : Text → ℕ → ℕ → List Text → Type 0
Covers text o most ps = (concat ps ≡ drop o text) × All (λ (t : Text). length t ≤ most) ps

drop_all : (s : Text) → drop (length s) s ≡ []
drop_all [] = refl
drop_all (c ∷ cs) = drop_all cs

-- A page and the rest of the text behind it.
piece :
    (text : Text) (o most : ℕ) (p : Page)
    → IsPage text o most p
    → (p.text ++ drop p.next text ≡ drop o text) × (length p.text ≤ most)
piece text o most p page =
    let cut = length-drop-take o p.next text page.forward in
    (
      ap (λ t. t ++ drop p.next text) page.text_is ∙ drop-take-append o p.next text page.forward,
      rw page.text_is (omega (arith, cut, page.bounded)),
    )

read_on-Covers :
    (fuel : ℕ) (text : Text) (o most : ℕ)
    → valid_string text ≡ true
    → IsBoundary text o
    → o ≤ length text
    → 4 ≤ most
    → length text < o + fuel
    → (ps : List Text) × (read_on fuel text o most ≡ ok ps) × Covers text o most ps
unfolding read_on concat one_more
read_on-Covers zero text o most v b h k f = absurd (omega (arith, f, h))
read_on-Covers (suc fuel) text o most v b h k f =
    let (p, e) = answers text o most v b h k in
    let page = page_output-IsPage text o most p e in
    let (whole, few) = piece text o most p page in
    elim (Bool-cases (p.next == length text)) [
      | inl last ↦
          let at_end : p.next ≡ length text = ground (arith, last) in
          let nothing = ap (λ n. drop n text) at_end ∙ drop_all text in
          (p.text ∷ [], rw (e, last) refl, (ap (λ t. p.text ++ t) (sym nothing) ∙ whole, (few, tt)))
      | inr more ↦
          let on : length text < p.next + fuel = ground (arith, more, page.advances, f) in
          let (ps, reads, covers) =
            read_on-Covers fuel text p.next most v page.boundary page.inside k on in
          (
            p.text ∷ ps,
            rw (e, more, reads) refl,
            (ap (λ t. p.text ++ t) covers.0 ∙ whole, (few, covers.1)),
          )
    ]

-- A reader of a valid output, with pages of four bytes or more, reaches its end with no fault,
-- within as many pages as the output has bytes and one more. No page is longer than asked for, and
-- the pages are the output, in order, each byte once.
pub read_on_complete :
    (text : Text) (most : ℕ)
    → valid_string text ≡ true
    → 4 ≤ most
    → (ps : List Text) × (read_on (suc (length text)) text 0 most ≡ ok ps)
      × (concat ps ≡ text)
      × All (λ (t : Text). length t ≤ most) ps
read_on_complete text most v k =
    let (ps, reads, covers) =
      read_on-Covers (suc (length text)) text 0 most v (valid_string-IsBoundary text v)
        (omega arith) k (omega arith) in
    (ps, reads, covers.0, covers.1)
