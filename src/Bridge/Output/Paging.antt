-- ===== src/Bridge/Output/Paging.antt =====
-- What a reader who follows the pages of an output gets.
use mathlib.Core.Bool.{false, not, ◌&&◌}
use task_worker.Base.{
  arith, inl, suc, true, zero, ℕ, ◌<◌, ◌≡◌, ◌≤◌, ◌⊎◌, [], drop, length, refl, subst, take,
  take-append-drop, ℕ_discrete, ◌++◌, ◌+◌, ◌∷◌, Bool-cases, ap, inr, leb, length-take_le, ltb, sym,
  take_all, ◌==◌, ◌||◌, ℕ-comparable,
}
use task_worker.Bridge.Output.{Page, back_up, page_output, pos, ok}
use task_worker.Text.{Text, byte_at, rune_start}
use task_worker.Text.Boundaries.{IsBoundary}

pub back_up_le : (text : Text) (o e : ℕ) → back_up text o e ≤ e
unfolding back_up
back_up_le text o zero = omega arith
back_up_le text o (suc e) = ground (arith, back_up_le text o e)

back_up_ge : (text : Text) (o e : ℕ) → o ≤ e → o ≤ back_up text o e
unfolding back_up
back_up_ge text o zero h = omega (arith, h)
back_up_ge text o (suc e) h = ground (arith, h, back_up_ge text o e)

back_up-IsBoundary :
    (text : Text) (o e : ℕ)
    → (back_up text o e ≤ o) ⊎ (rune_start (byte_at (back_up text o e) text) ≡ true)
unfolding back_up
back_up-IsBoundary text o zero = inl (omega arith)
back_up-IsBoundary text o (suc e) = ground (arith, back_up-IsBoundary text o e)

-- It does not pass a boundary.
pub back_up_stops :
    (text : Text) (o e b : ℕ)
    → o < b
    → b ≤ e
    → rune_start (byte_at b text) ≡ true
    → b ≤ back_up text o e
unfolding back_up
back_up_stops text o zero b h k r = omega (arith, k, h)
back_up_stops text o (suc e) b h k r = elim (ℕ_discrete b (suc e)) [
  | yes same ↦
      let here = subst (λ n. rune_start (byte_at n text) ≡ true) same r in
      ground (arith, here, same)
  | no other ↦
      let earlier = back_up_stops text o e b h (omega (arith, k, other)) r in
      ground (arith, k, earlier)
]

pub drop-take-append : (o n : ℕ) (s : Text) → o ≤ n → drop o (take n s) ++ drop n s ≡ drop o s
drop-take-append zero n s h = take-append-drop n s
drop-take-append (suc o) zero s h = absurd (omega (arith, h))
drop-take-append (suc o) (suc n) [] h = refl
drop-take-append (suc o) (suc n) (c ∷ cs) h = drop-take-append o n cs (omega (arith, h))

pub length-drop-take : (o n : ℕ) (s : Text) → o ≤ n → length (drop o (take n s)) + o ≤ n
length-drop-take zero n s h = omega (arith, length-take_le n s)
length-drop-take (suc o) zero s h = absurd (omega (arith, h))
length-drop-take (suc o) (suc n) [] h = omega (arith, h)
length-drop-take (suc o) (suc n) (c ∷ cs) h =
    omega (arith, length-drop-take o n cs (omega (arith, h)))

-- A page of `text` that begins at `o`: the bytes up to `next`, which ends at a character's end, no more than
-- `most` of them.
pub record IsPage (text : Text) (o most : ℕ) (p : Page) : Type 0 where
  pub text_is : p.text ≡ drop o (take p.next text)
  pub forward : o ≤ p.next
  pub inside : p.next ≤ length text
  pub bounded : p.next ≤ o + most
  pub boundary : IsBoundary text p.next
  pub advances : (o < p.next) ⊎ (p.next ≡ length text)

whole-IsPage :
    (text : Text) (o most : ℕ)
    → o ≤ length text
    → length text ≤ o + most
    → IsPage text o most (record { text = drop o text; next = length text })
whole-IsPage text o most h k = record {
  text_is = ap (drop o) (sym (take_all (length text) text (omega arith)));
  forward = h;
  inside = omega arith;
  bounded = k;
  boundary = inl refl;
  advances = inr refl;
}

cut-IsPage :
    (text : Text) (o most : ℕ)
    → o + most < length text
    → (back_up text o (o + most) == o) ≡ false
    → IsPage text o most (record {
      text = drop o (take (back_up text o (o + most)) text);
      next = back_up text o (o + most);
    })
cut-IsPage text o most h k =
    let top = back_up_le text o (o + most) in
    let bottom = back_up_ge text o (o + most) (omega arith) in
    let past : o < back_up text o (o + most) = ground (arith, k, bottom) in
    record {
      text_is = refl;
      forward = bottom;
      inside = omega (arith, top, h);
      bounded = top;
      boundary = elim (back_up-IsBoundary text o (o + most)) [
        | inl low ↦ absurd (omega (arith, low, past))
        | inr starts ↦ inr starts
      ];
      advances = inl past;
    }

ok_inj : {A : Type 0} (x y : A) → ok x ≡ ok y → x ≡ y
ok_inj x y h = cc

pub page_output-IsPage :
    (text : Text) (o most : ℕ) (p : Page)
    → page_output text (pos o) most ≡ ok p
    → IsPage text o most p
unfolding page_output
page_output-IsPage text o most p h =
    let cut = back_up text o (o + most) in
    let wrong = ltb (length text) o || (ltb o (length text) && not (rune_start (byte_at o text))) in
    elim (Bool-cases wrong) [
      | inl bad ↦ absurd (ground (arith, rw bad at h))
      | inr fine ↦
          let h1 = rw fine at h in
          let within : o ≤ length text = ground (arith, fine) in
          elim (Bool-cases (leb (length text) (o + most))) [
            | inl last ↦
                let h2 = rw last at h1 in
                subst (IsPage text o most) (ok_inj _ p h2)
                  (whole-IsPage text o most within (ground (arith, last)))
            | inr more ↦
                let h2 = rw more at h1 in
                elim (Bool-cases (cut == o)) [
                  | inl stuck ↦ absurd (ground (arith, rw stuck at h2))
                  | inr moves ↦
                      subst (IsPage text o most) (ok_inj _ p (rw moves at h2))
                        (cut-IsPage text o most (ground (arith, more)) moves)
                ]
          ]
    ]
