-- ===== src/Text/Utf8.antt =====
-- Joining and splitting valid UTF-8.
use task_worker.State.Reducer.{bad}
use task_worker.Base.{◌≡◌, true, ◌++◌, ◌∷◌, Option-cases, inl, arith, inr, []}
use task_worker.Text.{
  Text, Phase, start, one, two, three, after_e0, after_ed, after_f0, after_f4, utf8_step,
  valid_from, valid_string,
}

valid_from-append :
    (p : Phase) (s t : Text)
    → valid_from p s ≡ true
    → valid_from start t ≡ true
    → valid_from p (s ++ t) ≡ true
unfolding valid_from
valid_from-append start [] t h k = k
valid_from-append one [] t h k = cc
valid_from-append two [] t h k = cc
valid_from-append three [] t h k = cc
valid_from-append after_e0 [] t h k = cc
valid_from-append after_ed [] t h k = cc
valid_from-append after_f0 [] t h k = cc
valid_from-append after_f4 [] t h k = cc
valid_from-append p (b ∷ s) t h k = elim (Option-cases (utf8_step p b)) [
  | inl bad ↦ absurd (ground arith)
  | inr (q, e) ↦ rw (e, valid_from) (valid_from-append q s t (rw (e, valid_from) at h) k)
]

pub valid_string-append :
    (s t : Text) → valid_string s ≡ true → valid_string t ≡ true → valid_string (s ++ t) ≡ true
unfolding valid_string
valid_string-append s t h k = valid_from-append start s t h k
