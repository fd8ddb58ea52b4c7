-- ===== src/Ollama/Streaming/Whole.antt =====
-- A generation that ends well: its records, the last of which ends it, and their content.
use task_worker.Base.{
  All, Bool, Bool-cases, Bytes-discrete, List, Option, [], ap, arith, false, inl, inr, length, ltb,
  none, refl, some, true, ℕ, ◌++◌, ◌+◌, ◌==◌, ◌||◌, ◌∷◌, ◌≡◌, ◌≤◌, Bytes-comparable, subst, sym,
  ◌∙◌,
}
use mathlib.Core.List.{map}
use task_worker.Errors.{Error, ok}
use task_worker.Jobs.{Result}
use task_worker.Ollama.Streaming.{
  ChatRecord, content_of, result_of, ReadEnd, newline, Read, is_full, Progress, put_out, take_line,
  stream, record_limit, stream_limit, no_progress,
}
use task_worker.Ollama.Streaming.Told.{not_ok, Onward, after_line-ok, Taken, take_line-ok}
use task_worker.State.{max_output_bytes}
use task_worker.Text.{Text}

rest_lines : ReadEnd → List Text → List Text
rest_lines newline ls = ls
rest_lines _ ls = []

keep : Text → List Text → List Text
keep [] ls = ls
keep (c ∷ cs) ls = (c ∷ cs) ∷ ls

-- The lines of the reads up to the first error.
unfoldable pub lines_of : List Read → List Text
unfolding rest_lines keep
lines_of [] = []
lines_of (x ∷ xs) = keep x.line (rest_lines x.ending (lines_of xs))

unfoldable pub output_bytes : List ChatRecord → ℕ
output_bytes [] = 0
output_bytes (v ∷ vs) = length (content_of v) + output_bytes vs

kept : (line : Text) (ls : List Text) → (line == []) ≡ false → keep line ls ≡ line ∷ ls
unfolding keep Bytes-discrete
kept [] ls h = absurd (ground (arith, h))
kept (c ∷ cs) ls h = refl

module _ {S : Type 0} (valid : Text → Bool) (decode : Text → Option ChatRecord)
    (emit : Text → S → Option Error × S) (id : Text) where
  then_put : Option Error × S → (S → Option Error × S) → Option Error × S
  then_put (some e, s) k = (some e, s)
  then_put (none, s) k = k s

  -- The contents of the records are put out, in order, up to the first that is refused.
  unfoldable pub put_all : S → List ChatRecord → Option Error × S
  unfolding then_put put_out
  put_all s [] = (none, s)
  put_all s (v ∷ vs) =
      let later = λ (t : S). put_all t vs in
      then_put (put_out valid decode emit id (content_of v) s) later

  -- The lines are records, the last of which and no other ends the generation, and it is the
  -- result; all their content has been put out, within the limit.
  pub record Told (ls : List Text) (n : ℕ) (s s' : S) (r : Result) : Type 0 where
    pub before : List ChatRecord
    pub last : ChatRecord
    pub records_are : map decode ls ≡ map (λ v. some v) (before ++ last ∷ [])
    pub unended : All (λ (v : ChatRecord). v.finished ≡ some false) before
    pub ended : last.finished ≡ some true
    pub result_is : r ≡ result_of last
    pub put_is : put_all s (before ++ last ∷ []) ≡ (none, s')
    pub bounded : n + output_bytes (before ++ last ∷ []) ≤ max_output_bytes

  Told-one :
      (p q : Progress) (line : Text) (s t : S) (v : ChatRecord)
      → Taken valid decode emit id p line s q t v
      → v.finished ≡ some true
      → Told (line ∷ []) p.output s t (result_of v)
  unfolding put_all output_bytes
  Told-one p q line s t v k done = record {
    before = [];
    last = v;
    records_are = rw k.read_is refl;
    unended = tt;
    ended = done;
    result_is = refl;
    put_is = rw k.put_is refl;
    bounded = omega (arith, k.fits, k.output_is);
  }

  Told-more :
      (p q : Progress) (line : Text) (ls : List Text) (s t s' : S) (v : ChatRecord) (r : Result)
      → Taken valid decode emit id p line s q t v
      → v.finished ≡ some false
      → Told ls q.output t s' r
      → Told (line ∷ ls) p.output s s' r
  unfolding put_all output_bytes
  Told-more p q line ls s t s' v r k more later = record {
    before = v ∷ later.before;
    last = later.last;
    records_are =
        rw k.read_is (ap (λ (os : List (Option ChatRecord)). some v ∷ os) later.records_are);
    unended = (more, later.unended);
    ended = later.ended;
    result_is = later.result_is;
    put_is = rw k.put_is later.put_is;
    bounded = omega (arith, later.bounded, k.output_is);
  }

  -- A read, when the loop ends well.
  read_once :
      (x : Read) (xs : List Read) (p : Progress) (s s' : S) (r : Result)
      → stream valid decode emit id p s (x ∷ xs) ≡ (ok r, s')
      → (q : Progress) × (t : S) × (take_line valid decode emit id
            (record p { total = p.total + length x.line })
            x.line
            s
          ≡ (ok q, t))
        × Onward valid decode emit id x.ending q t (λ u v. stream valid decode emit id u v xs) r s'
  unfolding stream
  read_once x xs p s s' r h =
      let large =
        ltb record_limit (length x.line)
        || ltb stream_limit (p.total + length x.line)
        || is_full x.ending in
      elim (Bool-cases large) [
        | inl bad ↦ absurd (not_ok _ r s s' (rw bad at h))
        | inr fits ↦ elim (Bool-cases x.context_live) [
          | inr gone ↦ absurd (not_ok _ r s s' (rw (fits, gone) at h))
          | inl live ↦
              after_line-ok valid decode emit id x.ending _
                (λ u v. stream valid decode emit id u v xs) r s' (rw (fits, live) at h)
        ]
      ]

  read_none :
      (p : Progress) (s s' : S) (r : Result) → stream valid decode emit id p s [] ≡ (ok r, s') → ⊥
  unfolding stream
  read_none p s s' r h = not_ok _ r s s' h

  Told-at :
      (ls ls' : List Text) (n : ℕ) (s t t' : S) (r r' : Result)
      → ls ≡ ls'
      → t ≡ t'
      → r ≡ r'
      → Told ls n s t r
      → Told ls' n s t' r'
  Told-at ls ls' n s t t' r r' l e f k =
      subst (λ x. Told x n s t' r') l (subst (λ x. Told ls n s x r') e (subst (Told ls n s t) f k))

  no_result : (o : Option Result) (r : Result) → o ≡ some r → o ≡ none → ⊥
  no_result o r h k = absurd (ground (arith, h, k))

  -- Behind the record that ends the generation there are no more lines.
  after_end :
      (rs : List Read) (p : Progress) (s s' : S) (r0 r : Result)
      → p.result ≡ some r0
      → stream valid decode emit id p s rs ≡ (ok r, s')
      → (lines_of rs ≡ []) × (r0 ≡ r) × (s ≡ s')
  unfolding lines_of
  after_end [] p s s' r0 r e h = absurd (read_none p s s' r h)
  after_end (x ∷ xs) p s s' r0 r e h =
      let (q, t, took, on) = read_once x xs p s s' r h in
      elim (take_line-ok valid decode emit id _ x.line s q t took) [
        | inr (v, k) ↦ absurd (no_result p.result r0 e k.unended)
        | inl (blank, same, here) ↦
            let still : q.result ≡ some r0 = ap (λ (y : Progress). y.result) same ∙ e in
            elim on [
              | inl (line, later) ↦
                  let (none_left, result_is, state_is) = after_end xs q t s' r0 r still later in
                  (rw (blank, line) none_left, result_is, sym here ∙ state_is)
              | inr (end, given, state_is) ↦
                  (rw (blank, end) refl, some_inj r0 r (sym still ∙ given), sym here ∙ state_is)
            ]
      ]
    where
      some_inj : (a b : Result) → some a ≡ some b → a ≡ b
      some_inj a b z = cc

  tells :
      (rs : List Read) (p : Progress) (s s' : S) (r : Result)
      → p.result ≡ none
      → stream valid decode emit id p s rs ≡ (ok r, s')
      → Told (lines_of rs) p.output s s' r
  unfolding lines_of
  tells [] p s s' r e h = absurd (read_none p s s' r h)
  tells (x ∷ xs) p s s' r e h =
      let (q, t, took, on) = read_once x xs p s s' r h in
      elim (take_line-ok valid decode emit id _ x.line s q t took) [
        | inl (blank, same, here) ↦
            let still : q.result ≡ none = ap (λ (y : Progress). y.result) same ∙ e in
            let output : q.output ≡ p.output = ap (λ (y : Progress). y.output) same in
            elim on [
              | inl (line, later) ↦
                  let told = tells xs q t s' r still later in
                  rw (blank, line)
                    (subst (λ n. Told (lines_of xs) n s s' r) output
                      (subst (λ u. Told (lines_of xs) q.output u s' r) here told))
              | inr (end, given, state_is) ↦ absurd (no_result q.result r given still)
            ]
        | inr (v, k) ↦ elim k.state_is [
          | inl (done, result_is) ↦ elim on [
            | inl (line, later) ↦
                let (none_left, same, state_is) =
                  after_end xs q t s' (result_of v) r result_is later in
                let lines = kept x.line [] k.filled in
                Told-at (x.line ∷ []) _ p.output s t s' (result_of v) r
                  (sym (rw (line, none_left) lines)) state_is same
                  (Told-one _ q x.line s t v k done)
            | inr (end, given, state_is) ↦
                let lines = kept x.line [] k.filled in
                Told-at (x.line ∷ []) _ p.output s t s' (result_of v) r (sym (rw end lines))
                  state_is (some_same (result_of v) r (sym result_is ∙ given))
                  (Told-one _ q x.line s t v k done)
          ]
          | inr (more, open_still) ↦ elim on [
            | inl (line, later) ↦
                let lines = kept x.line (lines_of xs) k.filled in
                Told-at (x.line ∷ lines_of xs) _ p.output s s' s' r r (sym (rw line lines)) refl
                  refl
                  (Told-more _ q x.line (lines_of xs) s t s' v r k more
                    (tells xs q t s' r open_still later))
            | inr (end, given, state_is) ↦ absurd (no_result q.result r given open_still)
          ]
        ]
      ]
    where
      some_same : (a b : Result) → some a ≡ some b → a ≡ b
      some_same a b z = cc

  -- A generation ends well only if its lines are records of which the last and no other ends it,
  -- with nothing behind it. The result is that of the last record, and the contents of all have been
  -- put out in order, each accepted, and together within the output limit.
  pub stream-Told :
      (rs : List Read) (s s' : S) (r : Result)
      → stream valid decode emit id no_progress s rs ≡ (ok r, s')
      → Told (lines_of rs) 0 s s' r
  stream-Told rs s s' r h = tells rs no_progress s s' r refl h
