-- ===== src/Ollama/Streaming/Told.antt =====
-- What a generation that ends well has put out.
use task_worker.Base.{
  Bool, Option, ap, inl, inr, none, refl, some, ◌≡◌, ◌⊎◌, [], false, if◌then◌else◌, length, true,
  ◌+◌, ◌==◌, ◌≤◌, sym, Bytes-comparable, Option-comparable, Bool-comparable, Bool-cases,
  Option-cases, arith, is_some, ltb, not, ◌||◌, ◌∙◌,
}
use task_worker.Errors.{Error, Outcome, ok, err}
use task_worker.Jobs.{Result}
use task_worker.Ollama.Streaming.{
  is_done, ChatRecord, record_failure, well_ended, content_of, result_of, ReadEnd, newline, full,
  at_end, timed_out, broken, Progress, put_out, settle, take_record, take_line, finish, after_line,
}
use task_worker.State.{max_output_bytes}
use task_worker.Text.{Text}

pub pair_inj :
    {A B : Type 0} (a a' : A) (b b' : B) → ◌≡◌ {A = A × B} (a, b) (a', b') → (a ≡ a') × (b ≡ b')
pair_inj {A = A} {B = B} a a' b b' e = (ap (λ (x : A × B). x.0) e, ap (λ (x : A × B). x.1) e)

pub ok_inj : {A : Type 0} (a b : A) → ok a ≡ ok b → a ≡ b
ok_inj a b e = cc

pub not_ok :
    {A S : Type 0} (e : Error) (a : A) (s t : S) → ◌≡◌ {A = Outcome A × S} (err e, s) (ok a, t) → ⊥
not_ok {A = A} e a s t h =
    let (x, y) = pair_inj {A = Outcome A} (err e) (ok a) s t h in err_not_ok e a x
  where
    err_not_ok : {A : Type 0} (e : Error) (a : A) → ◌≡◌ {A = Outcome A} (err e) (ok a) → ⊥
    err_not_ok e a x = cc

finish-ok :
    {S : Type 0} (valid : Text → Bool) (decode : Text → Option ChatRecord)
    (emit : Text → S → Option Error × S) (id : Text) (o : Option Result) (e : ReadEnd) (r : Result)
    → finish valid decode emit id o e ≡ ok r
    → (e ≡ at_end) × (o ≡ some r)
unfolding finish
finish-ok valid decode emit id (some x) at_end r h = (refl, ap (λ y. some y) (ok_inj x r h))
finish-ok valid decode emit id none at_end r h = absurd (cc)
finish-ok valid decode emit id none newline r h = absurd (cc)
finish-ok valid decode emit id none full r h = absurd (cc)
finish-ok valid decode emit id none timed_out r h = absurd (cc)
finish-ok valid decode emit id none broken r h = absurd (cc)
finish-ok valid decode emit id (some x) newline r h = absurd (cc)
finish-ok valid decode emit id (some x) full r h = absurd (cc)
finish-ok valid decode emit id (some x) timed_out r h = absurd (cc)
finish-ok valid decode emit id (some x) broken r h = absurd (cc)

module _ {S : Type 0} (valid : Text → Bool) (decode : Text → Option ChatRecord)
    (emit : Text → S → Option Error × S) (id : Text) where
  -- Where a read leads when the loop ends well.
  abbrev pub Onward :
      ReadEnd → Progress → S → (Progress → S → Outcome Result × S) → Result → S → Type 0
  Onward ending q t k r s' =
      ((ending ≡ newline) × (k q t ≡ (ok r, s')))
      ⊎ ((ending ≡ at_end) × (q.result ≡ some r) × (t ≡ s'))

  ends :
      (ending : ReadEnd) (q : Progress) (t : S) (k : Progress → S → Outcome Result × S) (r : Result)
      (s' : S)
      → ◌≡◌ {A = Outcome Result × S} (finish valid decode emit id q.result ending, t) (ok r, s')
      → Onward ending q t k r s'
  ends ending q t k r s' h =
      let (a, b) = pair_inj (finish valid decode emit id q.result ending) (ok r) t s' h in
      let (c, d) = finish-ok valid decode emit id q.result ending r a in inr (c, d, b)

  pub after_line-ok :
      (ending : ReadEnd) (m : Outcome Progress × S) (k : Progress → S → Outcome Result × S)
      (r : Result) (s' : S)
      → after_line valid decode emit id ending m k ≡ (ok r, s')
      → (q : Progress) × (t : S) × (m ≡ (ok q, t)) × Onward ending q t k r s'
  unfolding after_line
  after_line-ok ending (err e, s) k r s' h = absurd (not_ok e r s s' h)
  after_line-ok newline (ok q, t) k r s' h = (q, t, refl, inl (refl, h))
  after_line-ok at_end (ok q, t) k r s' h = (q, t, refl, ends at_end q t k r s' h)
  after_line-ok full (ok q, t) k r s' h = (q, t, refl, ends full q t k r s' h)
  after_line-ok timed_out (ok q, t) k r s' h = (q, t, refl, ends timed_out q t k r s' h)
  after_line-ok broken (ok q, t) k r s' h = (q, t, refl, ends broken q t k r s' h)

  -- What a line that is taken does: nothing if it is empty, else its record is put out.
  pub record Taken (p : Progress) (line : Text) (s : S) (q : Progress) (t : S) (v : ChatRecord)
      : Type 0 where
    pub unended : p.result ≡ none
    pub filled : (line == []) ≡ false
    pub read_is : decode line ≡ some v
    pub put_is : put_out valid decode emit id (content_of v) s ≡ (none, t)
    pub output_is : q.output ≡ p.output + length (content_of v)
    pub fits : q.output ≤ max_output_bytes
    pub state_is :
        ((v.finished ≡ some true) × (q.result ≡ some (result_of v)))
        ⊎ ((v.finished ≡ some false) × (q.result ≡ none))

  finished_cases :
      (v : ChatRecord)
      → record_failure id v ≡ none
      → (v.finished ≡ some true) ⊎ (v.finished ≡ some false)
  unfolding record_failure well_ended
  finished_cases v h = elim (Option-cases v.finished) [
    | inl missing ↦ elim (Option-cases v.error) [
      | inl clean ↦ absurd (ground (arith, rw (clean, missing) at h))
      | inr (t, bad) ↦ absurd (ground (arith, rw bad at h))
    ]
    | inr (b, given) ↦ elim (Bool-cases b) [
      | inl yes_it_is ↦ inl (given ∙ ap (λ x. some x) yes_it_is)
      | inr not_yet ↦ inr (given ∙ ap (λ x. some x) not_yet)
    ]
  ]

  settle-ok :
      (p : Progress) (v : ChatRecord) (m : Option Error × S) (q : Progress) (t : S)
      → settle valid decode emit id p v m ≡ (ok q, t)
      → (m ≡ (none, t))
        × (q ≡ record p { result = if is_done v.finished then some (result_of v) else p.result })
  unfolding settle
  settle-ok p v (some e, s) q t h = absurd (not_ok e q s t h)
  settle-ok p v (none, s) q t h =
      let kept = record p {
        result = if is_done v.finished then some (result_of v) else p.result;
      } in
      let (a, b) = pair_inj (ok kept) (ok q) s t h in
      (ap (λ (x : S). (none, x)) b, sym (ok_inj kept q a))

  state_after :
      (p : Progress) (v : ChatRecord)
      → p.result ≡ none
      → (v.finished ≡ some true) ⊎ (v.finished ≡ some false)
      → ((v.finished ≡ some true)
          × ((if is_done v.finished then some (result_of v) else p.result) ≡ some (result_of v)))
        ⊎ ((v.finished ≡ some false)
            × ((if is_done v.finished then some (result_of v) else p.result) ≡ none))
  state_after p v e (inl done) = inl (done, rw done refl)
  state_after p v e (inr more) = inr (more, rw more e)

  pub take_line-ok :
      (p : Progress) (line : Text) (s : S) (q : Progress) (t : S)
      → take_line valid decode emit id p line s ≡ (ok q, t)
      → ((line ≡ []) × (q ≡ p) × (t ≡ s)) ⊎ ((v : ChatRecord) × Taken p line s q t v)
  unfolding take_line take_record
  take_line-ok p line s q t h = elim (Bool-cases (line == [])) [
    | inl blank ↦
        let (a, b) = pair_inj (ok p) (ok q) s t (rw blank at h) in
        inl (ground (arith, blank), sym (ok_inj p q a), sym b)
    | inr filled ↦ elim (Bool-cases (is_some p.result || not (valid line))) [
      | inl bad ↦ absurd (not_ok _ q s t (rw (filled, bad) at h))
      | inr fine ↦ elim (Option-cases (decode line)) [
        | inl bad ↦ absurd (not_ok _ q s t (rw (filled, fine, bad) at h))
        | inr (v, read) ↦ elim (Option-cases (record_failure id v)) [
          | inr (e, bad) ↦ absurd (not_ok _ q s t (rw (filled, fine, read, take_record, bad) at h))
          | inl good ↦
              let n = p.output + length (content_of v) in
              elim (Bool-cases (ltb max_output_bytes n)) [
                | inl large ↦
                    absurd (not_ok _ q s t (rw (filled, fine, read, take_record, good, large) at h))
                | inr small ↦
                    let (put, same) =
                      settle-ok (record p { output = n }) v
                        (put_out valid decode emit id (content_of v) s) q t
                        (rw (filled, fine, read, take_record, good, small) at h) in
                    let unended : p.result ≡ none = no_result p.result fine in
                    inr (
                      v,
                      record {
                        unended = unended;
                        filled = filled;
                        read_is = read;
                        put_is = put;
                        output_is = ap (λ x. x.output) same;
                        fits = rw same (ground (arith, small));
                        state_is = rw same (state_after p v unended (finished_cases v good));
                      },
                    )
              ]
        ]
      ]
    ]
  ]
    where
      no_result : (o : Option Result) → (is_some o || not (valid line)) ≡ false → o ≡ none
      no_result none h = refl
      no_result (some x) h = absurd (ground (arith, h))
