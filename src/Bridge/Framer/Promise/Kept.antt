-- ===== src/Bridge/Framer/Promise/Kept.antt =====
-- The framer keeps the promise.
use task_worker.Bridge.Framer.Promise.{
  Phase, idle, active, silenced, Promise, set_phase, start_phase, silence_phase, say,
}
use task_worker.Base.{
  Bytes-discrete, List, [], arith, not, subst, ◌&&◌, ◌==◌, ◌||◌, ◌∷◌, ◌≡◌, Bytes-comparable, Bool,
  false, true, Bool-cases, ap, inl, inr, refl, sym, ◌++◌, ◌∙◌,
}
use task_worker.Bridge.Framer.{member, insert, delete, Framer}
use task_worker.Text.{Text}

member-insert : (x y : Text) (ys : List Text) → member x (insert y ys) ≡ (y == x || member x ys)
unfolding insert member
member-insert x y ys = elim (Bytes-discrete y x) [
  | yes e ↦ subst (λ z. member z (insert y ys) ≡ (y == z || member z ys)) e (self y ys)
  | no n ↦ ground arith
]
  where
    self : (y : Text) (ys : List Text) → member y (insert y ys) ≡ (y == y || member y ys)
    self y ys = ground arith

pub member-delete :
    (x y : Text) (ys : List Text) → member x (delete y ys) ≡ (not (y == x) && member x ys)
unfolding delete member
member-delete x y [] = ground arith
member-delete x y (z ∷ zs) = ground (arith, member-delete x y zs)

-- Only requests in flight are cancelled.
abbrev pub IsConsistent : Framer → Type 0
IsConsistent f = (x : Text) → member x f.cancelled ≡ true → member x f.inflight ≡ true

abbrev pub phase_by : Bool → Bool → Phase
phase_by false _ = idle
phase_by true false = active
phase_by true true = silenced

-- The framer stands where the promise stands.
pub record Keeps (f : Framer) (s : Promise) : Type 0 where
  pub consistent : IsConsistent f
  pub phases : (x : Text) → s.phase_of x ≡ phase_by (member x f.inflight) (member x f.cancelled)
  pub same_out : s.out ≡ f.written

same_text : (x y : Text) → (x == y) ≡ true → x ≡ y
same_text x y h = ground (arith, h)

started : (i c : Bool) → (c ≡ true → i ≡ true) → start_phase (phase_by i c) ≡ phase_by true c
unfolding start_phase
started true true h = refl
started true false h = refl
started false false h = refl
started false true h = absurd (ground (arith, h refl))

stopped : (i c : Bool) → i ≡ true → silence_phase (phase_by i c) ≡ phase_by i true
unfolding silence_phase
stopped true true h = refl
stopped true false h = refl
stopped false c h = absurd (ground (arith, h))

ignored : (i c : Bool) → i ≡ false → silence_phase (phase_by i c) ≡ phase_by i c
unfolding silence_phase
ignored true c h = absurd (ground (arith, h))
ignored false c h = refl

module _ (id : Text) (f : Framer) (s : Promise) (k : Keeps f s) where
  pub Keeps-start :
      Keeps
        (record f { inflight = insert id f.inflight })
        (set_phase id (start_phase (s.phase_of id)) s)
  unfolding set_phase
  Keeps-start = record {
    consistent = λ x h. rw (member-insert x id f.inflight) (ground (arith, k.consistent x h));
    phases = λ x. elim (Bool-cases (id == x)) [
      | inl same ↦
          let e = same_text id x same in
          let i = member id f.inflight in
          let c = member id f.cancelled in
          rw (member-insert x id f.inflight, same)
            (ap start_phase (k.phases id)
              ∙ (started i c (k.consistent id) ∙ ap (λ z. phase_by true (member z f.cancelled)) e))
      | inr other ↦ rw (member-insert x id f.inflight, other) (k.phases x)
    ];
    same_out = k.same_out;
  }

  pub Keeps-cancel :
      member id f.inflight ≡ true
      → Keeps
          (record f { cancelled = insert id f.cancelled })
          (set_phase id (silence_phase (s.phase_of id)) s)
  unfolding set_phase
  Keeps-cancel flying = record {
    consistent = λ x h. elim (Bool-cases (id == x)) [
      | inl same ↦ subst (λ z. member z f.inflight ≡ true) (same_text id x same) flying
      | inr other ↦
          let before = rw (member-insert x id f.cancelled, other) at h in k.consistent x before
    ];
    phases = λ x. elim (Bool-cases (id == x)) [
      | inl same ↦
          let e = same_text id x same in
          let i = member id f.inflight in
          let c = member id f.cancelled in
          rw (member-insert x id f.cancelled, same)
            (ap silence_phase (k.phases id)
              ∙ (stopped i c flying ∙ ap (λ z. phase_by (member z f.inflight) true) e))
      | inr other ↦ rw (member-insert x id f.cancelled, other) (k.phases x)
    ];
    same_out = k.same_out;
  }

  pub Keeps-ignored :
      member id f.inflight ≡ false → Keeps f (set_phase id (silence_phase (s.phase_of id)) s)
  unfolding set_phase
  Keeps-ignored absent = record {
    consistent = k.consistent;
    phases = λ x. elim (Bool-cases (id == x)) [
      | inl same ↦
          let e = same_text id x same in
          rw same (
            ap silence_phase (k.phases id)
            ∙ (ignored (member id f.inflight) (member id f.cancelled) absent
                ∙ ap (λ z. phase_by (member z f.inflight) (member z f.cancelled)) e))
      | inr other ↦ rw other (k.phases x)
    ];
    same_out = k.same_out;
  }

  -- The request is answered, or its answer dropped.
  pub Keeps-end :
      (c : List Text)
      → ((x : Text) → member x c ≡ (not (id == x) && member x f.cancelled))
      → Keeps (record f { inflight = delete id f.inflight; cancelled = c }) (set_phase id idle s)
  unfolding set_phase
  Keeps-end c h = record {
    consistent = λ x m.
        let before = sym (h x) ∙ m in
        rw (member-delete x id f.inflight) (ground (arith, before, k.consistent x));
    phases = λ x. elim (Bool-cases (id == x)) [
      | inl same ↦ rw (member-delete x id f.inflight, same) refl
      | inr other ↦ rw (h x, member-delete x id f.inflight, other) (k.phases x)
    ];
    same_out = k.same_out;
  }

  pub Keeps-say : (p : Text) → Keeps (record f { written = f.written ++ p ∷ [] }) (say p s)
  unfolding say
  Keeps-say p = record {
    consistent = k.consistent;
    phases = k.phases;
    same_out = ap (λ t. t ++ p ∷ []) k.same_out;
  }

  pub Keeps-absent : member id f.inflight ≡ false → Keeps f (set_phase id idle s)
  unfolding set_phase
  Keeps-absent absent = record {
    consistent = k.consistent;
    phases = λ x. elim (Bool-cases (id == x)) [
      | inl same ↦
          let gone = subst (λ z. member z f.inflight ≡ false) (same_text id x same) absent in
          rw (same, gone) refl
      | inr other ↦ rw other (k.phases x)
    ];
    same_out = k.same_out;
  }
