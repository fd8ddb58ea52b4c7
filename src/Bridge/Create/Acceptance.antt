-- ===== src/Bridge/Create/Acceptance.antt =====
-- What the report of a failed create says about the command.
use task_worker.Base.{
  Option, none, true, ◌≡◌, ◌⊎◌, Bool-cases, Option-cases, [], ap, arith, inl, inr, length, ltb,
  refl, subst, ◌==◌, ◌||◌, ◌∙◌, Bytes-comparable,
}
use task_worker.Bridge.Calls.{Failure, refused, Called, got, fails, Attempt, faults}
use task_worker.Bridge.Calls.Definite.{Reported, do_job_for-Reported, fails_inj}
use task_worker.Bridge.Create.{
  Operation, CreateIn, Body, create_body, create, sent, body_of, bad_key, no_request,
}
use task_worker.Errors.{Fault}
use task_worker.Text.{Text}

-- Nothing was sent, and the report makes no claim.
abbrev pub IsUnsent : Operation → CreateIn → Failure → Type 0
IsUnsent op i f = (create_body op i ≡ fails f) × ((faults f true).acceptance_uncertain ≡ none)

refused-none : (x : Fault) → (faults (refused x) true).acceptance_uncertain ≡ none
unfolding faults
refused-none x = refl

create_body-IsUnsent :
    (op : Operation) (i : CreateIn) (f : Failure) → create_body op i ≡ fails f → IsUnsent op i f
unfolding create_body
create_body-IsUnsent op i f h = elim (Bool-cases (i.key == [] || ltb 128 (length i.key))) [
  | inl bad ↦ (h, by_refusal bad_key (rw bad at h))
  | inr fine ↦ elim (Option-cases (body_of op i)) [
    | inl empty ↦ (h, by_refusal no_request (ground (arith, h, fine, empty)))
    | inr (b, full) ↦ absurd (ground (arith, h, fine, full))
  ]
]
  where
    by_refusal :
        (x : Fault)
        → ◌≡◌ {A = Called Body} (fails (refused x)) (fails f)
        → (faults f true).acceptance_uncertain ≡ none
    by_refusal x e =
        subst (λ g. (faults g true).acceptance_uncertain ≡ none)
          (fails_inj {A = Body} (refused x) f e) (refused-none x)

module _ {D : Type 0} (raw : Text → Option Text) (decode_fault : Text → Option Fault)
    (object : Text → Option D) (id_of state_of : D → Text) (post : Body → Attempt) where
  sent-definite :
      (op : Operation) (i : CreateIn) (f : Failure) (c : Called Body)
      → create_body op i ≡ c
      → sent raw decode_fault object id_of state_of post c ≡ fails f
      → IsUnsent op i f
        ⊎ ((b : Body) × (create_body op i ≡ got b) × Reported decode_fault (post b).reply f)
  unfolding sent
  sent-definite op i f (fails g) e h =
      inl (create_body-IsUnsent op i f (e ∙ ap fails (fails_inj {A = D} g f h)))
  sent-definite op i f (got b) e h =
      inr (b, e, do_job_for-Reported decode_fault raw (post b) object id_of state_of f h)

  -- A create that fails has sent nothing, for its arguments were refused, and its report makes no
  -- claim about acceptance; or it has sent one command, and then the report says that acceptance
  -- is uncertain, or it says that it is not and the service has answered that command with a fault.
  pub create_definite :
      (op : Operation) (i : CreateIn) (f : Failure)
      → create raw decode_fault object id_of state_of post op i ≡ fails f
      → IsUnsent op i f
        ⊎ ((b : Body) × (create_body op i ≡ got b) × Reported decode_fault (post b).reply f)
  unfolding create
  create_definite op i f h = sent-definite op i f (create_body op i) refl h
