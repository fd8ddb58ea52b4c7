-- ===== src/Bridge/Calls/Definite.antt =====
-- What a failed call of the bridge says about the service.
use task_worker.Base.{
  Bool, Bool-cases, Option, arith, false, inl, inr, refl, some, true, ◌≡◌, ◌⊎◌, Option-cases, [],
  ap, length, subst, ◌!=◌, ◌&&◌, ◌==◌, ◌||◌, ◌∙◌, ℕ-comparable, Bytes-comparable,
}
use task_worker.Bridge.Calls.{
  Failure, timed_out, failed, Called, got, fails, Attempt, classified, do_for, do_object_for,
  do_job_for, decoded, established, kind_of, is_service_fault, uncertain, body, faults, unreadable,
}
use task_worker.HttpApi.Client.{Reply, read_reply, call}
use task_worker.HttpApi.Client.Outcomes.{Answered, is_own_failure, read_reply_definite}
use task_worker.HttpApi.Faults.{public_fault, is_connection_fault, is_unreadable_response}
use task_worker.Errors.{Error, ErrorCode-discrete, Fault, Outcome, ok, err}
use task_worker.Text.{Text}

-- The report of a failed create says that the service may have accepted it, or it says that it has not, and then
-- the service has answered with a fault.
pub Reported : (Text → Option Fault) → Reply → Failure → Type 0
Reported decode_fault r f =
    ((faults f true).acceptance_uncertain ≡ some true)
    ⊎ (((faults f true).acceptance_uncertain ≡ some false)
        × (x : Fault) × Answered decode_fault r x)

own-uncertain :
    (e : Error)
    → is_own_failure e ≡ true
    → (faults (failed e) true).acceptance_uncertain ≡ some true
unfolding faults body uncertain kind_of is_service_fault
own-uncertain e h = elim (Bool-cases (is_connection_fault e)) [
  | inl lost ↦ rw lost refl
  | inr no_loss ↦
      let unread : is_unreadable_response e ≡ true = ground (arith, h, no_loss) in
      rw (no_loss, unread) refl
]

timed_out-uncertain : (faults timed_out true).acceptance_uncertain ≡ some true
unfolding faults body uncertain is_service_fault
timed_out-uncertain = refl

certainty : (e : Error) → (b : Bool) × ((faults (failed e) true).acceptance_uncertain ≡ some b)
unfolding faults body
certainty e = (uncertain (kind_of e) (public_fault e), refl)

unreadable-uncertain : (faults (failed unreadable) true).acceptance_uncertain ≡ some true
unfolding faults body uncertain kind_of is_service_fault is_connection_fault is_unreadable_response
    ErrorCode-discrete
unreadable-uncertain = refl

Answered-Reported :
    (decode_fault : Text → Option Fault) (r : Reply) (e : Error) (x : Fault)
    → Answered decode_fault r x
    → Reported decode_fault r (failed e)
unfolding Reported
Answered-Reported decode_fault r e x a =
    let (b, known) = certainty e in
    elim (Bool-cases b) [
      | inl maybe ↦ inl (known ∙ ap (λ t. some t) maybe)
      | inr no_more ↦ inr (known ∙ ap (λ t. some t) no_more, x, a)
    ]

pub fails_inj : {A : Type 0} (f g : Failure) → ◌≡◌ {A = Called A} (fails f) (fails g) → f ≡ g
fails_inj f g h = cc

module _ (decode_fault : Text → Option Fault) (raw : Text → Option Text) (a : Attempt) where
  classified-Reported :
      (o : Outcome Text) (f : Failure)
      → read_reply raw decode_fault a.reply ≡ o
      → classified a o ≡ fails f
      → Reported decode_fault a.reply f
  unfolding classified
  classified-Reported (ok t) f e h = absurd (ground (arith, h))
  classified-Reported (err problem) f e h = elim (Bool-cases (a.caller_live && a.expired)) [
    | inl late ↦
        subst (Reported decode_fault a.reply) (fails_inj {A = Text} timed_out f (rw late at h))
          (unfold Reported in inl timed_out-uncertain)
    | inr in_time ↦
        subst (Reported decode_fault a.reply)
          (fails_inj {A = Text} (failed problem) f (rw in_time at h))
          (elim (read_reply_definite raw decode_fault a.reply problem e) [
            | inl own ↦ unfold Reported in inl (own-uncertain problem own)
            | inr (x, answer, same, other) ↦ Answered-Reported decode_fault a.reply problem x answer
          ])
  ]

  do_for-Reported :
      (f : Failure) → do_for raw decode_fault a ≡ fails f → Reported decode_fault a.reply f
  unfolding do_for call
  do_for-Reported f h = classified-Reported (read_reply raw decode_fault a.reply) f refl h

  unreadable-Reported : Reported decode_fault a.reply (failed unreadable)
  unfolding Reported
  unreadable-Reported = inl unreadable-uncertain

  module _ {D : Type 0} (object : Text → Option D) (id_of state_of : D → Text) where
    decoded-Reported :
        (c : Called Text) (f : Failure)
        → do_for raw decode_fault a ≡ c
        → decoded raw decode_fault object id_of state_of c ≡ fails f
        → Reported decode_fault a.reply f
    unfolding decoded
    decoded-Reported (fails g) f e h = do_for-Reported f (e ∙ ap fails (fails_inj {A = D} g f h))
    decoded-Reported (got t) f e h = elim (Option-cases (object t)) [
      | inl bad ↦
          subst (Reported decode_fault a.reply)
            (fails_inj {A = D} (failed unreadable) f (rw (bad, decoded) at h)) unreadable-Reported
      | inr (d, fine) ↦ absurd (ground (arith, h, fine))
    ]

    established-Reported :
        (c : Called D) (f : Failure)
        → do_object_for raw decode_fault object id_of state_of a ≡ c
        → established raw decode_fault object id_of state_of c ≡ fails f
        → Reported decode_fault a.reply f
    unfolding established do_object_for
    established-Reported (fails g) f e h =
        decoded-Reported (do_for raw decode_fault a) f refl (e ∙ ap fails (fails_inj {A = D} g f h))
    established-Reported (got d) f e h =
        elim (Bool-cases (length (id_of d) != 32 || state_of d == [])) [
          | inl bad ↦
              subst (Reported decode_fault a.reply)
                (fails_inj {A = D} (failed unreadable) f (rw bad at h)) unreadable-Reported
          | inr fine ↦ absurd (ground (arith, h, fine))
        ]

    pub do_job_for-Reported :
        (f : Failure)
        → do_job_for raw decode_fault object id_of state_of a ≡ fails f
        → Reported decode_fault a.reply f
    unfolding do_job_for
    do_job_for-Reported f h =
        established-Reported (do_object_for raw decode_fault object id_of state_of a) f refl h
