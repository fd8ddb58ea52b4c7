-- ===== src/HttpApi/Client/Outcomes.antt =====
-- What the client's errors say about the service.
use task_worker.Text.{Text}
use task_worker.Base.{
  Bool, false, refl, ◌||◌, ◌≡◌, ◌==◌, List, Option, String, some, take, true, ℕ, ◌+◌, ◌⊎◌,
  ℕ-comparable, Bool-cases, Option-cases, inl, inr, length, ltb, subst, arith, sym,
}
use task_worker.HttpApi.Faults.{
  public_fault, is_connection_fault, is_unreadable_response, invalid_response, response_too_large,
  invalid,
}
use task_worker.HttpApi.Client.{
  Reply, Sending, unencoded, unbuilt, handed_over, complete, read_reply, call, limit_of, cut_off,
  missing, connection, fault_answer, value_answer,
}
use task_worker.Errors.{
  Error, Fault, faulted, Outcome, plain, context_ended, end_of_stream, ErrorCode,
  ErrorCode-discrete, err, fault,
}

-- A failure that the client raises itself, for want of a readable reply.
abbrev pub is_own_failure : Error → Bool
is_own_failure e = is_connection_fault e || is_unreadable_response e

listed-is_own_failure :
    (c : ErrorCode) (m : String) (r : Bool) (d : List (String × String))
    → is_own_failure (
        faulted
          (public_fault (faulted (record { code = c; message = m; retryable = r; details = d }))))
      ≡ false
unfolding public_fault is_connection_fault is_unreadable_response ErrorCode-discrete
listed-is_own_failure ErrorCode.invalid_request m r d = refl
listed-is_own_failure _ m r d = refl

-- No fault that a service reports can pass for a failure of the client.
pub public_fault-is_own_failure : (e : Error) → is_own_failure (faulted (public_fault e)) ≡ false
unfolding public_fault is_connection_fault is_unreadable_response ErrorCode-discrete
public_fault-is_own_failure (faulted f) =
    listed-is_own_failure f.code f.message f.retryable f.details
public_fault-is_own_failure context_ended = refl
public_fault-is_own_failure end_of_stream = refl
public_fault-is_own_failure (plain s) = refl

connection_own : is_own_failure connection ≡ true
unfolding is_connection_fault is_unreadable_response ErrorCode-discrete
connection_own = refl

too_large_own : is_own_failure (faulted (fault ErrorCode.limit_exceeded response_too_large)) ≡ true
unfolding is_connection_fault is_unreadable_response ErrorCode-discrete
too_large_own = refl

invalid_own : is_own_failure (faulted (fault ErrorCode.internal invalid_response)) ≡ true
unfolding is_connection_fault is_unreadable_response ErrorCode-discrete
invalid_own = refl

invalid-is_own_failure : is_own_failure invalid ≡ false
unfolding is_connection_fault is_unreadable_response ErrorCode-discrete
invalid-is_own_failure = refl

err_inj : {A : Type 0} (e e' : Error) → ◌≡◌ {A = Outcome A} (err e) (err e') → e ≡ e'
err_inj e e' h = cc

own :
    {A : Type 0} (e e' : Error)
    → is_own_failure e ≡ true
    → ◌≡◌ {A = Outcome A} (err e) (err e')
    → is_own_failure e' ≡ true
own e e' o h = subst (λ x. is_own_failure x ≡ true) (err_inj e e' h) o

-- The service has answered `f`: a whole reply of another status than 200, short enough to be read.
pub record Answered (decode_fault : Text → Option Fault) (r : Reply) (f : Fault) : Type 0 where
  pub status : ℕ
  pub body : Text
  pub reply_is : r ≡ complete status body
  pub refused : (status == 200) ≡ false
  pub fault_is : decode_fault (take (limit_of status + 1) body) ≡ some f

module _ {A : Type 0} (decode : Text → Option A) (decode_fault : Text → Option Fault) where
  -- An error of the client behind its own failure or behind an answer of the service.
  pub read_reply_definite :
      (r : Reply) (e : Error)
      → read_reply decode decode_fault r ≡ err e
      → (is_own_failure e ≡ true)
        ⊎ ((f : Fault) × Answered decode_fault r f
            × (e ≡ faulted (public_fault (faulted f)))
            × (is_own_failure e ≡ false))
  unfolding read_reply fault_answer value_answer
  read_reply_definite missing e h = inl (own connection e connection_own h)
  read_reply_definite (cut_off s) e h = inl (own connection e connection_own h)
  read_reply_definite (complete s b) e h =
      let read = take (limit_of s + 1) b in
      elim (Bool-cases (ltb (limit_of s) (length read))) [
        | inl long ↦ inl (own _ e too_large_own (rw long at h))
        | inr short ↦ elim (Bool-cases (s == 200)) [
          | inl fine ↦ elim (Option-cases (decode read)) [
            | inl bad ↦ inl (own {A = A} _ e invalid_own (ground (arith, h, short, fine, bad)))
            | inr (a, good) ↦ absurd (ground (arith, h, short, fine, good))
          ]
          | inr refused ↦ elim (Option-cases (decode_fault read)) [
            | inl bad ↦
                inl
                  (own {A = A} connection e connection_own (ground (arith, h, short, refused, bad)))
            | inr (f, good) ↦
                let same : e ≡ faulted (public_fault (faulted f)) =
                  ground (arith, h, short, refused, good) in
                inr (
                  f,
                  record {
                    status = s;
                    body = b;
                    reply_is = refl;
                    refused = refused;
                    fault_is = good;
                  },
                  same,
                  rw same (public_fault-is_own_failure (faulted f)),
                )
          ]
        ]
      ]

  -- Every error of a call is one of three: the request was never handed to the transport, and the
  -- error is `invalid`; or it was, and the error is the client's own failure; or it was, and the
  -- error is the public form of a fault with which the service has answered. So an error that is
  -- neither `invalid` nor a failure of the client proves that the service answered, and `invalid`
  -- is not a failure of the client.
  pub call_definite :
      (s : Sending) (e : Error)
      → call decode decode_fault s ≡ err e
      → (((s ≡ unencoded) ⊎ (s ≡ unbuilt)) × (e ≡ invalid) × (is_own_failure e ≡ false))
        ⊎ ((r : Reply) × (s ≡ handed_over r)
            × ((is_own_failure e ≡ true)
                ⊎ ((f : Fault) × Answered decode_fault r f
                    × (e ≡ faulted (public_fault (faulted f)))
                    × (is_own_failure e ≡ false))))
  unfolding call
  call_definite unencoded e h =
      let same : invalid ≡ e = err_inj {A = A} invalid e h in
      inl (inl refl, sym same, subst (λ x. is_own_failure x ≡ false) same invalid-is_own_failure)
  call_definite unbuilt e h =
      let same : invalid ≡ e = err_inj {A = A} invalid e h in
      inl (inr refl, sym same, subst (λ x. is_own_failure x ≡ false) same invalid-is_own_failure)
  call_definite (handed_over r) e h = inr (r, refl, read_reply_definite r e h)
