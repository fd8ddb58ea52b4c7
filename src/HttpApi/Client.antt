-- ===== src/HttpApi/Client.antt =====
-- `Call` and `Wait` of internal/adapters/httpapi/client.go: how a request that cannot be made, a
-- reply, or its absence is classified. The JSON decoders are parameters.
pub mod Outcomes
use task_worker.Base.{
  List, Option, [], if◌then◌else◌, length, ltb, none, some, take, ℕ, ◌!=◌, ◌+◌, ◌==◌, ◌∷◌,
  Comparable, ℕ-comparable,
}
use task_worker.HttpApi.Faults.{
  public_fault, connection, invalid, response_too_large, invalid_response,
}
use task_worker.Errors.{Outcome, Fault, Error, ErrorCode, fault, faulted, err, ok}
use task_worker.State.{terminal}
use task_worker.Text.{Text}
use task_worker.Jobs.{Job}

abbrev pub max_response : ℕ
max_response = 268435456

abbrev pub max_fault_body : ℕ
max_fault_body = 4096

-- What the transport gives: no response, one whose body could not be read to its end, or one with
-- its body.
pub data Reply : Type 0 where
  missing : Reply
  cut_off : ℕ → Reply
  complete : ℕ → Text → Reply

abbrev pub limit_of : ℕ → ℕ
limit_of status = if status == 200 then max_response else max_fault_body

fault_answer : {A : Type 0} → Option Fault → Outcome A
fault_answer none = err connection
fault_answer (some f) = err (faulted (public_fault (faulted f)))

value_answer : {A : Type 0} → Option A → Outcome A
value_answer none = err (faulted (fault ErrorCode.internal invalid_response))
value_answer (some a) = ok a

-- `Call` behind a response, or behind the want of one. `decode` and `decode_fault` are
-- `json.Unmarshal` into the answer and into a fault. At most `limit + 1` bytes are read.
unfoldable pub read_reply :
    {A : Type 0} → (Text → Option A) → (Text → Option Fault) → Reply → Outcome A
unfolding fault_answer value_answer
read_reply decode decode_fault missing = err connection
read_reply decode decode_fault (cut_off status) = err connection
read_reply decode decode_fault (complete status body) =
    let data_read = take (limit_of status + 1) body in
    if ltb (limit_of status) (length data_read)
    then err (faulted (fault ErrorCode.limit_exceeded response_too_large))
    else if status != 200
    then fault_answer (decode_fault data_read)
    else value_answer (decode data_read)

-- What becomes of a request: its command has no JSON form, or `http.NewRequest` refuses its
-- method or address; or it goes to the transport.
pub data Sending : Type 0 where
  unencoded : Sending
  unbuilt : Sending
  handed_over : Reply → Sending

unfoldable pub call : {A : Type 0} → (Text → Option A) → (Text → Option Fault) → Sending → Outcome A
unfolding read_reply
call decode decode_fault unencoded = err invalid
call decode decode_fault unbuilt = err invalid
call decode decode_fault (handed_over r) = read_reply decode decode_fault r

-- `Wait` over its polls; none is left when the context ends between two.
unfoldable pub wait : (Text → Option Job) → (Text → Option Fault) → List Sending → Outcome Job
unfolding call
wait decode decode_fault [] = err connection
wait decode decode_fault (s ∷ ss) =
    let later = wait decode decode_fault ss in
    elim (call decode decode_fault s) [
      | err e ↦ err e
      | ok j ↦ if terminal j.state then ok j else later
    ]
