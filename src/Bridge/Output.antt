-- ===== src/Bridge/Output.antt =====
-- `pageOutput` of internal/adapters/mcpbridge/view.go, and the page that `read_job_output` of
-- tools.go answers. A schema keeps `max_bytes` between 4 and 131072.
pub mod Paging
pub mod Following
use task_worker.Base.{
  Bool, false, true, ltb, leb, length, drop, take, not, ◌&&◌, ◌||◌, ◌==◌, ℕ, zero, suc, ◌+◌,
  ℕ-comparable, Comparable, if◌then◌else◌, Option, none, some,
}
use task_worker.Base.Int.{ℤ, pos, negsuc}
use task_worker.Errors.{Outcome, ok, err, Error, ErrorCode, fault, faulted}
use task_worker.Text.{Text, byte_at, rune_start}

pub record Page : Type 0 where
  pub text : Text
  pub next : ℕ

abbrev pub offset_outside : Error
offset_outside = faulted (
    fault ErrorCode.invalid_request
      "offset_bytes must be within output and on a UTF-8 character boundary")

abbrev pub page_too_small : Error
page_too_small =
    faulted
      (fault ErrorCode.invalid_request "max_bytes is smaller than one character at offset_bytes")

-- `for end > offset && !utf8.RuneStart(text[end]) { end-- }`.
unfoldable pub back_up : Text → ℕ → ℕ → ℕ
back_up text offset zero = zero
back_up text offset (suc e) =
    let earlier = back_up text offset e in
    if ltb offset (suc e) && not (rune_start (byte_at (suc e) text)) then earlier else suc e

unfoldable pub page_output : Text → ℤ → ℕ → Outcome Page
unfolding back_up
page_output text (negsuc n) most = err offset_outside
page_output text (pos offset) most =
    let cut = back_up text offset (offset + most) in
    if ltb (length text) offset
      || (ltb offset (length text) && not (rune_start (byte_at offset text)))
    then err offset_outside
    else if leb (length text) (offset + most)
    then ok (record { text = drop offset text; next = length text })
    else if cut == offset
    then err page_too_small
    else ok (record { text = drop offset (take cut text); next = cut })

-- `read_job_output`, of the output of a job as the service answers it.
pub record OutputPage : Type 0 where
  pub text : Text
  pub offset : ℤ
  pub next : ℕ
  pub total : ℕ
  pub end_of_output : Bool

unfoldable pub read_job_output : Option ℤ → Option ℕ → Text → Bool → Outcome OutputPage
read_job_output offset_bytes max_bytes output is_terminal =
    let offset : ℤ = elim offset_bytes [ none ↦ pos 0 | some o ↦ o ] in
    let most : ℕ = elim max_bytes [ none ↦ 32768 | some n ↦ n ] in
    elim (page_output output offset most) [
      | err e ↦ err e
      | ok p ↦ ok (record {
        text = p.text;
        offset = offset;
        next = p.next;
        total = length output;
        end_of_output = is_terminal && p.next == length output;
      })
    ]
