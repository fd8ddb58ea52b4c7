-- ===== src/Ollama/Budget.antt =====
-- `estimate` and `budget` of internal/adapters/ollama/generate.go.
use task_worker.Base.Int.{leb_ℤ, ℤ, pos, negsuc}
use task_worker.Base.{
  Bool, List, Option, [], arith, false, if◌then◌else◌, leb, length, none, not, refl, some, ℕ, ◌*◌,
  ◌+◌, ◌-◌, ◌/◌, ◌<◌, ◌||◌, ◌∷◌, ◌≡◌, ◌≤◌, true, subst,
}
use task_worker.Jobs.{Instructions, Message, ContextInfo, TokenEstimate, ContextObservation}
use task_worker.Ollama.{failure}
use task_worker.Errors.{Error, ErrorCode}
use task_worker.Text.{Text, bytes}

history_bytes : List Message → ℕ
history_bytes [] = 0
history_bytes (m ∷ ms) = length m.content + history_bytes ms

unfoldable pub estimate : Instructions → Text → TokenEstimate
unfolding history_bytes
estimate i template =
    let n = length i.system + length i.prompt + length template + history_bytes i.history in
    record {
      tokens = pos ((n + 3) / 4 + 16 * (length i.history + 2));
      method =
          bytes
            "heuristic: ceil((UTF-8 input bytes + template source bytes)/4) + 16 per message; not an upper bound";
      exact = false;
    }

-- `n - m` of integers whose difference does not overflow.
unfoldable pub minus : ℤ → ℤ → ℤ
minus (pos n) (pos m) = if leb m n then pos (n - m) else negsuc (m - n - 1)
minus (pos n) (negsuc m) = pos (n + m + 1)
minus (negsuc n) (pos m) = negsuc (n + m)
minus (negsuc n) (negsuc m) = if leb n m then pos (m - n) else negsuc (n - m - 1)

-- The reservation alone fills the limit, or leaves less than the estimate.
unfoldable pub overrun : ℤ → ℤ → ℤ → Bool
unfolding minus
overrun reserve tokens limit = leb_ℤ limit reserve || not (leb_ℤ tokens (minus limit reserve))

overruns : ℤ → ℤ → Option ℤ → Bool
overruns reserve tokens none = false
overruns reserve tokens (some limit) = overrun reserve tokens limit

abbrev pub tokens_of : Option TokenEstimate → ℤ
tokens_of none = pos 0
tokens_of (some e) = e.tokens

abbrev pub loaded_tokens : Option ContextObservation → Option ℤ
loaded_tokens none = none
loaded_tokens (some o) = some o.tokens

above : Option ℤ → ℤ → Bool
above none capacity = false
above (some asked) capacity = not (leb_ℤ asked capacity)

over_capacity : ContextInfo → Bool
over_capacity info = elim info.model_capacity_tokens [
  | none ↦ false
  | some n ↦ leb_ℤ n info.reserved_output_tokens || above info.requested_tokens n
]

-- `Generate` sets the estimate before each call.
unfoldable pub budget : ContextInfo → Option Error
unfolding overruns tokens_of loaded_tokens above over_capacity
budget info =
    let reserve = info.reserved_output_tokens in
    let tokens = tokens_of info.input_estimate in
    if over_capacity info
      || overruns reserve tokens info.model_capacity_tokens
      || overruns reserve tokens info.requested_tokens
      || overruns reserve tokens (loaded_tokens info.loaded)
    then some (failure ErrorCode.invalid_request)
    else none

-- `limit`, where it is known, holds the input and the reserved output.
abbrev pub Holds : Option ℤ → ℕ → ℕ → Type 0
Holds none reserve tokens = Unit
Holds (some limit) reserve tokens =
    (n : ℕ) × (limit ≡ pos n) × (reserve < n) × (reserve + tokens ≤ n)

overrun-Holds :
    (limit : Option ℤ) (reserve tokens : ℕ)
    → overruns (pos reserve) (pos tokens) limit ≡ false
    → Holds limit reserve tokens
unfolding overruns overrun minus
overrun-Holds none reserve tokens h = tt
overrun-Holds (some (pos n)) reserve tokens h = (n, refl, ground (arith, h), ground (arith, h))
overrun-Holds (some (negsuc n)) reserve tokens h = absurd (ground (arith, h))

at_values :
    (a a' b b' : ℤ) (limit : Option ℤ)
    → a ≡ a'
    → b ≡ b'
    → overruns a b limit ≡ false
    → overruns a' b' limit ≡ false
at_values a a' b b' limit r t h =
    subst (λ x. overruns x b' limit ≡ false) r (subst (λ y. overruns a y limit ≡ false) t h)

or_left : (a b : Bool) → (a || b) ≡ false → a ≡ false
or_left false b h = refl
or_left true b h = cc

or_right : (a b : Bool) → (a || b) ≡ false → b ≡ false
or_right false b h = h
or_right true b h = cc

-- With a reservation and an estimate that are not negative, a budget that is accepted leaves room
-- in each known limit, of the model, of the request and of the loaded model, for the reserved
-- output and the estimated input, and some for the input.
pub budget-Holds :
    (info : ContextInfo) (reserve tokens : ℕ)
    → info.reserved_output_tokens ≡ pos reserve
    → tokens_of info.input_estimate ≡ pos tokens
    → budget info ≡ none
    → Holds info.model_capacity_tokens reserve tokens
      × Holds info.requested_tokens reserve tokens
      × Holds (loaded_tokens info.loaded) reserve tokens
unfolding budget
budget-Holds info reserve tokens r t h =
    let over = over_capacity info in
    let model =
      overruns info.reserved_output_tokens (tokens_of info.input_estimate)
        info.model_capacity_tokens in
    let asked =
      overruns info.reserved_output_tokens (tokens_of info.input_estimate) info.requested_tokens in
    let loaded =
      overruns info.reserved_output_tokens (tokens_of info.input_estimate)
        (loaded_tokens info.loaded) in
    let fine = passed (over || model || asked || loaded) h in
    let first = or_left (over || model || asked) loaded fine in
    let second = or_left (over || model) asked first in
    let room =
      λ (limit : Option ℤ)
          (e : overruns info.reserved_output_tokens (tokens_of info.input_estimate) limit ≡ false).
        overrun-Holds limit reserve tokens (at_values _ (pos reserve) _ (pos tokens) limit r t e) in
    (
      room info.model_capacity_tokens (or_right over model second),
      room info.requested_tokens (or_right (over || model) asked first),
      room (loaded_tokens info.loaded) (or_right (over || model || asked) loaded fine),
    )
  where
    passed :
        (b : Bool)
        → (if b then some (failure ErrorCode.invalid_request) else none) ≡ none
        → b ≡ false
    passed true e = absurd (ground (arith, e))
    passed false e = refl
