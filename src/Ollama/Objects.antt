-- ===== src/Ollama/Objects.antt =====
-- `validObject` of internal/adapters/ollama/generate.go, over the tokens of `json.Decoder`.
use task_worker.Base.{
  Bool, List, Option, [], false, if◌then◌else◌, is_none, leb, length, ltb, none, not, some, suc,
  zero, ℕ, ◌&&◌, ◌*◌, ◌+◌, ◌==◌, ◌||◌, ◌∷◌, Bytes-comparable,
}
use task_worker.Text.{Text, valid_string}

pub data Token : Type 0 where
  open_object close_object open_array close_array scalar : Token
  string : Text → Token

-- What the decoder reads out of a text: its tokens, and whether the end of the text stands behind
-- them, or an error.
pub record Tokens : Type 0 where
  pub tokens : List Token
  pub clean_end : Bool

seen_key : Text → List Text → Bool
seen_key k [] = false
seen_key k (x ∷ xs) = x == k || seen_key k xs

mutual
  -- One value at a depth, with fuel for the tokens: the tokens behind it.
  value : ℕ → ℕ → List Token → Option (List Token)
  value zero depth ts = none
  value (suc fuel) depth [] = none
  value (suc fuel) depth (close_object ∷ ts) = none
  value (suc fuel) depth (close_array ∷ ts) = none
  value (suc fuel) depth (scalar ∷ ts) = if leb depth 64 && ltb 0 depth then some ts else none
  value (suc fuel) depth (string s ∷ ts) = if leb depth 64 && ltb 0 depth then some ts else none
  value (suc fuel) depth (open_object ∷ ts) =
      let rest = members fuel depth [] ts in if leb depth 64 then rest else none
  value (suc fuel) depth (open_array ∷ ts) =
      let rest = elements fuel depth ts in if leb depth 64 && ltb 0 depth then rest else none

  -- The members of an object up to its end, with the keys so far.
  members : ℕ → ℕ → List Text → List Token → Option (List Token)
  members zero depth seen ts = none
  members (suc fuel) depth seen (close_object ∷ ts) = some ts
  members (suc fuel) depth seen (string k ∷ ts) =
      let next = value fuel (suc depth) ts in
      if seen_key k seen
      then none
      else elim next [ none ↦ none | some us ↦ members fuel depth (k ∷ seen) us ]
  members (suc fuel) depth seen ts = none

  elements : ℕ → ℕ → List Token → Option (List Token)
  elements zero depth ts = none
  elements (suc fuel) depth (close_array ∷ ts) = some ts
  elements (suc fuel) depth ts = elim (value fuel (suc depth) ts) [
    | none ↦ none
    | some us ↦ elements fuel depth us
  ]

first : List Token → Option Token
first [] = none
first (t ∷ ts) = some t

-- `read` is `json.Decoder` over the text. A step consumes a token, or is the one before a step that
-- does, so twice the tokens are fuel enough.
unfoldable pub valid_object : (Text → Tokens) → Text → Bool
unfolding value members elements seen_key first
valid_object read text =
    let t = read text in
    if not (valid_string text) then false else elim (value (2 * length t.tokens + 2) 0 t.tokens) [
      | none ↦ false
      | some rest ↦ is_none (first rest) && t.clean_end
    ]
