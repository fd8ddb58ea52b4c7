-- ===== src/Bridge/Envelope.antt =====
-- `envelopeProblem`, `messageProblem`, `idProblem` and `jsonDepth` of
-- internal/adapters/mcpbridge/framing.go: which lines may reach the SDK.
use task_worker.Base.{
  Bool, Option, List, [], ◌∷◌, ℕ, suc, ◌^◌, ◌-◌, true, false, none, some, ltb, all, not, ◌&&◌, ◌||◌,
  ◌==◌, ◌!=◌, is_some, ℕ-comparable, Bytes-comparable, if◌then◌else◌, zero,
}
use task_worker.Base.Int.{ℤ, pos, negsuc, leb_ℤ}
use task_worker.Cursors.{leading_zero}
use task_worker.HttpApi.Ids.{parse_uint}
use task_worker.Text.{Text, bytes, trim_space, has_prefix, cut_prefix}

-- `encoding/json`, as the framing layer calls it: `Valid`, `Unmarshal` into a slice of raw messages,
-- into a map of raw messages and into a string, `Compact`, and `Marshal` of an error reply.
pub record Json : Type 0 where
  pub valid : Text → Bool
  pub batch : Text → Option (List Text)
  pub object : Text → Option (Text → Option Text)
  pub string : Text → Option Text
  pub compact : Text → Option Text
  pub error_reply : ℤ → Text → Text

-- Where `jsonDepth` stands.
pub record Nesting : Type 0 where
  pub depth : ℤ
  pub deepest : ℤ
  pub in_string : Bool
  pub escaped : Bool

abbrev up : ℤ → ℤ
up (pos n) = pos (suc n)
up (negsuc zero) = pos 0
up (negsuc (suc n)) = negsuc n

abbrev down : ℤ → ℤ
down (pos zero) = negsuc 0
down (pos (suc n)) = pos n
down (negsuc n) = negsuc (suc n)

abbrev max_ℤ : ℤ → ℤ → ℤ
max_ℤ a b = if leb_ℤ a b then b else a

in_text : Nesting → ℕ → Nesting
in_text s c =
    if s.escaped
    then record s { escaped = false }
    else if c == b'\\'
    then record s { escaped = true }
    else if c == b'"'
    then record s { in_string = false }
    else s

out_of_text : Nesting → ℕ → Nesting
out_of_text s c =
    if c == b'"'
    then record s { in_string = true }
    else if c == b'{' || c == b'['
    then record s { depth = up s.depth; deepest = max_ℤ s.deepest (up s.depth) }
    else if c == b'}' || c == b']'
    then record s { depth = down s.depth }
    else s

unfoldable pub nest : Nesting → Text → Nesting
unfolding in_text out_of_text
nest s [] = s
nest s (c ∷ cs) = nest (if s.in_string then in_text s c else out_of_text s c) cs

abbrev pub at_top : Nesting
at_top = record { depth = pos 0; deepest = pos 0; in_string = false; escaped = false }

unfoldable pub json_depth : Text → ℤ
unfolding nest
json_depth text = (nest at_top text).deepest

abbrev pub max_json_depth : ℕ
max_json_depth = 512

abbrev pub max_safe_id : ℕ
max_safe_id = 2 ^ 53 - 1

abbrev is_digit : ℕ → Bool
is_digit c = not (ltb c b'0' || ltb b'9' c)

-- `(0|[1-9][0-9]*)`, and with a sign before it `integerID`.
digits : Text → Bool
digits s = not (leading_zero s) && all is_digit s

unfoldable pub integer_id : Text → Bool
unfolding digits
integer_id s = elim (cut_prefix (bytes "-") s) [ some t ↦ digits t | none ↦ digits s ]

-- `strconv.ParseInt` of a text that `integerID` matches.
negated : ℕ → ℤ
negated zero = pos 0
negated (suc n) = negsuc n

unfoldable pub parse_int : Text → Option ℤ
unfolding negated
parse_int s = elim (cut_prefix (bytes "-") s) [
  | some t ↦ elim (parse_uint t) [
    | some n ↦ if ltb (2 ^ 63) n then none else some (negated n)
    | none ↦ none
  ]
  | none ↦ elim (parse_uint s) [
    | some n ↦ if ltb (2 ^ 63 - 1) n then none else some (pos n)
    | none ↦ none
  ]
]

safe_int : Option ℤ → Bool
safe_int none = false
safe_int (some n) = leb_ℤ (negsuc (max_safe_id - 1)) n && leb_ℤ n (pos max_safe_id)

-- A problem, with its text; `none` for none.
unfoldable pub id_problem : Text → Option Text
unfolding safe_int
id_problem raw =
    let s = trim_space raw in
    if s == bytes "null" || has_prefix (bytes "\"") s
    then none
    else if integer_id s && s != bytes "-0" && safe_int (parse_int s)
    then none
    else some (bytes "\"id\" must be a string or an integer within +-9007199254740991")

module _ (j : Json) where
  version_given : Option Text → Bool
  version_given none = false
  version_given (some raw) = elim (j.string raw) [ none ↦ false | some v ↦ v == bytes "2.0" ]

  method_given : Text → Bool
  method_given raw = has_prefix (bytes "\"") (trim_space raw) && is_some (j.string raw)

  -- The checks of a message that has an id, or has none.
  identified : Bool → Option Text → Option Text
  identified has_method none =
      if has_method then none else some (bytes "a message needs a \"method\" or an \"id\"")
  identified has_method (some id) = elim (id_problem id) [
    | some p ↦ some p
    | none ↦
        if not has_method && trim_space id == bytes "null"
        then some (bytes "a response needs a non-null \"id\"")
        else none
  ]

  fields_problem : (Text → Option Text) → Option Text
  unfolding version_given method_given identified
  fields_problem m =
      let with_id = identified (is_some (m (bytes "method"))) (m (bytes "id")) in
      if not (version_given (m (bytes "jsonrpc")))
      then some (bytes "\"jsonrpc\" must be the string \"2.0\"")
      else elim (m (bytes "method")) [
        | none ↦ with_id
        | some method ↦
            if method_given method then with_id else some (bytes "\"method\" must be a string")
      ]

  unfoldable pub message_problem : Text → Option Text
  unfolding fields_problem
  message_problem raw =
      let text = trim_space raw in
      let problem = some (bytes "a message must be a JSON object") in
      if not (has_prefix (bytes "{") text)
      then problem
      else elim (j.object text) [ none ↦ problem | some m ↦ fields_problem m ]

  first_problem : List Text → Option Text
  unfolding message_problem
  first_problem [] = none
  first_problem (m ∷ ms) =
      let later = first_problem ms in elim (message_problem m) [ some p ↦ some p | none ↦ later ]

  batch_problem : Option (List Text) → Option Text
  unfolding first_problem
  batch_problem none = some (bytes "a batch must be an array of messages")
  batch_problem (some []) = some (bytes "an empty batch is not a message")
  batch_problem (some (m ∷ ms)) = first_problem (m ∷ ms)

  unfoldable pub envelope_problem : Text → Option Text
  unfolding batch_problem
  envelope_problem line =
      if not (leb_ℤ (json_depth line) (pos max_json_depth))
      then some (bytes "nesting is deeper than 512 levels")
      else if has_prefix (bytes "[") line
      then batch_problem (j.batch line)
      else message_problem line
