-- ===== src/Modelfile.antt =====
-- internal/adapters/ollama/modelfile.go: the strict check of a generated Modelfile, which accepts
-- only a model whose template and system text are the ones that it was told, and no renderer.
use mathlib.Core.Option
use task_worker.Text.{Text, trim_space, has_prefix}
use task_worker.Base.{
  List, Option, Bool, [], drop, false, if◌then◌else◌, leb, length, none, not, some, suc, true, zero,
  ℕ, ◌!=◌, ◌&&◌, ◌-◌, ◌==◌, ◌||◌, ◌∷◌, ℕ-comparable, Bytes-comparable,
}

abbrev is_line_end : ℕ → Bool
is_line_end b = b == 10 || b == 13

abbrev is_blank : ℕ → Bool
is_blank b = b == 32 || b == 9

abbrev is_gap : ℕ → Bool
is_gap b = is_blank b || is_line_end b

unfoldable pub has_byte : (ℕ → Bool) → Text → Bool
has_byte p [] = false
has_byte p (b ∷ bs) = p b || has_byte p bs

-- `strings.TrimLeft` with a set of bytes.
unfoldable pub skip : (ℕ → Bool) → Text → Text
skip p [] = []
skip p (b ∷ bs) = let rest = skip p bs in if p b then rest else b ∷ bs

-- What stands in front of the first byte of the set, and what begins with it.
unfoldable pub split_at : (ℕ → Bool) → Text → Text × Text
split_at p [] = ([], [])
split_at p (b ∷ bs) =
    let (front, back) = split_at p bs in if p b then ([], b ∷ bs) else (b ∷ front, back)

-- `strings.ToUpper`, as far as a comparison with ASCII words can tell: the letters, and the two
-- characters outside ASCII whose upper case is an ASCII letter.
unfoldable pub to_upper : Text → Text
to_upper [] = []
to_upper (b ∷ []) = (if leb 97 b && leb b 122 then b - 32 else b) ∷ []
to_upper (b ∷ c ∷ bs) =
    let rest = to_upper (c ∷ bs) in
    let after = to_upper bs in
    if b == 196 && c == 177
    then 73 ∷ after
    else if b == 197 && c == 191
    then 83 ∷ after
    else (if leb 97 b && leb b 122 then b - 32 else b) ∷ rest

-- `modelfileLine`.
unfoldable pub modelfile_line : Text → Text × Text
unfolding split_at
modelfile_line s = let (line, rest) = split_at is_line_end s in (line, drop 1 rest)

-- What stands in front of and behind the first place of a delimiter.
unfoldable pub cut_at : Text → Text → Option (Text × Text)
unfolding has_prefix
cut_at d [] = none
cut_at d (b ∷ bs) =
    let rest = cut_at d bs in
    if has_prefix d (b ∷ bs)
    then some ([], drop (length d) (b ∷ bs))
    else Option.map (λ (front, back). (b ∷ front, back)) rest

abbrev quotes : Text
quotes = 34 ∷ 34 ∷ 34 ∷ []

-- The rest of a quoted value, behind its first delimiter.
quoted_value : Text → Text → Option (Text × Text)
unfolding modelfile_line has_byte cut_at
quoted_value delimiter s = elim (cut_at delimiter s) [
  | none ↦ none
  | some (value, back) ↦
      let (line, rest) = modelfile_line back in
      if has_byte (λ b. not (is_blank b)) line then none else some (value, rest)
]

raw_value : Text → Option (Text × Text)
unfolding modelfile_line
raw_value s = let (line, rest) = modelfile_line s in some (trim_space line, rest)

-- `modelfileValue`: a raw line, or a text in one or three double quotes that ends its line.
unfoldable pub modelfile_value : Text → Option (Text × Text)
unfolding quoted_value raw_value
modelfile_value [] = none
modelfile_value (b ∷ bs) =
    if is_line_end b
    then none
    else if has_prefix quotes (b ∷ bs)
    then quoted_value quotes (drop 3 (b ∷ bs))
    else if b == 34
    then quoted_value (34 ∷ []) bs
    else raw_value (b ∷ bs)

-- The commands, as the switch tells them apart.
pub data Keyword : Type 0 where
  forbidden from adapter template system trailer parameter unknown : Keyword

abbrev word : List Text → Keyword → Text → Keyword → Keyword
word [] k s otherwise = otherwise
word (w ∷ ws) k s otherwise = if s == w then k else word ws k s otherwise

unfoldable pub keyword : Text → Keyword
keyword s =
    word
      ((82 ∷ 69 ∷ 78 ∷ 68 ∷ 69 ∷ 82 ∷ 69 ∷ 82 ∷ []) ∷ (77 ∷ 69 ∷ 83 ∷ 83 ∷ 65 ∷ 71 ∷ 69 ∷ []) ∷ [])
      forbidden s
      (word ((70 ∷ 82 ∷ 79 ∷ 77 ∷ []) ∷ []) from s (
        word ((65 ∷ 68 ∷ 65 ∷ 80 ∷ 84 ∷ 69 ∷ 82 ∷ []) ∷ []) adapter s (
          word ((84 ∷ 69 ∷ 77 ∷ 80 ∷ 76 ∷ 65 ∷ 84 ∷ 69 ∷ []) ∷ []) template s (
            word ((83 ∷ 89 ∷ 83 ∷ 84 ∷ 69 ∷ 77 ∷ []) ∷ []) system s (
              word
                ((76 ∷ 73 ∷ 67 ∷ 69 ∷ 78 ∷ 83 ∷ 69 ∷ [])
                  ∷ (80 ∷ 65 ∷ 82 ∷ 83 ∷ 69 ∷ 82 ∷ [])
                  ∷ (82 ∷ 69 ∷ 81 ∷ 85 ∷ 73 ∷ 82 ∷ 69 ∷ 83 ∷ [])
                  ∷ [])
                trailer s
                (word ((80 ∷ 65 ∷ 82 ∷ 65 ∷ 77 ∷ 69 ∷ 84 ∷ 69 ∷ 82 ∷ []) ∷ []) parameter s
                  unknown))))))

-- The four flags of the loop.
pub record Seen : Type 0 where
  pub found_from : Bool
  pub found_template : Bool
  pub found_system : Bool
  pub tail : Bool

abbrev is_name_byte : ℕ → Bool
is_name_byte b = leb 97 b && leb b 122 || leb 65 b && leb b 90 || leb 48 b && leb b 57 || b == 95

-- `FROM` and `ADAPTER`: one unquoted line.
read_path : Bool → Seen → Text → Option (Seen × Text)
unfolding modelfile_line has_byte
read_path out_of_order seen source =
    let (value, rest) = modelfile_line source in
    if trim_space value == []
      || has_byte (λ b. b == 34 || b == 9) value
      || seen.found_template
      || seen.tail
      || out_of_order
    then none
    else some (record seen { found_from = true }, rest)

-- A value that the check `good` accepts.
read_value : (Text → Bool) → Seen → Text → Option (Seen × Text)
unfolding modelfile_value
read_value good seen source = elim (modelfile_value source) [
  | none ↦ none
  | some (value, rest) ↦ if good value then some (seen, rest) else none
]

-- The name of a parameter is consumed before its value.
parameter_value : Text → Seen → Text → Option (Seen × Text)
unfolding read_value has_byte skip
parameter_value name seen [] = none
parameter_value name seen (c ∷ cs) =
    if name == [] || is_line_end c || has_byte (λ x. not (is_name_byte x)) name
    then none
    else read_value (λ v. true) (record seen { tail = true }) (skip is_blank (c ∷ cs))

read_parameter : Seen → Text → Option (Seen × Text)
unfolding parameter_value split_at
read_parameter seen source =
    let (name, back) = split_at is_gap source in parameter_value name seen back

abbrev early : Text → Seen → Bool
early sys seen = not seen.found_template || (sys != [] && not seen.found_system)

-- One command: `none` refuses the file.
unfoldable pub read_command : Text → Text → Keyword → Seen → Text → Option (Seen × Text)
unfolding read_path read_value read_parameter
read_command tmpl sys forbidden seen source = none
read_command tmpl sys unknown seen source = none
read_command tmpl sys from seen source = read_path seen.found_from seen source
read_command tmpl sys adapter seen source = read_path (not seen.found_from) seen source
read_command tmpl sys template seen source =
    if not seen.found_from || seen.found_template || seen.tail
    then none
    else read_value (λ v. v != [] && v == tmpl) (record seen { found_template = true }) source
read_command tmpl sys system seen source =
    if not seen.found_template || seen.found_system || seen.tail || sys == []
    then none
    else read_value (λ v. v != [] && v == sys) (record seen { found_system = true }) source
read_command tmpl sys trailer seen source =
    if early sys seen then none else read_value (λ v. v != []) (record seen { tail = true }) source
read_command tmpl sys parameter seen source =
    if early sys seen then none else read_parameter seen source

-- A command with its name, which a blank ends.
read_named : Text → Text → Seen → Text → Text → Option (Seen × Text)
unfolding to_upper keyword read_command skip
read_named tmpl sys seen name [] = none
read_named tmpl sys seen name (c ∷ cs) =
    if is_line_end c
    then none
    else read_command tmpl sys (keyword (to_upper name)) seen (skip is_blank (c ∷ cs))

-- One round of the loop, at a byte that is no white space: a comment or a command.
read_at : Text → Text → Seen → ℕ → Text → Option (Seen × Text)
unfolding modelfile_line split_at read_named
read_at tmpl sys seen b bs =
    let (name, back) = split_at is_gap (b ∷ bs) in
    if b == 35 then some (seen, (modelfile_line (b ∷ bs)).1) else read_named tmpl sys seen name back

-- On fuel: each round takes at least a byte.
unfoldable pub read_commands : ℕ → Text → Text → Seen → Text → Option Seen
unfolding read_at skip
read_commands zero tmpl sys seen source = some seen
read_commands (suc fuel) tmpl sys seen source = elim (skip is_gap source) [
  | [] ↦ some seen
  | b ∷ bs ↦ elim (read_at tmpl sys seen b bs) [
    | none ↦ none
    | some (seen', rest) ↦ read_commands fuel tmpl sys seen' rest
  ]
]

unfoldable pub template_only_modelfile : Text → Text → Text → Bool
unfolding read_commands has_byte
template_only_modelfile source tmpl sys =
    if source == [] || has_byte (λ b. b == 0) source
    then false
    else elim (read_commands (length source) tmpl sys
        (record { found_from = false; found_template = false; found_system = false; tail = false })
        source) [
          | none ↦ false
          | some seen ↦ seen.found_from && seen.found_template && (sys == [] || seen.found_system)
        ]
