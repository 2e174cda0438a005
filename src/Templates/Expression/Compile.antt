-- ===== src/Templates/Expression/Compile.antt =====
-- src/async_gateway/templates/expression.py, `compile_expression`: from the text of an expression
-- to its steps. Digits and white space are those of ASCII; the source's patterns take those of
-- Unicode too.
pub mod Laws
pub mod Grammar
pub mod Brackets
pub mod Reads
use Prim.Native.Char.{Char, code}
use Prim.Native.String
use async_task.Prelude.{
  ℕ, zero, suc, ◌+◌, ◌-◌, ◌*◌, Bool, true, false, ◌&&◌, ◌||◌, String, Option, none, some, List, [],
  ◌∷◌, leb, ltb, ◌==◌, any, length, if◌then◌else◌,
}
use async_task.Prelude.Text.{size, is_empty, strip, has_text}
use async_task.Templates.Expression.{Step, key, index, index_back, JsonPath}

abbrev pub max_path_steps : ℕ
max_path_steps = 32

-- `unfinished` is the end of the fuel, and `illegal` the source's `ExpressionError`.
pub data Compiled : Type 0 where
  steps : JsonPath → Compiled
  illegal : Compiled
  unfinished : Compiled

abbrev pub forbidden_tokens : List String
forbidden_tokens = ".." ∷ "*" ∷ "[?" ∷ "[(" ∷ "@" ∷ "|" ∷ []

abbrev pub is_digit : Char → Bool
is_digit c = leb 48 (code c) && leb (code c) 57

abbrev pub is_name_start : Char → Bool
is_name_start c =
    (leb 65 (code c) && leb (code c) 90) || (leb 97 (code c) && leb (code c) 122) || code c == 95

abbrev pub is_name_char : Char → Bool
is_name_char c = is_name_start c || is_digit c || code c == 45

-- The longest run of name characters, and what is behind it.
unfoldable pub name_run : String → String × String
name_run String.[] = (String.[], String.[])
name_run (String.◌∷◌ c s) =
    let (name, rest) = name_run s in
    if is_name_char c then (String.◌∷◌ c name, rest) else (String.[], String.◌∷◌ c s)

-- `_NAME_RE.match`
unfoldable pub match_name : String → Option (String × String)
unfolding name_run
match_name String.[] = none
match_name (String.◌∷◌ c s) =
    if is_name_start c then some (String.◌∷◌ c (name_run s).0, (name_run s).1) else none

-- What stands before the first `]`, and what is behind it.
unfoldable pub split_bracket : String → Option (String × String)
split_bracket String.[] = none
split_bracket (String.◌∷◌ c s) =
    if code c == 93 then some (String.[], s) else elim (split_bracket s) [
      | none ↦ none
      | some (inner, rest) ↦ some (String.◌∷◌ c inner, rest)
    ]

-- The text without its last character, if that is `q`.
unfoldable pub drop_quote : Char → String → Option String
drop_quote q String.[] = none
drop_quote q (String.◌∷◌ c s) = elim (drop_quote q s) [
  | some inner ↦ some (String.◌∷◌ c inner)
  | none ↦ if is_empty s && (code c == code q) then some String.[] else none
]

-- `inner[1:-1]`, where the text stands in quotes.
unfoldable pub unquote : String → Option String
unfolding drop_quote
unquote String.[] = none
unquote (String.◌∷◌ q s) = if code q == 39 || code q == 34 then drop_quote q s else none

unfoldable pub number_of : ℕ → String → Option ℕ
number_of n String.[] = some n
number_of n (String.◌∷◌ c s) =
    let more = number_of (n * 10 + (code c - 48)) s in if is_digit c then more else none

-- `int(inner)` where it matches `-?\d+`; an index `-0` is the index 0.
abbrev pub back_index : ℕ → Step
back_index zero = index 0
back_index (suc n) = index_back (suc n)

unfoldable pub index_of : String → Option Step
unfolding number_of
index_of String.[] = none
index_of (String.◌∷◌ c s) =
    if code c == 45
    then (if is_empty s
        then none
        else elim (number_of 0 s) [ none ↦ none | some n ↦ some (back_index n) ])
    else elim (number_of 0 (String.◌∷◌ c s)) [ none ↦ none | some n ↦ some (index n) ]

-- What a bracket holds, stripped.
unfoldable pub inner_step : String → Option Step
unfolding unquote index_of
inner_step inner = elim (unquote inner) [ some name ↦ some (key name) | none ↦ index_of inner ]

unfoldable pub bracket_step : String → Option Step
unfolding inner_step strip
bracket_step inner = inner_step (strip inner)

-- One round of the loop on what is left of the text: the step, and what is left behind it.
unfoldable pub next_step : String → Option (Step × String)
unfolding match_name split_bracket bracket_step
next_step String.[] = none
next_step (String.◌∷◌ c s) =
    if code c == 46
    then elim (match_name s) [ none ↦ none | some (name, rest) ↦ some (key name, rest) ]
    else if code c == 91
    then elim (split_bracket s) [
      | none ↦ none
      | some (inner, rest) ↦ elim (bracket_step inner) [ none ↦ none | some st ↦ some (st, rest) ]
    ]
    else none

abbrev pub prepend : Step → Compiled → Compiled
prepend s (steps path) = steps (s ∷ path)
prepend s other = other

-- The loop, on fuel.
unfoldable pub parse_steps : ℕ → String → Compiled
unfolding next_step
parse_steps fuel String.[] = steps []
parse_steps zero (String.◌∷◌ c s) = unfinished
parse_steps (suc fuel) (String.◌∷◌ c s) = elim (next_step (String.◌∷◌ c s)) [
  | none ↦ illegal
  | some (st, rest) ↦ prepend st (parse_steps fuel rest)
]

abbrev pub bounded : Compiled → Compiled
bounded (steps path) = if ltb max_path_steps (length path) then illegal else steps path
bounded other = other

-- The text behind the `$`; each step takes a character at least.
abbrev pub after_root : String → Compiled
after_root String.[] = illegal
after_root (String.◌∷◌ c s) = if code c == 36 then bounded (parse_steps (size s) s) else illegal

unfoldable pub compile_expression : String → Compiled
unfolding parse_steps has_text
compile_expression spec =
    if is_empty spec
    then illegal
    else if any (λ token. has_text token spec) forbidden_tokens
    then illegal
    else after_root spec

-- `is_valid_expression`
unfoldable pub is_valid_expression : String → Bool
unfolding compile_expression
is_valid_expression spec = elim (compile_expression spec) [ steps path ↦ true | _ ↦ false ]
