-- ===== src/Templates/Render.antt =====
-- src/async_gateway/templates/render.py, `render_path`, and security/sanitize.py: putting an id that
-- an upstream gave into a path. An id is a text; an exception is `none`.
use Prim.Native.Char.{Char, code}
use async_task.Prelude.{
  Bool, true, false, ◌&&◌, ◌||◌, String, Option, none, some, List, [], ◌∷◌, leb, ◌==◌,
  if◌then◌else◌,
}
use async_task.Prelude.Text.{size, is_empty, append, has_text, is_space}

-- `[A-Za-z0-9._~\-]`
abbrev pub is_unreserved : Char → Bool
is_unreserved c =
    (leb 65 (code c) && leb (code c) 90)
    || (leb 97 (code c) && leb (code c) 122)
    || (leb 48 (code c) && leb (code c) 57)
    || code c == 46
    || code c == 95
    || code c == 126
    || code c == 45

abbrev pub all_chars : (Char → Bool) → String → Bool
all_chars p String.[] = true
all_chars p (String.◌∷◌ c s) = p c && all_chars p s

-- `[/\\:%?#@\s]`
abbrev pub is_dangerous : Char → Bool
is_dangerous c =
    code c == 47
    || code c == 92
    || code c == 58
    || code c == 37
    || code c == 63
    || code c == 35
    || code c == 64
    || is_space c

abbrev pub any_char : (Char → Bool) → String → Bool
any_char p String.[] = false
any_char p (String.◌∷◌ c s) = p c || any_char p s

-- `sanitize_interpolation_value`
unfoldable pub sanitize : String → Option String
unfolding has_text
sanitize raw =
    if is_empty raw
    then none
    else if any_char is_dangerous raw || has_text ".." raw
    then none
    else if all_chars is_unreserved raw && leb (size raw) 256
    then some raw
    else none

-- A template of a path: its characters and the places of `{id}`.
pub data Token : Type 0 where
  lit : Char → Token
  hole : Token

abbrev pub is_placeholder : Char → Char → Char → Char → Bool
is_placeholder c d e f = code c == 123 && code d == 105 && code e == 100 && code f == 125

unfoldable pub tokens : String → List Token
tokens String.[] = []
tokens (String.◌∷◌ c String.[]) = lit c ∷ []
tokens (String.◌∷◌ c (String.◌∷◌ d String.[])) = lit c ∷ lit d ∷ []
tokens (String.◌∷◌ c (String.◌∷◌ d (String.◌∷◌ e String.[]))) = lit c ∷ lit d ∷ lit e ∷ []
tokens (String.◌∷◌ c (String.◌∷◌ d (String.◌∷◌ e (String.◌∷◌ f s)))) =
    let behind = tokens s in
    let next = tokens (String.◌∷◌ d (String.◌∷◌ e (String.◌∷◌ f s))) in
    if is_placeholder c d e f then hole ∷ behind else lit c ∷ next

-- `template.replace("{id}", value)`
unfoldable pub fill : List Token → String → String
fill [] value = String.[]
fill (lit c ∷ ts) value = String.◌∷◌ c (fill ts value)
fill (hole ∷ ts) value = append value (fill ts value)

abbrev pub has_hole : List Token → Bool
has_hole [] = false
has_hole (hole ∷ ts) = true
has_hole (lit c ∷ ts) = has_hole ts

-- What is left must have no braces and no `..`.
abbrev pub checked : String → Option String
checked out =
    if any_char (λ c. code c == 123 || code c == 125) out || has_text ".." out
    then none
    else some out

unfoldable pub render_path : String → String → Option String
unfolding tokens fill sanitize has_text
render_path template id =
    if has_hole (tokens template)
    then elim (sanitize id) [ none ↦ none | some value ↦ checked (fill (tokens template) value) ]
    else checked template
