-- ===== src/Templates/Expression/Compile/Grammar.antt =====
-- The grammar that templates/expression.py documents for its expressions, as the ways to write one
-- step, and that the compiler reads back what is written by it.
use Prim.Native.Char.{Char, code}
use async_task.Prelude.{
  ℕ, ◌+◌, ◌-◌, ◌*◌, ◌^◌, String, Bool, true, false, not, ◌&&◌, List, [], ◌∷◌, ◌==◌,
}
use async_task.Prelude.Text.{append, size, is_empty}
use async_task.Templates.Expression.{Step, key, index}
use async_task.Templates.Expression.Compile.{back_index, is_digit, is_name_char, is_name_start}

abbrev pub all_chars : (Char → Bool) → String → Bool
all_chars p String.[] = true
all_chars p (String.◌∷◌ c s) = p c && all_chars p s

-- A letter or `_`, and letters, digits, `_` and `-`.
abbrev pub is_name : String → Bool
is_name String.[] = false
is_name (String.◌∷◌ c s) = is_name_start c && all_chars is_name_char s

-- The number that a text of digits stands for, by the weights of the digits.
unfoldable pub decimal : String → ℕ
decimal String.[] = 0
decimal (String.◌∷◌ c s) = (code c - 48) * 10 ^ size s + decimal s

-- `.name`, `['name']` and `["name"]`, `[12]`, `[-12]`
pub data Piece : Type 0 where
  dot : String → Piece
  single : String → Piece
  double : String → Piece
  front : String → Piece
  back : String → Piece

abbrev pub quoted : Char → String → String
quoted q s = append (String.◌∷◌ q s) (String.◌∷◌ q String.[])

abbrev pub in_bracket : String → String
in_bracket s = String.◌∷◌ "[" (append s "]")

abbrev pub written : Piece → String
written (dot name) = String.◌∷◌ "." name
written (single name) = in_bracket (quoted "'" name)
written (double name) = in_bracket (quoted "\"" name)
written (front digits) = in_bracket digits
written (back digits) = in_bracket (String.◌∷◌ "-" digits)

abbrev pub not_bracket : Char → Bool
not_bracket c = not (code c == 93)

abbrev pub not_quote : Char → Char → Bool
not_quote q c = not (code c == code q)

-- A name in quotes: neither a bracket nor the quote is in it.
abbrev pub is_quotable : Char → String → Bool
is_quotable q name = all_chars not_bracket name && all_chars (not_quote q) name

abbrev pub digits_only : String → Bool
digits_only s = not (is_empty s) && all_chars is_digit s

abbrev pub fits : Piece → Bool
fits (dot name) = is_name name
fits (single name) = is_quotable "'" name
fits (double name) = is_quotable "\"" name
fits (front digits) = digits_only digits
fits (back digits) = digits_only digits

abbrev pub meaning : Piece → Step
meaning (dot name) = key name
meaning (single name) = key name
meaning (double name) = key name
meaning (front digits) = index (decimal digits)
meaning (back digits) = back_index (decimal digits)

abbrev pub spelled : List Piece → String
spelled [] = String.[]
spelled (p ∷ rest) = append (written p) (spelled rest)
