-- ===== src/Templates/Expression/Compile/Reads.antt =====
-- The compiler of expressions takes what its grammar describes.
use Prim.Native.Char.{Char, code}
use async_task.Prelude.{
  ℕ, zero, suc, ◌+◌, ◌≤◌, ◌<◌, ◌≡◌, refl, ap, String, some, Bool, true, false, ◌||◌, List, [], ◌∷◌,
  map, All, Bool-cases, inl, inr, arith, ◌==◌, any, length,
}
use async_task.Prelude.Text.{append, size, has_text}
use async_task.Templates.Expression.{Step, JsonPath}
use async_task.Templates.Expression.Compile.{
  compile_expression, steps, name_run, match_name, split_bracket, bracket_step, next_step,
  parse_steps, bounded, is_digit, is_name_char, is_name_start, forbidden_tokens, max_path_steps,
}
use async_task.Templates.Expression.Compile.Grammar.{
  all_chars, is_name, Piece, dot, single, double, front, back, quoted, in_bracket, written,
  not_bracket, is_quotable, fits, meaning, spelled,
}
use async_task.Templates.Expression.Compile.Brackets.{
  bracket_quoted, bracket_front, bracket_back, not_empty_all,
}

-- What can stand behind a step.
abbrev starts_step : String → Bool
starts_step String.[] = true
starts_step (String.◌∷◌ c s) = code c == 46 || code c == 91

spelled_starts : (ps : List Piece) → starts_step (spelled ps) ≡ true
spelled_starts [] = refl
spelled_starts (dot name ∷ ps) = refl
spelled_starts (single name ∷ ps) = refl
spelled_starts (double name ∷ ps) = refl
spelled_starts (front name ∷ ps) = refl
spelled_starts (back name ∷ ps) = refl

name_run_stop : (rest : String) → starts_step rest ≡ true → name_run rest ≡ (String.[], rest)
unfolding name_run
name_run_stop String.[] h = refl
name_run_stop (String.◌∷◌ c s) h = ground arith

name_run_all :
    (s rest : String)
    → all_chars is_name_char s ≡ true
    → starts_step rest ≡ true
    → name_run (append s rest) ≡ (s, rest)
unfolding name_run
name_run_all String.[] rest h k = name_run_stop rest k
name_run_all (String.◌∷◌ c s) rest h k = ground (arith, name_run_all s rest)

match_name_all :
    (s rest : String)
    → is_name s ≡ true
    → starts_step rest ≡ true
    → match_name (append s rest) ≡ some (s, rest)
unfolding match_name
match_name_all String.[] rest h k = cc
match_name_all (String.◌∷◌ c s) rest h k = elim (Bool-cases (is_name_start c)) [
  | inl e ↦ rw (e, name_run_all s rest (rw e at h) k)
  | inr e ↦ absurd (cc (rw e at h))
]

split_at_bracket :
    (s rest : String)
    → all_chars not_bracket s ≡ true
    → split_bracket (append s (String.◌∷◌ "]" rest)) ≡ some (s, rest)
unfolding split_bracket
split_at_bracket String.[] rest h = refl
split_at_bracket (String.◌∷◌ c s) rest h = ground (arith, split_at_bracket s rest)

append_assoc : (a b c : String) → append (append a b) c ≡ append a (append b c)
append_assoc String.[] b c = refl
append_assoc (String.◌∷◌ x a) b c = ap (λ t. String.◌∷◌ x t) (append_assoc a b c)

next_bracket :
    (inner rest : String) {st : Step}
    → all_chars not_bracket inner ≡ true
    → bracket_step inner ≡ some st
    → next_step (append (in_bracket inner) rest) ≡ some (st, rest)
unfolding next_step
next_bracket inner rest h e = rw (append_assoc inner "]" rest, split_at_bracket inner rest h, e)

all_chars-append :
    (p : Char → Bool) (a b : String)
    → all_chars p a ≡ true
    → all_chars p b ≡ true
    → all_chars p (append a b) ≡ true
all_chars-append p String.[] b h k = k
all_chars-append p (String.◌∷◌ c a) b h k = ground (arith, all_chars-append p a b)

is_digit-not_bracket : (s : String) → all_chars is_digit s ≡ true → all_chars not_bracket s ≡ true
is_digit-not_bracket String.[] h = refl
is_digit-not_bracket (String.◌∷◌ c s) h = elim (Bool-cases (is_digit c)) [
  | inl e ↦ rw (is_digit-not_bracket s (rw e at h)) (ground arith)
  | inr e ↦ absurd (cc (rw e at h))
]

quotable-not_bracket :
    (q : Char) (name : String) → is_quotable q name ≡ true → all_chars not_bracket name ≡ true
quotable-not_bracket q name h = ground arith

next_written :
    (p : Piece) (rest : String)
    → fits p ≡ true
    → starts_step rest ≡ true
    → next_step (append (written p) rest) ≡ some (meaning p, rest)
unfolding next_step
next_written (dot name) rest h k = rw (match_name_all name rest h k)
next_written (single name) rest h k =
    next_bracket (quoted "'" name) rest
      (all_chars-append not_bracket name "'" (quotable-not_bracket "'" name h) refl)
      (bracket_quoted "'" name refl)
next_written (double name) rest h k =
    next_bracket (quoted "\"" name) rest
      (all_chars-append not_bracket name "\"" (quotable-not_bracket "\"" name h) refl)
      (bracket_quoted "\"" name refl)
next_written (front digits) rest h k =
    next_bracket digits rest (is_digit-not_bracket digits (not_empty_all digits h))
      (bracket_front digits h)
next_written (back digits) rest h k =
    next_bracket (String.◌∷◌ "-" digits) rest (is_digit-not_bracket digits (not_empty_all digits h))
      (bracket_back digits h)

parse_next :
    (fuel : ℕ) (s rest : String) (st : Step) (path : JsonPath)
    → next_step s ≡ some (st, rest)
    → size rest < size s
    → size s ≤ suc fuel
    → parse_steps fuel rest ≡ steps path
    → parse_steps (suc fuel) s ≡ steps (st ∷ path)
unfolding parse_steps
parse_next fuel String.[] rest st path e l m h = absurd (omega arith)
parse_next fuel (String.◌∷◌ c s) rest st path e l m h = rw (e, parse_steps, h)

-- The characters of a piece are at least one.
size-append : (a b : String) → size (append a b) ≡ size a + size b
size-append String.[] b = omega arith
size-append (String.◌∷◌ c a) b = omega (arith, size-append a b)

size-written : (p : Piece) (rest : String) → size rest < size (append (written p) rest)
size-written (dot name) rest = omega (arith, size-append name rest)
size-written (single name) rest = omega (arith, size-append (append (quoted "'" name) "]") rest)
size-written (double name) rest = omega (arith, size-append (append (quoted "\"" name) "]") rest)
size-written (front digits) rest = omega (arith, size-append (append digits "]") rest)
size-written (back digits) rest = omega (arith, size-append (append digits "]") rest)

parse_spelled :
    (fuel : ℕ) (ps : List Piece)
    → size (spelled ps) ≤ fuel
    → All (λ p. fits p ≡ true) ps
    → parse_steps fuel (spelled ps) ≡ steps (map meaning ps)
unfolding parse_steps
parse_spelled fuel [] m h = refl
parse_spelled zero (p ∷ ps) m h = absurd (omega (arith, size-written p (spelled ps)))
parse_spelled (suc fuel) (p ∷ ps) m h =
    let shorter = size-written p (spelled ps) in
    parse_next fuel (spelled (p ∷ ps)) (spelled ps) (meaning p) (map meaning ps)
      (next_written p (spelled ps) h.0 (spelled_starts ps)) shorter m
      (parse_spelled fuel ps (omega (arith, shorter)) h.1)

length-map : (ps : List Piece) → length (map meaning ps) ≡ length ps
length-map [] = refl
length-map (p ∷ ps) = ap suc (length-map ps)

bounded-fits : (path : JsonPath) → length path ≤ max_path_steps → bounded (steps path) ≡ steps path
bounded-fits path h = ground arith

-- An expression that is `$` and steps as the grammar has them (names behind a dot, names in quotes
-- of either kind without that quote and without a `]`, indices in decimal digits from the front or the back), no more than
-- 32 and with none of the forbidden constructs in it, compiles to the steps that are meant.
pub compile_spelled :
    (ps : List Piece)
    → All (λ p. fits p ≡ true) ps
    → length ps ≤ max_path_steps
    → any (λ token. has_text token (String.◌∷◌ "$" (spelled ps))) forbidden_tokens ≡ false
    → compile_expression (String.◌∷◌ "$" (spelled ps)) ≡ steps (map meaning ps)
unfolding compile_expression
compile_spelled ps h l f =
    rw (f, parse_spelled (size (spelled ps)) ps (omega arith) h)
      (bounded-fits (map meaning ps) (omega (arith, length-map ps)))
