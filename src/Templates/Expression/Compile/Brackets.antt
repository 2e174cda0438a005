-- ===== src/Templates/Expression/Compile/Brackets.antt =====
-- What the compiler of expressions reads in a bracket: a quoted name or an index.
use Prim.Native.Char.{Char, code}
use native.Mathlib.Nat.{pow-succ'}
use async_task.Prelude.{
  ℕ, ◌+◌, ◌-◌, ◌*◌, ◌^◌, ◌≡◌, refl, ap, ◌∙◌, String, none, some, Bool, true, false, ◌&&◌, ◌||◌,
  Bool-cases, inl, inr, arith, ◌==◌,
}
use async_task.Prelude.Text.{append, size, is_empty, is_space, lstrip, rstrip, strip}
use async_task.Templates.Expression.{key, index}
use async_task.Templates.Expression.Compile.{
  drop_quote, unquote, number_of, index_of, back_index, inner_step, bracket_step, is_digit,
}
use async_task.Templates.Expression.Compile.Grammar.{all_chars, decimal, quoted, digits_only}

drop_quote_end : (q : Char) (s : String) → drop_quote q (append s (String.◌∷◌ q String.[])) ≡ some s
unfolding drop_quote
drop_quote_end q String.[] = ground arith
drop_quote_end q (String.◌∷◌ c s) = rw (drop_quote_end q s)

not-empty-append : (s : String) (q : Char) → is_empty (append s (String.◌∷◌ q String.[])) ≡ false
not-empty-append String.[] q = refl
not-empty-append (String.◌∷◌ c s) q = refl

and_false : (b : Bool) → b && false ≡ false
and_false true = refl
and_false false = refl

rstrip_end :
    (q : Char) (s : String)
    → is_space q ≡ false
    → rstrip (append s (String.◌∷◌ q String.[])) ≡ append s (String.◌∷◌ q String.[])
unfolding rstrip
rstrip_end q String.[] h = rw h
rstrip_end q (String.◌∷◌ c s) h =
    rw (rstrip_end q s h, not-empty-append s q, and_false (is_space c))

is_digit-not_space : (c : Char) → is_digit c ≡ true → is_space c ≡ false
is_digit-not_space c h = ground arith

rstrip_digits : (s : String) → all_chars is_digit s ≡ true → rstrip s ≡ s
unfolding rstrip
rstrip_digits String.[] h = refl
rstrip_digits (String.◌∷◌ c s) h = elim (Bool-cases (is_digit c)) [
  | inl e ↦ rw (rstrip_digits s (rw e at h), is_digit-not_space c e)
  | inr e ↦ absurd (cc (rw e at h))
]

shift_digit : (n d t : ℕ) → (n * 10 + d) * t ≡ n * (10 * t) + d * t
shift_digit n d t = grind arith

number_of_digits :
    (n : ℕ) (s : String)
    → all_chars is_digit s ≡ true
    → number_of n s ≡ some (n * 10 ^ size s + decimal s)
unfolding number_of decimal
number_of_digits n String.[] h = ground arith
number_of_digits n (String.◌∷◌ c s) h = elim (Bool-cases (is_digit c)) [
  | inl e ↦
      rw (e, number_of_digits (n * 10 + (code c - 48)) s (rw e at h))
        (ap some (
          omega (
            arith,
            shift_digit n (code c - 48) (10 ^ size s),
            ap (λ (t : ℕ). n * t) (pow-succ' 10 (size s)),
          )))
  | inr e ↦ absurd (cc (rw e at h))
]

decimal_digits : (s : String) → all_chars is_digit s ≡ true → number_of 0 s ≡ some (decimal s)
decimal_digits s h = number_of_digits 0 s h ∙ ap some (omega arith)

strip_digits : (s : String) → all_chars is_digit s ≡ true → strip s ≡ s
unfolding strip lstrip
strip_digits String.[] h = rstrip_digits String.[] h
strip_digits (String.◌∷◌ c s) h = elim (Bool-cases (is_digit c)) [
  | inl e ↦ rw (is_digit-not_space c e) (rstrip_digits (String.◌∷◌ c s) h)
  | inr e ↦ absurd (cc (rw e at h))
]

is_quote-not_space : (q : Char) → (code q == 39 || code q == 34) ≡ true → is_space q ≡ false
is_quote-not_space q h = ground arith

is_digit-not_quote : (c : Char) → is_digit c ≡ true → (code c == 39 || code c == 34) ≡ false
is_digit-not_quote c h = ground arith

is_digit-not_minus : (c : Char) → is_digit c ≡ true → (code c == 45) ≡ false
is_digit-not_minus c h = ground arith

strip-quoted :
    (q : Char) (s : String)
    → (code q == 39 || code q == 34) ≡ true
    → strip (quoted q s) ≡ quoted q s
unfolding strip lstrip
strip-quoted q s h =
    rw (is_quote-not_space q h) (rstrip_end q (String.◌∷◌ q s) (is_quote-not_space q h))

unquote-quoted :
    (q : Char) (s : String) → (code q == 39 || code q == 34) ≡ true → unquote (quoted q s) ≡ some s
unfolding unquote
unquote-quoted q s h = rw (h, drop_quote_end q s)

unquote_digits : (c : Char) (s : String) → is_digit c ≡ true → unquote (String.◌∷◌ c s) ≡ none
unfolding unquote
unquote_digits c s h = rw (is_digit-not_quote c h)

index_of_digits :
    (c : Char) (s : String)
    → all_chars is_digit (String.◌∷◌ c s) ≡ true
    → is_digit c ≡ true
    → index_of (String.◌∷◌ c s) ≡ some (index (decimal (String.◌∷◌ c s)))
unfolding index_of
index_of_digits c s h e = rw (is_digit-not_minus c e, decimal_digits (String.◌∷◌ c s) h)

inner_quoted :
    (q : Char) (s : String)
    → (code q == 39 || code q == 34) ≡ true
    → inner_step (quoted q s) ≡ some (key s)
unfolding inner_step
inner_quoted q s h = rw (inner_step, unquote-quoted q s h)

inner_front : (s : String) → digits_only s ≡ true → inner_step s ≡ some (index (decimal s))
unfolding inner_step
inner_front String.[] h = absurd (cc h)
inner_front (String.◌∷◌ c s) h = elim (Bool-cases (is_digit c)) [
  | inl e ↦ rw (inner_step, unquote_digits c s e) (index_of_digits c s h e)
  | inr e ↦ absurd (cc (rw e at h))
]

inner_back :
    (s : String)
    → digits_only s ≡ true
    → inner_step (String.◌∷◌ "-" s) ≡ some (back_index (decimal s))
unfolding inner_step unquote index_of
inner_back String.[] h = absurd (cc h)
inner_back (String.◌∷◌ c s) h = rw (decimal_digits (String.◌∷◌ c s) h)

pub not_empty_all : (s : String) → digits_only s ≡ true → all_chars is_digit s ≡ true
not_empty_all String.[] h = absurd (cc h)
not_empty_all (String.◌∷◌ c s) h = h

strip_minus : (s : String) → digits_only s ≡ true → strip (String.◌∷◌ "-" s) ≡ String.◌∷◌ "-" s
unfolding strip lstrip rstrip
strip_minus s h = rw (rstrip_digits s (not_empty_all s h))

pub bracket_quoted :
    (q : Char) (s : String)
    → (code q == 39 || code q == 34) ≡ true
    → bracket_step (quoted q s) ≡ some (key s)
unfolding bracket_step
bracket_quoted q s h = ap inner_step (strip-quoted q s h) ∙ inner_quoted q s h

pub bracket_front : (s : String) → digits_only s ≡ true → bracket_step s ≡ some (index (decimal s))
unfolding bracket_step
bracket_front s h = ap inner_step (strip_digits s (not_empty_all s h)) ∙ inner_front s h

pub bracket_back :
    (s : String)
    → digits_only s ≡ true
    → bracket_step (String.◌∷◌ "-" s) ≡ some (back_index (decimal s))
unfolding bracket_step
bracket_back s h = ap inner_step (strip_minus s h) ∙ inner_back s h
