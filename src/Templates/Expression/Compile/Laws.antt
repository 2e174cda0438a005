-- ===== src/Templates/Expression/Compile/Laws.antt =====
-- The compiler of expressions ends: each step takes at least one character.
use Prim.Native.Char.{code}
use async_task.Prelude.{
  ℕ, zero, suc, ◌≤◌, ◌<◌, ◌≡◌, ◌≢◌, refl, String, some, Option-cases, Bool-cases, inl, inr, arith,
  ◌==◌, any,
}
use async_task.Prelude.Text.{size, is_empty, has_text}
use async_task.Templates.Expression.{Step}
use async_task.Templates.Expression.Compile.{
  compile_expression, Compiled, steps, illegal, unfinished, name_run, match_name, split_bracket,
  next_step, parse_steps, prepend, bounded, after_root, is_name_char, is_name_start,
  forbidden_tokens,
}

size-name_run : (s : String) → size (name_run s).1 ≤ size s
unfolding name_run
size-name_run String.[] = omega arith
size-name_run (String.◌∷◌ c s) = elim (Bool-cases (is_name_char c)) [
  | inl e ↦ rw e (omega (arith, size-name_run s))
  | inr e ↦ rw e (omega arith)
]

size-match_name : (s : String) {a b : String} → match_name s ≡ some (a, b) → size b < size s
unfolding match_name
size-match_name String.[] h = cc
size-match_name (String.◌∷◌ c s) h = elim (Bool-cases (is_name_start c)) [
  | inl e ↦ ground (arith, size-name_run s)
  | inr e ↦ absurd (ground arith)
]

size-split_bracket : (s : String) {a b : String} → split_bracket s ≡ some (a, b) → size b < size s
unfolding split_bracket
size-split_bracket String.[] h = cc
size-split_bracket (String.◌∷◌ c s) h = elim (Option-cases (split_bracket s)) [
  | inl e ↦ ground arith
  | inr ((i, r), e) ↦ ground (arith, size-split_bracket s e)
]

size-next_step :
    (s : String) {st : Step} {rest : String} → next_step s ≡ some (st, rest) → size rest < size s
unfolding next_step
size-next_step String.[] h = cc
size-next_step (String.◌∷◌ c s) h = elim (Option-cases (match_name s)) [
  | inl e ↦ elim (Option-cases (split_bracket s)) [
    | inl f ↦ ground arith
    | inr ((i, r), f) ↦ ground (arith, size-split_bracket s f)
  ]
  | inr ((n, r), e) ↦ elim (Option-cases (split_bracket s)) [
    | inl f ↦ ground (arith, size-match_name s e)
    | inr ((i, q), f) ↦ ground (arith, size-match_name s e, size-split_bracket s f)
  ]
]

prepend-finishes : (st : Step) (c : Compiled) → c ≢ unfinished → prepend st c ≢ unfinished
prepend-finishes st (steps p) h e = cc
prepend-finishes st illegal h e = cc
prepend-finishes st unfinished h e = h refl

parse_steps-finishes : (fuel : ℕ) (s : String) → size s ≤ fuel → parse_steps fuel s ≢ unfinished
unfolding parse_steps
parse_steps-finishes fuel String.[] h = λ e. cc
parse_steps-finishes zero (String.◌∷◌ c s) h = absurd (omega arith)
parse_steps-finishes (suc fuel) (String.◌∷◌ c s) h =
    elim (Option-cases (next_step (String.◌∷◌ c s))) [
      | inl e ↦ rw (e, parse_steps) (λ f. cc)
      | inr ((st, rest), e) ↦
          rw (e, parse_steps)
            (prepend-finishes st (parse_steps fuel rest)
              (parse_steps-finishes fuel rest (omega (arith, size-next_step (String.◌∷◌ c s) e))))
    ]

bounded-finishes : (c : Compiled) → c ≢ unfinished → bounded c ≢ unfinished
bounded-finishes (steps p) h e = ground arith
bounded-finishes illegal h e = cc
bounded-finishes unfinished h e = h refl

after_root-finishes : (s : String) → after_root s ≢ unfinished
after_root-finishes String.[] = λ e. cc
after_root-finishes (String.◌∷◌ c s) = elim (Bool-cases (code c == 36)) [
  | inl e ↦
      rw e
        (bounded-finishes (parse_steps (size s) s) (parse_steps-finishes (size s) s (omega arith)))
  | inr e ↦ rw e (λ f. cc)
]

-- Every text is compiled or refused: the loop comes to its end.
pub compile_finishes : (spec : String) → compile_expression spec ≢ unfinished
unfolding compile_expression
compile_finishes spec = elim (Bool-cases (is_empty spec)) [
  | inl e ↦ rw e (λ f. cc)
  | inr e ↦ elim (Bool-cases (any (λ token. has_text token spec) forbidden_tokens)) [
    | inl f ↦ rw (e, f) (λ g. cc)
    | inr f ↦ rw (e, f) (after_root-finishes spec)
  ]
]
