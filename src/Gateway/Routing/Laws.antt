-- ===== src/Gateway/Routing/Laws.antt =====
-- A path that was rendered for an id is matched as the route of that id.
use Prim.Native.Char.{Char, code}
use mathlib.Core.Option.{some-injective}
use async_task.Prelude.{
  ℕ, suc, ◌≤◌, ◌<◌, Bool, true, false, ◌&&◌, ◌||◌, String, str_eq, none, some, List, [], ◌∷◌, ◌==◌,
  leb, length, ◌≡◌, refl, sym, ap, ◌∙◌, subst, arith, Bool-cases, Option-cases, inl, inr,
}
use async_task.Prelude.Text.{size, is_empty, append, eq_lower, has_text}
use async_task.Templates.Render.{
  Token, lit, hole, tokens, fill, sanitize, render_path, has_hole, checked, all_chars, any_char,
  is_unreserved, is_dangerous,
}
use async_task.Templates.Resolved.{Resolved}
use async_task.Gateway.Routing.{
  query, cancel, normalize, grab, match_tokens, match_pattern, match_query, match_cancel,
  match_route,
}

abbrev is_slash : Char → Bool
is_slash c = code c == 47

abbrev pub holes : List Token → ℕ
holes [] = 0
holes (lit c ∷ ts) = holes ts
holes (hole ∷ ts) = suc (holes ts)

match_size :
    (ts : List Token) (s : String) {g : List String}
    → match_tokens ts s ≡ some g
    → holes ts ≡ 0
    → length ts ≤ size s
unfolding match_tokens
match_size [] s h z = omega arith
match_size (lit c ∷ ts) String.[] h z = cc
match_size (lit c ∷ ts) (String.◌∷◌ d s) h z = elim (Bool-cases (code c == code d)) [
  | inl e ↦ omega (arith, match_size ts s (rw e at h) z)
  | inr e ↦ absurd (cc (rw e at h))
]
match_size (hole ∷ ts) s h z = absurd (omega arith)

match_short :
    (ts : List Token) (s : String) → holes ts ≡ 0 → size s < length ts → match_tokens ts s ≡ none
match_short ts s z h = elim (Option-cases (match_tokens ts s)) [
  | inl e ↦ e
  | inr (g, e) ↦ absurd (omega (arith, match_size ts s e z))
]

grab_short :
    (ts : List Token) (s : String)
    → holes ts ≡ 0
    → size s ≤ length ts
    → grab (match_tokens ts) s ≡ none
unfolding grab
grab_short ts String.[] z h = refl
grab_short ts (String.◌∷◌ c s) z h = elim (Bool-cases (code c == 47)) [
  | inl e ↦ rw e
  | inr e ↦ rw (e, grab_short ts s z (omega arith), match_short ts s z (omega arith))
]

size-fill : (ts : List Token) (v : String) → holes ts ≡ 0 → size (fill ts v) ≡ length ts
unfolding fill
size-fill [] v z = refl
size-fill (lit c ∷ ts) v z = ap suc (size-fill ts v z)
size-fill (hole ∷ ts) v z = absurd (omega arith)

match_fill_none :
    (ts : List Token) (v : String) → holes ts ≡ 0 → match_tokens ts (fill ts v) ≡ some []
unfolding match_tokens fill
match_fill_none [] v z = refl
match_fill_none (lit c ∷ ts) v z = ground (arith, match_fill_none ts v)
match_fill_none (hole ∷ ts) v z = absurd (omega arith)

grab-fill :
    (c : Char) (v w : String) (ts : List Token)
    → holes ts ≡ 0
    → any_char is_slash (String.◌∷◌ c v) ≡ false
    → grab (match_tokens ts) (append (String.◌∷◌ c v) (fill ts w)) ≡ some (String.◌∷◌ c v, [])
unfolding grab
grab-fill c String.[] w ts z h =
    rw (grab_short ts (fill ts w) z (omega (arith, size-fill ts w z)), match_fill_none ts w z)
      (ground arith)
grab-fill c (String.◌∷◌ d v) w ts z h = elim (Bool-cases (code c == 47)) [
  | inl e ↦ absurd (cc (rw e at h))
  | inr e ↦ rw (e, grab-fill d v w ts z (rw e at h))
]

-- One hole is filled with what the match gives back.
match_fill :
    (ts : List Token) (c : Char) (v : String)
    → holes ts ≡ 1
    → any_char is_slash (String.◌∷◌ c v) ≡ false
    → match_tokens ts (fill ts (String.◌∷◌ c v)) ≡ some (String.◌∷◌ c v ∷ [])
unfolding match_tokens fill
match_fill [] c v z h = absurd (omega arith)
match_fill (lit d ∷ ts) c v z h = ground (arith, match_fill ts c v)
match_fill (hole ∷ ts) c v z h =
    rw (match_tokens, grab-fill c v (String.◌∷◌ c v) ts (omega arith) h)

dangerous_slash : (v : String) → any_char is_dangerous v ≡ false → any_char is_slash v ≡ false
dangerous_slash String.[] h = refl
dangerous_slash (String.◌∷◌ c v) h = ground (arith, dangerous_slash v)

or_false : (a b : Bool) → a || b ≡ false → a ≡ false
or_false true b h = h
or_false false b h = refl

-- What may be put into a path is as it was, not empty and without a slash.
sanitize_safe :
    (raw : String) {v : String}
    → sanitize raw ≡ some v
    → (v ≡ raw) × (is_empty v ≡ false) × (any_char is_slash v ≡ false)
unfolding sanitize
sanitize_safe raw {v} h = elim (Bool-cases (is_empty raw)) [
  | inl e ↦ absurd (cc (rw e at h))
  | inr e ↦ elim (Bool-cases (any_char is_dangerous raw || has_text ".." raw)) [
    | inl f ↦ absurd (cc (rw (e, f) at h))
    | inr f ↦ elim (Bool-cases (all_chars is_unreserved raw && leb (size raw) 256)) [
      | inl g ↦
          let same : v ≡ raw = some-injective _ _ (sym (rw (e, f, g) at h)) in
          let clean = dangerous_slash raw (or_false _ _ f) in
          (
            same,
            subst (λ x. is_empty x ≡ false) (sym same) e,
            subst (λ x. any_char is_slash x ≡ false) (sym same) clean,
          )
      | inr g ↦ absurd (cc (rw (e, f, g) at h))
    ]
  ]
]

checked-eq : (out : String) {p : String} → checked out ≡ some p → p ≡ out
checked-eq out h =
    elim (Bool-cases (any_char (λ c. code c == 123 || code c == 125) out || has_text ".." out)) [
      | inl e ↦ absurd (cc (rw e at h))
      | inr e ↦ some-injective _ _ (sym (rw e at h))
    ]

-- What was rendered for an id.
rendered :
    (template id : String) {p : String}
    → render_path template id ≡ some p
    → has_hole (tokens template) ≡ true
    → (p ≡ fill (tokens template) id) × (is_empty id ≡ false) × (any_char is_slash id ≡ false)
unfolding render_path
rendered template id h k = elim (Option-cases (sanitize id)) [
  | inl e ↦ absurd (cc (rw (k, render_path, e) at h))
  | inr (v, e) ↦
      let (same, full, clean) = sanitize_safe id e in
      let out = checked-eq (fill (tokens template) v) (rw (k, render_path, e) at h) in
      (
        out ∙ ap (fill (tokens template)) same,
        subst (λ x. is_empty x ≡ false) same full,
        subst (λ x. any_char is_slash x ≡ false) same clean,
      )
]

one_hole : (ts : List Token) → holes ts ≡ 1 → has_hole ts ≡ true
one_hole [] h = absurd (omega arith)
one_hole (lit c ∷ ts) h = one_hole ts h
one_hole (hole ∷ ts) h = refl

match_full :
    (ts : List Token) (v : String)
    → holes ts ≡ 1
    → is_empty v ≡ false
    → any_char is_slash v ≡ false
    → match_tokens ts (fill ts v) ≡ some (v ∷ [])
match_full ts String.[] h e c = absurd (cc e)
match_full ts (String.◌∷◌ d v) h e c = match_fill ts d v h c

match_rendered :
    (template id : String) {p : String}
    → render_path template id ≡ some p
    → holes (tokens template) ≡ 1
    → normalize template ≡ template
    → match_pattern template p ≡ some (id ∷ [])
unfolding match_pattern
match_rendered template id h k n =
    let (same, full, clean) = rendered template id h (one_hole (tokens template) k) in
    rw (n, same) (match_full (tokens template) id k full clean)

eq_lower_self : (s : String) → eq_lower s s ≡ true
unfolding eq_lower
eq_lower_self String.[] = refl
eq_lower_self (String.◌∷◌ c s) = ground (arith, eq_lower_self s)

-- Paths that are rendered for an id which passes the checks, from the template's path of a query
-- and from that of a cancellation, each with one place for the id, are matched as the query and as
-- the cancellation of that very id. Neither of them is the path of the creation with its method, the
-- methods of query and cancellation differ, and `_normalize` changes neither the paths nor their
-- templates.
pub route_rendered :
    (t : Resolved) (id : String) {p q : String}
    → (eq_lower t.get_method t.create_method && str_eq p (normalize t.create_path)) ≡ false
    → (eq_lower t.cancel_method t.create_method && str_eq q (normalize t.create_path)) ≡ false
    → eq_lower t.get_method t.cancel_method ≡ false
    → render_path t.get_path_template id ≡ some p
    → render_path t.cancel_path_template id ≡ some q
    → (holes (tokens t.get_path_template) ≡ 1) × (holes (tokens t.cancel_path_template) ≡ 1)
    → (normalize t.get_path_template ≡ t.get_path_template)
      × (normalize t.cancel_path_template ≡ t.cancel_path_template)
    → (normalize p ≡ p) × (normalize q ≡ q)
    → (match_route t p t.get_method ≡ query id) × (match_route t q t.cancel_method ≡ cancel id)
unfolding match_route match_cancel match_query
route_rendered t id a b c r s (h, k) (m, n) (x, y) = (
  rw (x, a, c, eq_lower_self t.get_method, match_rendered t.get_path_template id r h m),
  rw (y, b, eq_lower_self t.cancel_method, match_rendered t.cancel_path_template id s k n),
)
