-- ===== src/Templates/Changes/Names.antt =====
-- The names in a list, and names within names.
use async_task.Prelude.{
  ℕ, suc, ◌≤◌, max, Bool, true, not, ◌||◌, String, str_eq, eq_iff, eq_refl, some, List, [], ◌∷◌,
  ◌++◌, any, ◌≡◌, inl, inr, refl, ap, ◌∙◌, subst, arith, Bool-cases,
}
use async_task.Prelude.Text.{append, size, begins_with, place_name, sort_names}
use async_task.Db.Json.{Json, Fields, end, field, lookup, names}
use async_task.Templates.Changes.{keep_if, is_in, union}

pub is_in-keep_if :
    (p : String → Bool) (x : String) (xs : List String)
    → is_in xs x ≡ true
    → p x ≡ true
    → is_in (keep_if p xs) x ≡ true
is_in-keep_if p x [] h e = h
is_in-keep_if p x (y ∷ ys) h e = elim (Bool-cases (str_eq x y)) [
  | inl same ↦
      let py : p y ≡ true = subst (λ z. p z ≡ true) ((eq_iff x y).0 same) e in rw (py, same)
  | inr other ↦
      let later = is_in-keep_if p x ys (rw other at h) e in
      elim (Bool-cases (p y)) [ inl t ↦ rw (t, other) later | inr f ↦ rw f later ]
]

pub is_in-place_name :
    (x y : String) (ys : List String) → is_in (place_name y ys) x ≡ is_in (y ∷ ys) x
unfolding place_name
is_in-place_name x y [] = refl
is_in-place_name x y (z ∷ zs) = grind (arith, is_in-place_name x y zs)

pub is_in-sort_names : (x : String) (xs : List String) → is_in (sort_names xs) x ≡ is_in xs x
unfolding sort_names
is_in-sort_names x [] = refl
is_in-sort_names x (y ∷ ys) =
    is_in-place_name x y (sort_names ys) ∙ ap (λ b. str_eq x y || b) (is_in-sort_names x ys)

pub is_in-append :
    (x : String) (xs ys : List String) → is_in (xs ++ ys) x ≡ (is_in xs x || is_in ys x)
is_in-append x [] ys = refl
is_in-append x (y ∷ xs) ys = grind (arith, is_in-append x xs ys)

pub is_in-union_right :
    (x : String) (xs ys : List String) → is_in ys x ≡ true → is_in (union xs ys) x ≡ true
is_in-union_right x xs ys h = elim (Bool-cases (is_in xs x)) [
  | inl e ↦ is_in-append x xs _ ∙ rw e
  | inr e ↦ is_in-append x xs _ ∙ rw (e, is_in-keep_if (λ y. not (is_in xs y)) x ys h (rw e))
]

pub is_in-union_left :
    (x : String) (xs ys : List String) → is_in xs x ≡ true → is_in (union xs ys) x ≡ true
is_in-union_left x xs ys h = is_in-append x xs _ ∙ rw h

pub lookup-names :
    (k : String) (d : Fields) {v : Json} → lookup k d ≡ some v → is_in (names d) k ≡ true
unfolding lookup
lookup-names k end h = cc
lookup-names k (field j v rest) h = elim (Bool-cases (str_eq j k)) [
  | inl e ↦ rw ((eq_iff j k).0 e, eq_refl k)
  | inr e ↦ elim (Bool-cases (str_eq k j)) [
    | inl f ↦ rw f
    | inr f ↦ rw f (lookup-names k rest (rw e at h))
  ]
]

pub any-found :
    (p : String → Bool) (xs : List String)
    → any p xs ≡ true
    → (x : String) × (is_in xs x ≡ true) × (p x ≡ true)
any-found p [] h = absurd (cc h)
any-found p (x ∷ xs) h = elim (Bool-cases (p x)) [
  | inl e ↦ (x, rw (eq_refl x), e)
  | inr e ↦
      let (y, m, q) = any-found p xs (rw e at h) in
      (y, (elim (Bool-cases (str_eq y x)) [ inl f ↦ rw f | inr f ↦ rw f m ]), q)
]

pub longest : List String → ℕ
longest [] = 0
longest (x ∷ xs) = max (size x) (longest xs)

pub size-longest : (x : String) (xs : List String) → is_in xs x ≡ true → size x ≤ longest xs
unfolding longest
size-longest x [] h = absurd (cc h)
size-longest x (y ∷ ys) h = elim (Bool-cases (str_eq x y)) [
  | inl e ↦ rw ((eq_iff x y).0 e) (omega arith)
  | inr e ↦ omega (arith, size-longest x ys (rw e at h))
]

pub begins_with-size : (s t : String) → begins_with s t ≡ true → size t ≤ size s
unfolding begins_with
begins_with-size s String.[] h = omega arith
begins_with-size String.[] (String.◌∷◌ d t) h = absurd (cc h)
begins_with-size (String.◌∷◌ c s) (String.◌∷◌ d t) h = ground (arith, begins_with-size s t)

pub size-dotted : (f : String) → size (append f ".") ≡ suc (size f)
size-dotted String.[] = refl
size-dotted (String.◌∷◌ c f) = ap suc (size-dotted f)

-- What begins with a text that is inside `f`, is inside `f`.
pub begins_with_trans :
    (g o u t : String)
    → begins_with g (append o u) ≡ true
    → begins_with o t ≡ true
    → begins_with g t ≡ true
unfolding begins_with
begins_with_trans g o u String.[] h k = refl
begins_with_trans g String.[] u (String.◌∷◌ d t) h k = absurd (cc k)
begins_with_trans String.[] (String.◌∷◌ c o) u (String.◌∷◌ d t) h k = absurd (cc h)
begins_with_trans (String.◌∷◌ b g) (String.◌∷◌ c o) u (String.◌∷◌ d t) h k =
    ground (arith, begins_with_trans g o u t)
