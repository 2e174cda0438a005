-- ===== src/Templates/Changes/InPlace.antt =====
-- A change that comes into effect in place leaves the shape of the requests alone.
use async_task.Prelude.{
  ℕ, zero, suc, ◌+◌, ◌<◌, true, false, not, String, str_eq, eq_iff, List, [], ◌∷◌, any, ◌≡◌, ◌⊎◌,
  inl, inr, refl, sym, ap, ◌∙◌, subst, arith, Bool-cases, Option-cases,
}
use async_task.Prelude.Text.{append, size, begins_with}
use async_task.Db.Json.{Fields, end, lookup, names}
use async_task.Templates.Registry.{in_place}
use async_task.Templates.Changes.{
  json_eq, ephemeral_fields, opt_same, differs_at, is_in, union, has_inner, all_ephemeral, flatten,
  changed_names, plan_for, classify_change,
}
use async_task.Templates.Changes.Names.{
  is_in-keep_if, is_in-sort_names, is_in-union_right, is_in-union_left, lookup-names, any-found,
  longest, size-longest, begins_with-size, size-dotted, begins_with_trans,
}

is_in-changed_names :
    (a b : Fields) (k : String) → differs_at a b k ≡ true → is_in (changed_names a b) k ≡ true
unfolding changed_names json_eq
is_in-changed_names a b k h =
    is_in-sort_names k _ ∙ is_in-keep_if (differs_at a b) k (union (names a) (names b)) named h
  where
    named : is_in (union (names a) (names b)) k ≡ true
    named = elim (Option-cases (lookup k a)) [
      | inr (v, e) ↦ is_in-union_left k (names a) (names b) (lookup-names k a e)
      | inl e ↦ elim (Option-cases (lookup k b)) [
        | inr (v, f) ↦ is_in-union_right k (names a) (names b) (lookup-names k b f)
        | inl f ↦ absurd (cc (rw (e, f) at h))
      ]
    ]

-- Each name is one without others inside, or has such a one inside.
abbrev Within : String → String → Type 0
Within g f = (g ≡ f) ⊎ (begins_with g (append f ".") ≡ true)

innermost :
    (changed : List String) (n : ℕ) (f : String)
    → is_in changed f ≡ true
    → longest changed < size f + n
    → (g : String) × (is_in changed g ≡ true) × (has_inner changed g ≡ false) × Within g f
innermost changed zero f m l = absurd (omega (arith, size-longest f changed m))
innermost changed (suc n) f m l = elim (Bool-cases (has_inner changed f)) [
  | inr alone ↦ (f, m, alone, inl refl)
  | inl inner ↦
      let (o, mo, begins) = any-found (λ x. begins_with x (append f ".")) changed inner in
      let (g, mg, alone, within) =
        innermost changed n o mo
          (omega (arith, begins_with-size o (append f ".") begins, size-dotted f)) in
      (g, mg, alone, inr (through o g begins within))
]
  where
    through :
        (o g : String)
        → begins_with o (append f ".") ≡ true
        → Within g o
        → begins_with g (append f ".") ≡ true
    through o g begins (inl same) =
        subst (λ x. begins_with x (append f ".") ≡ true) (sym same) begins
    through o g begins (inr w) = begins_with_trans g o "." (append f ".") w begins

all_ephemeral-is_in :
    (fs : List String) (g : String)
    → all_ephemeral fs ≡ true
    → is_in fs g ≡ true
    → is_in ephemeral_fields g ≡ true
all_ephemeral-is_in [] g h m = absurd (cc m)
all_ephemeral-is_in (f ∷ fs) g h m = elim (Bool-cases (is_in ephemeral_fields f)) [
  | inr e ↦ absurd (cc (rw e at h))
  | inl e ↦ elim (Bool-cases (str_eq g f)) [
    | inl same ↦ subst (λ x. is_in ephemeral_fields x ≡ true) (sym ((eq_iff g f).0 same)) e
    | inr other ↦ all_ephemeral-is_in fs g (rw e at h) (rw other at m)
  ]
]

plan-ephemeral :
    (fs : List String) (g : String)
    → (plan_for fs).apply_mode ≡ in_place
    → is_in fs g ≡ true
    → is_in ephemeral_fields g ≡ true
unfolding plan_for
plan-ephemeral [] g h m = absurd (cc m)
plan-ephemeral (f ∷ fs) g h m = elim (Bool-cases (all_ephemeral (f ∷ fs))) [
  | inl e ↦ all_ephemeral-is_in (f ∷ fs) g e m
  | inr e ↦ absurd (cc (rw e at h))
]

-- Neither a field for corrections nor around one.
abbrev pub IsShape : String → Type 0
IsShape f =
    (is_in ephemeral_fields f ≡ false)
    × (any (λ g. begins_with g (append f ".")) ephemeral_fields ≡ false)

shape-Within :
    (f g : String) → IsShape f → is_in ephemeral_fields g ≡ true → Within g f → true ≡ false
shape-Within f g (h, k) m (inl same) = sym m ∙ ap (is_in ephemeral_fields) same ∙ h
shape-Within f g (h, k) m (inr w) = sym (found ephemeral_fields m) ∙ k
  where
    found :
        (xs : List String) → is_in xs g ≡ true → any (λ x. begins_with x (append f ".")) xs ≡ true
    found [] n = absurd (cc n)
    found (x ∷ xs) n = elim (Bool-cases (str_eq g x)) [
      | inl e ↦ rw (subst (λ y. begins_with y (append f ".") ≡ true) ((eq_iff g x).0 e) w)
      | inr e ↦ elim (Bool-cases (begins_with x (append f "."))) [
        | inl b ↦ rw b
        | inr b ↦ rw b (found xs (rw e at n))
      ]
    ]

pub in_place-keeps :
    (old new : Fields) (f : String)
    → (classify_change old new).apply_mode ≡ in_place
    → IsShape f
    → opt_same (lookup f (flatten old "" end)) (lookup f (flatten new "" end)) ≡ true
unfolding classify_change
in_place-keeps old new f h shape = elim (Bool-cases (opt_same (lookup f a) (lookup f b))) [
  | inl e ↦ e
  | inr e ↦
      let changed = changed_names a b in
      let (g, mg, alone, within) =
        innermost changed (suc (longest changed)) f (is_in-changed_names a b f (rw e))
          (omega arith) in
      let kept = is_in-keep_if (λ k. not (has_inner changed k)) g changed mg (rw alone) in
      absurd (cc (shape-Within f g shape (plan-ephemeral _ g h kept) within))
]
  where
    a : Fields
    a = flatten old "" end

    b : Fields
    b = flatten new "" end
