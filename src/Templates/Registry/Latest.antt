-- ===== src/Templates/Registry/Latest.antt =====
-- Which version the registry gives where none is asked for.
use async_task.Prelude.{
  ℕ, ◌≤◌, ◌<◌, true, false, String, none, some, [], ◌∷◌, All, ◌≡◌, ◌⊎◌, refl, ◌∙◌, subst, arith,
  Bool-cases, Option-cases, inl, inr,
}
use mathlib.Core.Option.{some-injective}
use async_task.Templates.Registry.{
  TemplateVersion, Versions, TemplateRegistry, is_live, last_live, last_version, get_template,
}
use async_task.Templates.Registry.Versions.{Above, Ascending}

last_live-none : (vs : Versions) → last_live vs ≡ none → All (λ v. is_live v ≡ false) vs
unfolding last_live
last_live-none [] h = tt
last_live-none (v ∷ vs) h = elim (Option-cases (last_live vs)) [
  | inl e ↦ (ground arith, last_live-none vs e)
  | inr (x, e) ↦ absurd (cc (rw e at h))
]

All-imp :
    (m : ℕ) (vs : Versions)
    → All (λ v. is_live v ≡ false) vs
    → All (λ v. (is_live v ≡ false) ⊎ (v.version ≤ m)) vs
All-imp m [] h = h
All-imp m (v ∷ vs) h = (inl h.0, All-imp m vs h.1)

last_live-Above :
    (n : ℕ) (vs : Versions) {tv : TemplateVersion}
    → Above n vs
    → last_live vs ≡ some tv
    → n < tv.version
unfolding last_live
last_live-Above n [] a h = cc
last_live-Above n (v ∷ vs) a h = elim (Option-cases (last_live vs)) [
  | inl e ↦ ground arith
  | inr (x, e) ↦ last_live-Above n vs a.1 (e ∙ (rw e at h))
]

last_live-highest :
    (vs : Versions) {tv : TemplateVersion}
    → Ascending vs
    → last_live vs ≡ some tv
    → (is_live tv ≡ true) × All (λ v. (is_live v ≡ false) ⊎ (v.version ≤ tv.version)) vs
unfolding last_live
last_live-highest [] a h = cc
last_live-highest (v ∷ vs) {tv} a h = elim (Option-cases (last_live vs)) [
  | inl e ↦ elim (Bool-cases (is_live v)) [
    | inl f ↦
        let here : v ≡ tv = some-injective _ _ (rw (e, f) at h) in
        subst
          (λ t.
            (is_live t ≡ true) × All (λ v. (is_live v ≡ false) ⊎ (v.version ≤ t.version)) (v ∷ vs))
          here (f, (inr (omega arith), All-imp v.version vs (last_live-none vs e)))
    | inr f ↦ absurd (cc (rw (e, f) at h))
  ]
  | inr (x, e) ↦
      let same : last_live vs ≡ some tv = e ∙ (rw e at h) in
      let (live, rest) = last_live-highest vs a.1 same in
      (live, (inr (omega (arith, last_live-Above v.version vs a.0 same)), rest))
]

last_some :
    (v : TemplateVersion) (vs : Versions) → (x : TemplateVersion) × (last_version (v ∷ vs) ≡ some x)
unfolding last_version
last_some v [] = (v, refl)
last_some v (w ∷ vs) = let (x, e) = last_some w vs in (x, rw e)

last_version-Above :
    (n : ℕ) (vs : Versions) {tv : TemplateVersion}
    → Above n vs
    → last_version vs ≡ some tv
    → n < tv.version
unfolding last_version
last_version-Above n [] a h = cc
last_version-Above n (v ∷ []) a h = ground (arith, a.0)
last_version-Above n (v ∷ w ∷ vs) a h =
    let (x, e) = last_some w vs in last_version-Above n (w ∷ vs) a.1 (e ∙ (rw e at h))

last_version-highest :
    (vs : Versions) {tv : TemplateVersion}
    → Ascending vs
    → last_version vs ≡ some tv
    → All (λ v. v.version ≤ tv.version) vs
unfolding last_version
last_version-highest [] a h = cc
last_version-highest (v ∷ []) {tv} a h = (ground arith, tt)
last_version-highest (v ∷ w ∷ vs) {tv} a h =
    let (x, e) = last_some w vs in
    let same : last_version (w ∷ vs) ≡ some tv = e ∙ (rw e at h) in
    (
      omega (arith, last_version-Above v.version (w ∷ vs) a.0 same),
      last_version-highest (w ∷ vs) a.1 same,
    )

-- Without a number the registry gives the highest version that is enabled and has a weight, if
-- there is one; if there is none it gives the highest version of all. The versions of the alias
-- stand in order.
get_highest :
    (alias : String) (r : TemplateRegistry) {tv : TemplateVersion}
    → Ascending (r alias)
    → get_template alias none r ≡ some tv
    → ((is_live tv ≡ true) × All (λ v. (is_live v ≡ false) ⊎ (v.version ≤ tv.version)) (r alias))
      ⊎ (All (λ v. is_live v ≡ false) (r alias) × All (λ v. v.version ≤ tv.version) (r alias))
unfolding get_template
get_highest alias r {tv} a h = elim (Option-cases (last_live (r alias))) [
  | inl e ↦
      inr (last_live-none (r alias) e, last_version-highest (r alias) a (rw (e, get_template) at h))
  | inr (x, e) ↦ inl (last_live-highest (r alias) a (e ∙ (rw (e, get_template) at h)))
]
