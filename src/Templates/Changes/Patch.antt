-- ===== src/Templates/Changes/Patch.antt =====
-- What a patch in place does to the registry.
use async_task.Prelude.{
  true, String, Option, none, some, ◌≡◌, refl, ap, subst, Bool-cases, Option-cases, inl, inr,
}
use mathlib.Core.Option.{some-injective}
use async_task.Db.Json.{Fields, end, lookup}
use async_task.Templates.Resolved.{Resolved}
use async_task.Templates.Registry.{
  TemplateVersion, TemplateRegistry, ApplyMode, in_place, versioned, ValidationReport, get_template,
  plan_mode, is_in_place, amended, patch_in_place,
}
use async_task.Templates.Changes.{opt_same, flatten, classify_change}
use async_task.Templates.Changes.InPlace.{IsShape, in_place-keeps}

module _ (validate : Fields → ValidationReport) (resolve : Fields → Option Resolved)
    (dump : Resolved → Fields) where
  -- `classify_change` as to the apply mode.
  abbrev pub classify : Resolved → Resolved → ApplyMode
  classify old new = (classify_change (dump old) (dump new)).apply_mode

  -- The version that was patched, by what is in it now and a field that has not changed.
  abbrev pub Patched : TemplateRegistry → TemplateVersion → String → Type 0
  Patched r tv f =
      (old : TemplateVersion) × (get_template tv.resolved.alias none r ≡ some old)
      × (tv.version ≡ old.version)
      × (opt_same (lookup f (flatten (dump old.resolved) "" end))
            (lookup f (flatten (dump tv.resolved) "" end))
          ≡ true)

  is_in_place-eq : (m : ApplyMode) → is_in_place validate resolve classify m ≡ true → m ≡ in_place
  is_in_place-eq in_place h = refl
  is_in_place-eq versioned h = cc

  amended-Patched :
      (raw : Fields) (new : Resolved) (f : String) (r : TemplateRegistry) {tv : TemplateVersion}
      {r' : TemplateRegistry}
      → IsShape f
      → plan_mode validate resolve classify new r ≡ in_place
      → amended validate resolve classify raw (some new) r ≡ some (some tv, r')
      → Patched r tv f
  unfolding plan_mode
  amended-Patched raw new f r {tv} {r'} s p h =
      elim (Option-cases (get_template new.alias none r)) [
        | inl e ↦ absurd (cc (rw (amended, e) at h))
        | inr (old, e) ↦
            let same =
              some-injective _ _ (ap (λ q. q.0) (some-injective _ _ (rw (amended, e) at h))) in
            let mode : classify old.resolved new ≡ in_place = rw (plan_mode, e) at p in
            subst (λ x. Patched r x f) same
              (old, e, refl, in_place-keeps (dump old.resolved) (dump new) f mode s)
      ]

  -- A patch in place that is done changes the version that the registry gives for the alias, keeps
  -- its number, and leaves each field of the template as it was that is not one of those for
  -- corrections and has none of them within it, such as the address, the paths, the methods, the
  -- headers, the pool, the strategy and the capabilities. The validator resolves the template as
  -- the registry does.
  pub patch_keeps_shape :
      (raw : Fields) (f : String) (r : TemplateRegistry) {tv : TemplateVersion}
      {r' : TemplateRegistry}
      → IsShape f
      → (validate raw).resolved ≡ resolve raw
      → patch_in_place validate resolve classify raw r ≡ some (some tv, r')
      → Patched r tv f
  unfolding patch_in_place
  patch_keeps_shape raw f r {tv} {r'} s a h = elim (Option-cases (resolve raw)) [
    | inl e ↦ absurd (cc (rw (patch_in_place, e) at h))
    | inr (new, e) ↦ elim (Bool-cases (validate raw).ok) [
      | inr k ↦ absurd (cc (rw (patch_in_place, e, k) at h))
      | inl k ↦
          elim (Bool-cases
            (is_in_place validate resolve classify (plan_mode validate resolve classify new r))) [
              | inr g ↦ absurd (cc (rw (patch_in_place, e, k, g) at h))
              | inl g ↦
                  amended-Patched raw new f r {tv = tv} {r' = r'} s (is_in_place-eq _ g)
                    (rw (patch_in_place, e, k, g, a, e) at h)
            ]
    ]
  ]
