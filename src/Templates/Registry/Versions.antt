-- ===== src/Templates/Registry/Versions.antt =====
-- The versions of an alias stand in the order of their numbers, each number once, and the registry
-- gives back what was put in.
use async_task.Prelude.{
  ℕ, ◌≤◌, ◌<◌, Bool, false, not, ◌&&◌, String, str_eq, eq_iff, Option, none, some, [], ◌∷◌, leb,
  ◌==◌, All, ◌≡◌, refl, sym, ap, subst, arith, Bool-cases, inl, inr, if◌then◌else◌,
}
use mathlib.Core.Option.{some-injective}
use async_task.Db.Json.{Fields}
use async_task.Templates.Resolved.{Resolved}
use async_task.Templates.Registry.{
  TemplateVersion, Versions, TemplateRegistry, ApplyMode, ValidationReport, new_version,
  add_version, resolved_of, without, place, install, set_versions, find_version, get_template,
  register,
}

-- Every version from here on is above `n`.
abbrev pub Above : ℕ → Versions → Type 0
Above n vs = All (λ v. n < v.version) vs

abbrev pub Ascending : Versions → Type 0
Ascending [] = Unit
Ascending (v ∷ vs) = Above v.version vs × Ascending vs

without-Above : (m n : ℕ) (vs : Versions) → Above m vs → Above m (without n vs)
unfolding without
without-Above m n [] h = h
without-Above m n (v ∷ vs) h = ground (arith, without-Above m n vs)

without-Ascending : (n : ℕ) (vs : Versions) → Ascending vs → Ascending (without n vs)
unfolding without
without-Ascending n [] h = h
without-Ascending n (v ∷ vs) h = elim (Bool-cases (v.version == n)) [
  | inl e ↦ rw e (without-Ascending n vs h.1)
  | inr e ↦ rw e (without-Above v.version n vs h.0, without-Ascending n vs h.1)
]

find-without : (n : ℕ) (vs : Versions) → find_version n (without n vs) ≡ none
unfolding find_version without
find-without n [] = refl
find-without n (v ∷ vs) = elim (Bool-cases (v.version == n)) [
  | inl e ↦ rw e (find-without n vs)
  | inr e ↦ rw e (rw e (find-without n vs))
]

find-without_other :
    (m n : ℕ) (vs : Versions) → (m == n) ≡ false → find_version m (without n vs) ≡ find_version m vs
unfolding find_version without
find-without_other m n [] h = refl
find-without_other m n (v ∷ vs) h = ground (arith, find-without_other m n vs)

find-place :
    (m : ℕ) (tv : TemplateVersion) (vs : Versions)
    → find_version tv.version vs ≡ none
    → find_version m (place tv vs) ≡ (if tv.version == m then some tv else find_version m vs)
unfolding find_version place
find-place m tv [] h = refl
find-place m tv (v ∷ vs) h = ground (arith, find-place m tv vs)

place-Above :
    (m : ℕ) (tv : TemplateVersion) (vs : Versions)
    → m < tv.version
    → Above m vs
    → Above m (place tv vs)
unfolding place
place-Above m tv [] h k = (h, tt)
place-Above m tv (v ∷ vs) h k = elim (Bool-cases (leb v.version tv.version)) [
  | inl e ↦ rw e (k.0, place-Above m tv vs h k.1)
  | inr e ↦ rw e (h, k)
]

Above-le : (m n : ℕ) (vs : Versions) → m ≤ n → Above n vs → Above m vs
Above-le m n [] h k = k
Above-le m n (v ∷ vs) h k = (omega (arith, k.0), Above-le m n vs h k.1)

place-Ascending :
    (tv : TemplateVersion) (vs : Versions)
    → find_version tv.version vs ≡ none
    → Ascending vs
    → Ascending (place tv vs)
unfolding place find_version
place-Ascending tv [] h k = (tt, tt)
place-Ascending tv (v ∷ vs) h k = elim (Bool-cases (v.version == tv.version)) [
  | inl same ↦ absurd (cc (rw same at h))
  | inr other ↦ elim (Bool-cases (leb v.version tv.version)) [
    | inl e ↦
        rw e (
          place-Above v.version tv vs (ground arith) k.0,
          place-Ascending tv vs (rw other at h) k.1,
        )
    | inr e ↦ rw e ((ground arith, Above-le tv.version v.version vs (ground arith) k.0), k)
  ]
]

install-Ascending :
    (tv : TemplateVersion) (vs : Versions) → Ascending vs → Ascending (install tv vs)
unfolding install
install-Ascending tv vs h =
    place-Ascending tv (without tv.version vs) (find-without tv.version vs)
      (without-Ascending tv.version vs h)

find-install :
    (m : ℕ) (tv : TemplateVersion) (vs : Versions)
    → find_version m (install tv vs) ≡ (if tv.version == m then some tv else find_version m vs)
unfolding install
find-install m tv vs = elim (Bool-cases (tv.version == m)) [
  | inl e ↦ rw (find-place m tv (without tv.version vs) (find-without tv.version vs), e)
  | inr e ↦
      rw (find-place m tv (without tv.version vs) (find-without tv.version vs), e)
        (find-without_other m tv.version vs (ground arith))
]

module _ (validate : Fields → ValidationReport) (resolve : Fields → Option Resolved)
    (classify : Resolved → Resolved → ApplyMode) where
  added :
      (raw : Fields) (version : Option ℕ) (enabled : Bool) (r : TemplateRegistry)
      (o : Option Resolved) {tv : TemplateVersion} {r' : TemplateRegistry}
      → add_version validate resolve classify raw version enabled r o ≡ some (some tv, r')
      → r' ≡ set_versions tv.alias (install tv (r tv.alias)) r
  unfolding add_version
  added raw version enabled r none h = cc
  added raw version enabled r (some x) {tv} {r'} h =
      let pair = some-injective _ _ h in
      let same : some (new_version validate resolve classify raw version enabled x (r x.alias))
          ≡ some tv =
        ap (λ p. p.0) pair in
      subst (λ t. r' ≡ set_versions t.alias (install t (r t.alias)) r) (some-injective _ _ same)
        (sym (ap (λ p. p.1) pair))

  -- What a registration that makes a version does.
  registered :
      (raw : Fields) (version : Option ℕ) (enabled first : Bool) (r : TemplateRegistry)
      {tv : TemplateVersion} {r' : TemplateRegistry}
      → register validate resolve classify raw version enabled first r ≡ some (some tv, r')
      → r' ≡ set_versions tv.alias (install tv (r tv.alias)) r
  unfolding register
  registered raw version enabled first r h = elim (Bool-cases (first && not (validate raw).ok)) [
    | inl e ↦ absurd (cc (rw e at h))
    | inr e ↦ added raw version enabled r (resolved_of validate resolve classify raw) (rw e at h)
  ]

  -- A version that was registered is what the registry gives for its alias and number, and it
  -- gives for every other alias or number what it gave before; and where the versions of each
  -- alias stood in the order of their numbers, none twice, they still do.
  pub registry_returns :
      (raw : Fields) (version : Option ℕ) (enabled first : Bool) (r : TemplateRegistry)
      {tv : TemplateVersion} {r' : TemplateRegistry}
      → register validate resolve classify raw version enabled first r ≡ some (some tv, r')
      → ((a : String) → Ascending (r a))
      → ((a : String) (n : ℕ)
          → get_template a (some n) r'
            ≡ (if str_eq a tv.alias && tv.version == n then some tv else get_template a (some n) r))
        × ((a : String) → Ascending (r' a))
  unfolding get_template
  registry_returns raw version enabled first r {tv} {r'} h asc =
      let same = registered raw version enabled first r h in
      (
        subst
            (λ q.
              (a : String) (n : ℕ)
              → find_version n (q a)
                ≡ (if str_eq a tv.alias && tv.version == n then some tv else find_version n (r a)))
            (sym same) finds,
        subst (λ q. (a : String) → Ascending (q a)) (sym same) sorted,
      )
    where
      finds :
          (a : String) (n : ℕ)
          → find_version n (set_versions tv.alias (install tv (r tv.alias)) r a)
            ≡ (if str_eq a tv.alias && tv.version == n then some tv else find_version n (r a))
      finds a n = elim (Bool-cases (str_eq a tv.alias)) [
        | inl e ↦ rw (e, find-install n tv (r tv.alias), (eq_iff a tv.alias).0 e)
        | inr e ↦ rw e
      ]

      sorted : (a : String) → Ascending (set_versions tv.alias (install tv (r tv.alias)) r a)
      sorted a = elim (Bool-cases (str_eq a tv.alias)) [
        | inl e ↦ rw e (install-Ascending tv (r tv.alias) (asc tv.alias))
        | inr e ↦ rw e (asc a)
      ]
