-- ===== src/Templates/Registry.antt =====
-- src/async_gateway/templates/registry.py: the registry of template versions. `validate` and
-- `resolve` of a raw template are parameters (they parse it with pydantic): whether the report is
-- ok and what it resolved to, and what the draft resolves to. `classify` is `classify_change` as
-- to the apply mode. Weights are in thousandths; an exception is `none`.
pub mod Versions
pub mod Latest
use async_task.Prelude.{
  ℕ, zero, suc, Bool, true, false, not, ◌&&◌, ◌||◌, String, str_eq, Option, none, some, List, [],
  ◌∷◌, leb, ltb, ◌==◌, max, min, get_or, if◌then◌else◌,
}
use async_task.Db.Json.{Fields}
use async_task.Templates.Resolved.{Resolved}

pub record TemplateVersion : Type 0 where
  pub alias : String
  pub namespace : String
  pub version : ℕ
  pub enabled : Bool
  pub resolved : Resolved
  pub raw : Fields
  pub canary_weight : ℕ

abbrev pub Versions : Type 0
Versions = List TemplateVersion

-- `_versions`; an alias that is not there has no versions.
abbrev pub TemplateRegistry : Type 0
TemplateRegistry = String → Versions

pub data ApplyMode : Type 0 where
  in_place versioned : ApplyMode

abbrev pub highest : Versions → ℕ
highest [] = 0
highest (v ∷ vs) = max v.version (highest vs)

-- `version or (max(…) + 1)`
abbrev pub next_version : Option ℕ → Versions → ℕ
next_version none vs = suc (highest vs)
next_version (some zero) vs = suc (highest vs)
next_version (some (suc n)) vs = suc n

-- The versions but the one of this number.
unfoldable pub without : ℕ → Versions → Versions
without n [] = []
without n (v ∷ vs) = let rest = without n vs in if v.version == n then rest else v ∷ rest

-- The place of the last element in the sorted list.
unfoldable pub place : TemplateVersion → Versions → Versions
place tv [] = tv ∷ []
place tv (v ∷ vs) =
    let rest = place tv vs in if leb v.version tv.version then v ∷ rest else tv ∷ v ∷ vs

-- `sort(key=version)` on a list whose front is sorted already: its last element moves to its place.
unfoldable pub install : TemplateVersion → Versions → Versions
unfolding without place
install tv vs = place tv (without tv.version vs)

abbrev pub set_versions : String → Versions → TemplateRegistry → TemplateRegistry
set_versions alias vs r a = if str_eq a alias then vs else r a

-- What `validate` reports.
pub record ValidationReport : Type 0 where
  pub ok : Bool
  pub resolved : Option Resolved

abbrev pub is_live : TemplateVersion → Bool
is_live tv = tv.enabled && ltb 0 tv.canary_weight

-- The last one that is live, and the last one of all.
unfoldable pub last_live : Versions → Option TemplateVersion
last_live [] = none
last_live (v ∷ vs) = elim (last_live vs) [
  | some tv ↦ some tv
  | none ↦ if is_live v then some v else none
]

unfoldable pub last_version : Versions → Option TemplateVersion
last_version [] = none
last_version (v ∷ vs) = elim (last_version vs) [ some tv ↦ some tv | none ↦ some v ]

unfoldable pub find_version : ℕ → Versions → Option TemplateVersion
find_version n [] = none
find_version n (v ∷ vs) = if v.version == n then some v else find_version n vs

unfoldable pub get_template : String → Option ℕ → TemplateRegistry → Option TemplateVersion
unfolding last_live last_version find_version
get_template alias none r = elim (last_live (r alias)) [
  | some tv ↦ some tv
  | none ↦ last_version (r alias)
]
get_template alias (some n) r = find_version n (r alias)

-- `require(…)` and the assignment of the weight, cut off at 0 and 1.
abbrev pub weigh : ℕ → ℕ → Versions → Versions
weigh n weight [] = []
weigh n weight (v ∷ vs) =
    let rest = weigh n weight vs in
    if v.version == n then record v { canary_weight = min 1000 weight } ∷ vs else v ∷ rest

unfoldable set_canary_weight : String → ℕ → ℕ → TemplateRegistry → Option TemplateRegistry
unfolding get_template
set_canary_weight alias n weight r = elim (get_template alias (some n) r) [
  | none ↦ none
  | some tv ↦ some (set_versions alias (weigh n weight (r alias)) r)
]

unfoldable is_namespace_owned : String → String → TemplateRegistry → Bool
unfolding get_template
is_namespace_owned alias namespace r = elim (get_template alias none r) [
  | none ↦ false
  | some tv ↦ str_eq tv.namespace namespace
]

abbrev pub amend : ℕ → Resolved → Fields → Versions → Versions
amend n resolved raw [] = []
amend n resolved raw (v ∷ vs) =
    let rest = amend n resolved raw vs in
    if v.version == n then record v { resolved = resolved; raw = raw } ∷ vs else v ∷ rest

module _ (validate : Fields → ValidationReport) (resolve : Fields → Option Resolved)
    (classify : Resolved → Resolved → ApplyMode) where
  abbrev pub new_version : Fields → Option ℕ → Bool → Resolved → Versions → TemplateVersion
  new_version raw version enabled resolved existing = record {
    alias = resolved.alias;
    namespace = resolved.namespace;
    version = next_version version existing;
    enabled = enabled;
    resolved = resolved;
    raw = raw;
    canary_weight = 1000;
  }

  abbrev pub resolved_of : Fields → Option Resolved
  resolved_of raw = elim (validate raw).resolved [ some x ↦ some x | none ↦ resolve raw ]

  unfoldable pub add_version :
      Fields
      → Option ℕ
      → Bool
      → TemplateRegistry
      → Option Resolved
      → Option (Option TemplateVersion × TemplateRegistry)
  unfolding install
  add_version raw version enabled r none = none
  add_version raw version enabled r (some resolved) =
      let tv = new_version raw version enabled resolved (r resolved.alias) in
      some (some tv, set_versions resolved.alias (install tv (r resolved.alias)) r)

  -- The registry afterwards and the new version; a refused template leaves it as it is.
  unfoldable pub register :
      Fields
      → Option ℕ
      → Bool
      → Bool
      → TemplateRegistry
      → Option (Option TemplateVersion × TemplateRegistry)
  unfolding add_version
  register raw version enabled validate_first r =
      if validate_first && not (validate raw).ok
      then some (none, r)
      else add_version raw version enabled r (resolved_of raw)

  -- `plan_change`, its apply mode: a new alias is a new version.
  unfoldable pub plan_mode : Resolved → TemplateRegistry → ApplyMode
  unfolding get_template
  plan_mode new r = elim (get_template new.alias none r) [
    | none ↦ versioned
    | some old ↦ classify old.resolved new
  ]

  abbrev pub is_in_place : ApplyMode → Bool
  is_in_place in_place = true
  is_in_place versioned = false

  abbrev pub amended :
      Fields
      → Option Resolved
      → TemplateRegistry
      → Option (Option TemplateVersion × TemplateRegistry)
  amended raw none r = none
  amended raw (some resolved) r = elim (get_template resolved.alias none r) [
    | none ↦ none
    | some tv ↦ some (
      some (record tv { resolved = resolved; raw = raw }),
      set_versions resolved.alias (amend tv.version resolved raw (r resolved.alias)) r,
    )
  ]

  -- Only what `plan_change` says may be done in place is done; else it raises.
  unfoldable pub patch_in_place :
      Fields → TemplateRegistry → Option (Option TemplateVersion × TemplateRegistry)
  unfolding plan_mode get_template
  patch_in_place raw r = elim (resolve raw) [
    | none ↦ none
    | some new ↦
        if not (validate raw).ok
        then some (none, r)
        else if is_in_place (plan_mode new r)
        then amended raw (validate raw).resolved r
        else none
  ]
