-- ===== src/Templates/Changes.antt =====
-- src/async_gateway/templates/registry.py, `classify_change`: what differs between two forms of a
-- template, and how the change may come into effect. A template is given as the dictionary that
-- `model_dump` makes of it, without its provenance.
pub mod Names
pub mod InPlace
pub mod Patch
use Prim.Native.String
use async_task.Prelude.{
  ℕ, Bool, true, false, not, ◌&&◌, ◌||◌, String, str_eq, Option, none, some, get_or, List, [], ◌∷◌,
  ◌++◌, any, ◌==◌, length, if◌then◌else◌,
}
use async_task.Prelude.Text.{append, begins_with, sort_names}
use async_task.Db.Json.{
  Json, null, bool, num, literal, str, arr, obj, Items, nil, cons, Fields, end, field, lookup,
  insert, names,
}
use async_task.Templates.Registry.{ApplyMode, in_place, versioned}

abbrev pub ephemeral_fields : List String
ephemeral_fields =
    "status_field" ∷ "terminal" ∷ "terminal.success" ∷ "terminal.failure" ∷ "terminal.expired"
    ∷ "terminal.internal_terminal_rewrite" ∷ "terminal.internal_terminal_error_code"
    ∷ "terminal.error_field" ∷ "id_location" ∷ "result_location" ∷ "notes" ∷ []

abbrev pub forced_review_fields : List String
forced_review_fields =
    "base_url" ∷ "create_path" ∷ "create_method" ∷ "get_method" ∷ "cancel_method"
    ∷ "get_path_template" ∷ "cancel_path_template" ∷ "callback_param" ∷ "extra_headers"
    ∷ "request_body_template" ∷ "id_location" ∷ "result_location" ∷ "status_field" ∷ "status_source"
    ∷ "pool" ∷ "terminal" ∷ "normalize" ∷ "namespace" ∷ []

abbrev pub forced_review_prefixes : List String
forced_review_prefixes = "capabilities" ∷ "result_policy" ∷ "strategy" ∷ []

abbrev pub same_bool : Bool → Bool → Bool
same_bool true b = b
same_bool false b = not b

-- `a == b` of two JSON values; the order of a dictionary's entries does not count. A Boolean is not
-- compared with a number, since a field of a template has one type; nor is `1.0` with `1`, which Python
-- takes to be equal.
unfoldable mutual
  pub json_eq : Json → Json → Bool
  json_eq null null = true
  json_eq (bool a) (bool b) = same_bool a b
  json_eq (num a) (num b) = a == b
  json_eq (literal a) (literal b) = str_eq a b
  json_eq (str a) (str b) = str_eq a b
  json_eq (arr a) (arr b) = items_eq a b
  json_eq (obj a) (obj b) = length (names a) == length (names b) && covered a b
  json_eq _ _ = false

  pub items_eq : Items → Items → Bool
  items_eq nil nil = true
  items_eq (cons a x) (cons b y) = json_eq a b && items_eq x y
  items_eq _ _ = false

  -- Each entry of the first has an equal one in the second.
  pub covered : Fields → Fields → Bool
  covered end d = true
  covered (field k v rest) d =
      elim (lookup k d) [ none ↦ false | some w ↦ json_eq v w ] && covered rest d

-- `out.update(d)`
unfoldable pub update : Fields → Fields → Fields
unfolding insert
update end out = out
update (field k v rest) out = update rest (insert k v out)

-- `_flatten`, onto what is there: the entries under dotted names, those of inner dictionaries too.
unfoldable pub flatten : Fields → String → Fields → Fields
unfolding update insert
flatten end prefix out = out
flatten (field k (obj d) rest) prefix out =
    let dotted = append prefix k in
    flatten rest prefix (update (flatten d (append dotted ".") end) (insert dotted (obj d) out))
flatten (field k v rest) prefix out = flatten rest prefix (insert (append prefix k) v out)

-- A name that is missing reads as None.
abbrev pub opt_same : Option Json → Option Json → Bool
opt_same a b = json_eq (get_or a null) (get_or b null)

-- `a.get(k) != b.get(k)`
abbrev pub differs_at : Fields → Fields → String → Bool
differs_at a b k = not (opt_same (lookup k a) (lookup k b))

-- `[x for x in xs if test(x)]`
abbrev pub keep_if : (String → Bool) → List String → List String
keep_if p [] = []
keep_if p (x ∷ xs) = let rest = keep_if p xs in if p x then x ∷ rest else rest

abbrev pub is_in : List String → String → Bool
is_in xs x = any (str_eq x) xs

-- `set(a) | set(b)`
abbrev pub union : List String → List String → List String
union xs ys = xs ++ keep_if (λ y. not (is_in xs y)) ys

-- `any(other.startswith(k + ".") for other in changed)`
abbrev pub has_inner : List String → String → Bool
has_inner changed k = any (λ other. begins_with other (append k ".")) changed

abbrev pub all_ephemeral : List String → Bool
all_ephemeral [] = true
all_ephemeral (f ∷ fs) = is_in ephemeral_fields f && all_ephemeral fs

pub record ChangePlan : Type 0 where
  pub changed_fields : List String
  pub apply_mode : ApplyMode
  pub requires_dual_review : Bool
  pub forced_fields : List String
  pub is_noop : Bool

abbrev pub is_forced : String → Bool
is_forced f = is_in forced_review_fields f || any (λ p. begins_with f p) forced_review_prefixes

abbrev pub is_nil : List String → Bool
is_nil [] = true
is_nil (x ∷ xs) = false

-- The plan for the fields that changed, without the containers of others.
unfoldable pub plan_for : List String → ChangePlan
plan_for [] = record {
  changed_fields = [];
  apply_mode = in_place;
  requires_dual_review = false;
  forced_fields = [];
  is_noop = true;
}
plan_for (f ∷ fs) = record {
  changed_fields = f ∷ fs;
  apply_mode = if all_ephemeral (f ∷ fs) then in_place else versioned;
  requires_dual_review = not (is_nil (keep_if is_forced (f ∷ fs)));
  forced_fields = keep_if is_forced (f ∷ fs);
  is_noop = false;
}

-- The names that differ, containers included.
unfoldable pub changed_names : Fields → Fields → List String
unfolding lookup json_eq sort_names
changed_names a b = sort_names (keep_if (differs_at a b) (union (names a) (names b)))

unfoldable pub classify_change : Fields → Fields → ChangePlan
unfolding flatten changed_names begins_with plan_for
classify_change old new =
    let changed = changed_names (flatten old "" end) (flatten new "" end) in
    plan_for (keep_if (λ k. not (has_inner changed k)) changed)
