-- ===== src/Templates/Expression.antt =====
-- src/async_gateway/templates/expression.py: evaluating a compiled path on a document. The size of
-- the serialised result is the JSON library's and is a parameter, and so is the clock: `late i`
-- says whether the deadline has passed when `i` steps are left. An index counts from the front or,
-- as a negative number of Python, from the back.
pub mod Laws
pub mod Compile
use async_task.Prelude.{
  ℕ, zero, suc, ◌+◌, ◌-◌, Bool, true, false, ◌||◌, String, Option, none, some, List, [], ◌∷◌, leb,
  ltb, length, if◌then◌else◌,
}
use async_task.Db.Json.{Json, arr, obj, Items, nil, cons, Fields, lookup}

pub data Step : Type 0 where
  key : String → Step
  -- `[n]`
  index : ℕ → Step
  -- `[-n]`
  index_back : ℕ → Step

abbrev pub JsonPath : Type 0
JsonPath = List Step

abbrev pub max_result_bytes : ℕ
max_result_bytes = 65536

pub data Extracted : Type 0 where
  found : Json → Extracted
  path_not_found : Extracted
  budget_exceeded : Extracted

unfoldable pub item_count : Items → ℕ
item_count nil = 0
item_count (cons x xs) = suc (item_count xs)

unfoldable pub nth : ℕ → Items → Option Json
nth n nil = none
nth zero (cons x xs) = some x
nth (suc n) (cons x xs) = nth n xs

-- One round of the loop; `none` is `PathNotFound`.
unfoldable pub descend : Step → Json → Option Json
unfolding lookup nth item_count
descend (key name) (obj fields) = lookup name fields
descend (key name) _ = none
descend (index n) (arr items) = nth n items
descend (index n) _ = none
descend (index_back n) (arr items) =
    if leb n (item_count items) then nth (item_count items - n) items else none
descend (index_back n) _ = none

module _ (dump_size : Json → ℕ) (late : ℕ → Bool) where
  unfoldable pub extract : JsonPath → Json → Extracted
  unfolding descend
  extract [] node = if ltb max_result_bytes (dump_size node) then budget_exceeded else found node
  extract (s ∷ path) node = elim (late (length (s ∷ path))) [
    | true ↦ budget_exceeded
    | false ↦ elim (descend s node) [ none ↦ path_not_found | some next ↦ extract path next ]
  ]

  -- `try_extract`: `none` where the source returns `(False, None)`.
  unfoldable pub try_extract : JsonPath → Json → Option Json
  unfolding extract
  try_extract path node = elim (extract path node) [ found v ↦ some v | _ ↦ none ]
