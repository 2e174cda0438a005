-- ===== src/Gateway/Routing.antt =====
-- src/async_gateway/gateway/routing.py: which of a template's routes a path is. The regular
-- expression of a path is matched with backtracking; the paths have no line breaks.
pub mod Laws
use Prim.Native.Char.{Char, code}
use Prim.Native.String
use async_task.Prelude.{
  ℕ, Bool, true, false, not, ◌&&◌, ◌||◌, String, str_eq, Option, none, some, List, [], ◌∷◌, ◌==◌,
  if◌then◌else◌,
}
use async_task.Prelude.Text.{is_empty, strip, eq_lower}
use async_task.Templates.Render.{Token, lit, hole, tokens}
use async_task.Templates.Resolved.{Resolved}

-- What the caller gets; `no_group` is the exception of a pattern without a group.
pub data RouteMatch : Type 0 where
  no_match : RouteMatch
  create : RouteMatch
  query : String → RouteMatch
  cancel : String → RouteMatch
  no_group : RouteMatch

-- `path.split("?", 1)[0]`
unfoldable pub before_query : String → String
before_query String.[] = String.[]
before_query (String.◌∷◌ c s) = if code c == 63 then String.[] else String.◌∷◌ c (before_query s)

abbrev pub rooted : String → String
rooted String.[] = "/"
rooted (String.◌∷◌ c s) = if code c == 47 then String.◌∷◌ c s else String.◌∷◌ "/" (String.◌∷◌ c s)

-- `path.rstrip("/")`
unfoldable pub rstrip_slash : String → String
rstrip_slash String.[] = String.[]
rstrip_slash (String.◌∷◌ c s) =
    let rest = rstrip_slash s in
    if code c == 47 && is_empty rest then String.[] else String.◌∷◌ c rest

abbrev pub or_root : String → String
or_root s = if is_empty s then "/" else s

-- `_normalize`
unfoldable pub normalize : String → String
unfolding before_query strip rstrip_slash
normalize path = or_root (rstrip_slash (rooted (strip (before_query path))))

-- `([^/]+)`, the longest first, before what `rest` matches: what it takes and what the groups
-- behind it take.
unfoldable pub grab : (String → Option (List String)) → String → Option (String × List String)
grab rest String.[] = none
grab rest (String.◌∷◌ c s) =
    let longer = grab rest s in
    if code c == 47 then none else elim longer [
      | some (x, groups) ↦ some (String.◌∷◌ c x, groups)
      | none ↦ elim (rest s) [ none ↦ none | some groups ↦ some (String.◌∷◌ c String.[], groups) ]
    ]

-- `/?$`
abbrev pub at_end : String → Option (List String)
at_end s = if is_empty s || str_eq s "/" then some [] else none

-- The groups of a match of the whole text.
unfoldable pub match_tokens : List Token → String → Option (List String)
unfolding grab
match_tokens [] s = at_end s
match_tokens (lit c ∷ ts) String.[] = none
match_tokens (lit c ∷ ts) (String.◌∷◌ d s) = if code c == code d then match_tokens ts s else none
match_tokens (hole ∷ ts) s = elim (grab (match_tokens ts) s) [
  | none ↦ none
  | some (x, groups) ↦ some (x ∷ groups)
]

-- `_pattern(template_path).match(path)`
unfoldable pub match_pattern : String → String → Option (List String)
match_pattern template path = match_tokens (tokens (normalize template)) path

abbrev pub first_group : (String → RouteMatch) → List String → RouteMatch
first_group kind [] = no_group
first_group kind (x ∷ groups) = kind x

-- The attempts one after the other.
abbrev pub or_try : Option (List String) → (String → RouteMatch) → RouteMatch → RouteMatch
or_try none kind other = other
or_try (some groups) kind other = first_group kind groups

unfoldable pub match_query : Resolved → String → String → RouteMatch
match_query t path method =
    if eq_lower method t.get_method
    then or_try (match_pattern t.get_path_template path) query no_match
    else no_match

unfoldable pub match_cancel : Resolved → String → String → RouteMatch
match_cancel t path method =
    if eq_lower method t.cancel_method
    then or_try (match_pattern t.cancel_path_template path) cancel (match_query t path method)
    else match_query t path method

unfoldable pub match_route : Resolved → String → String → RouteMatch
match_route t raw_path method =
    if eq_lower method t.create_method && str_eq (normalize raw_path) (normalize t.create_path)
    then create
    else match_cancel t (normalize raw_path) method
