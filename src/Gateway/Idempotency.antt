-- ===== src/Gateway/Idempotency.antt =====
-- src/async_gateway/gateway/idempotency.py: where the idempotency key, its window and the digest of
-- a body come from. `dump` is `json.dumps` with sorted keys, `digest` the hex digest of SHA-256;
-- lower case is that of ASCII. Instants are in microseconds, windows in seconds.
pub mod Laws
use Prim.Native.Char.{Char, code}
use Prim.Native.String
use async_task.Prelude.{
  ℕ, zero, suc, ◌+◌, ◌-◌, ◌*◌, ◌/◌, Bool, true, false, not, ◌&&◌, String, str_eq, Option, none,
  some, List, [], ◌∷◌, ◌++◌, map, any, leb, ◌==◌, max, take, get_or, if◌then◌else◌,
}
use async_task.Prelude.Text.{is_empty, append, strip, sort_names}
use async_task.Db.Json.{Json, null, str, obj, Fields, end, field, lookup, insert, names}
use async_task.Templates.Resolved.{NormalizationRules}

-- `s.split(".")`
abbrev head_onto : Char → List String → List String
head_onto c [] = String.◌∷◌ c String.[] ∷ []
head_onto c (p ∷ ps) = String.◌∷◌ c p ∷ ps

unfoldable split_dots : String → List String
split_dots String.[] = String.[] ∷ []
split_dots (String.◌∷◌ c s) =
    let parts = split_dots s in if code c == 46 then String.[] ∷ parts else head_onto c parts

abbrev pub child : String → Json → Option Json
child part (obj d) = lookup part d
child part _ = none

unfoldable walk : List String → Json → Option Json
walk [] node = some node
walk (part ∷ parts) node = elim (child part node) [ none ↦ none | some next ↦ walk parts next ]

-- `_get_dotted`: a missing path is `None`.
unfoldable get_dotted : String → Fields → Json
unfolding split_dots walk
get_dotted dotted body = get_or (walk (split_dots dotted) (obj body)) null

abbrev nth_char : ℕ → String → Char → Char
nth_char n String.[] d = d
nth_char zero (String.◌∷◌ c s) d = c
nth_char (suc n) (String.◌∷◌ c s) d = nth_char n s d

abbrev pub lower_char : Char → Char
lower_char c =
    if leb 65 (code c) && leb (code c) 90
    then nth_char (code c - 65) "abcdefghijklmnopqrstuvwxyz" c
    else c

-- `s.lower()`
unfoldable pub lower_text : String → String
lower_text String.[] = String.[]
lower_text (String.◌∷◌ c s) = String.◌∷◌ (lower_char c) (lower_text s)

abbrev pub if_empty : List String → List String → List String
if_empty [] other = other
if_empty (x ∷ xs) other = x ∷ xs

-- The value of a field as it counts.
abbrev pub trimmed : Bool → Json → Json
trimmed true (str s) = str (strip s)
trimmed _ v = v

abbrev pub lowered : Bool → Json → Json
lowered true (str s) = str (lower_text s)
lowered _ v = v

unfoldable pub normal_value : NormalizationRules → String → Fields → Json
unfolding get_dotted strip lower_text
normal_value rules f body =
    lowered (any (str_eq f) (map lower_text rules.case_insensitive_fields))
      (trimmed rules.trim_strings (get_dotted f body))

unfoldable pub payload_of : NormalizationRules → List String → Fields → Fields → Fields
unfolding normal_value insert
payload_of rules [] body acc = acc
payload_of rules (f ∷ fs) body acc =
    payload_of rules fs body (insert f (normal_value rules f body) acc)

abbrev pub declared : NormalizationRules → Fields → List String
declared rules body = sort_names (if_empty rules.fields (sort_names (names body)))

-- The first 32 characters.
abbrev pub prefix : ℕ → String → String
prefix zero s = String.[]
prefix (suc n) String.[] = String.[]
prefix (suc n) (String.◌∷◌ c s) = String.◌∷◌ c (prefix n s)

pub record IdempotencyKey : Type 0 where
  pub key : String
  pub is_derived : Bool
  pub body_digest : String

abbrev no_fields : List String → Bool
no_fields [] = true
no_fields (x ∷ xs) = false

abbrev no_body : Fields → Bool
no_body end = true
no_body (field k v rest) = false

module _ (dump : Fields → String) (digest : String → String) where
  unfoldable pub canonical_body : Fields → NormalizationRules → String
  unfolding payload_of sort_names
  canonical_body body rules = dump (payload_of rules (declared rules body) body end)

  unfoldable pub body_digest_of : Fields → NormalizationRules → String
  unfolding canonical_body
  body_digest_of body rules = digest (canonical_body body rules)

  unfoldable pub derive_key : String → Fields → NormalizationRules → IdempotencyKey
  unfolding body_digest_of
  derive_key key_hash body rules = record {
    key = append "auto:" (
        append key_hash (
          if no_fields rules.fields && no_body body
          then "|empty"
          else append "|" (prefix 32 (body_digest_of body rules))));
    is_derived = true;
    body_digest = body_digest_of body rules;
  }

  -- `resolve_key`: a key that the caller gives comes first.
  abbrev pub given : Option String → Bool
  given none = false
  given (some k) = not (is_empty k)

  unfoldable resolve_key : Option String → String → Fields → NormalizationRules → IdempotencyKey
  unfolding derive_key strip
  resolve_key explicit key_hash body rules =
      if given explicit
      then record {
        key = strip (get_or explicit "");
        is_derived = false;
        body_digest = body_digest_of body rules;
      }
      else derive_key key_hash body rules

-- `floor(now / max(1, window))`
unfoldable pub window_bucket : ℕ → ℕ → ℕ
window_bucket now window_seconds = now / (max 1 window_seconds * 1_000_000)
