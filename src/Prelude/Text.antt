-- ===== src/Prelude/Text.antt =====
-- Python's operations on texts that the program uses: `strip`, `in`, `startswith`, `lower`. White
-- space and letters are those of ASCII.
use Prim.Native.Char.{Char, code}
use Prim.Native.String.{String}
use Prim.Native.Nat.{ℕ, zero, suc, ◌+◌}
use Prim.Native.String.{compare}
use text.Mathlib.Text.{is_le}
use mathlib.Core.List.{List, [], ◌∷◌}
use mathlib.Core.Bool.{Bool, true, false, ◌&&◌, ◌||◌}
use mathlib.Core.Option.{Option, none, some}
use async_task.Prelude.Lists.{leb, ◌==◌, if◌then◌else◌}

-- `len(s)`
abbrev pub size : String → ℕ
size String.[] = 0
size (String.◌∷◌ c s) = suc (size s)

-- `not s`
abbrev pub is_empty : String → Bool
is_empty String.[] = true
is_empty (String.◌∷◌ c s) = false

-- `value or default` on an optional text
abbrev pub or_text : Option String → String → String
or_text none d = d
or_text (some s) d = if is_empty s then d else s

-- `s + t`
abbrev pub append : String → String → String
append String.[] t = t
append (String.◌∷◌ c s) t = String.◌∷◌ c (append s t)

abbrev pub is_space : Char → Bool
is_space c =
    code c == 32 || (leb 9 (code c) && leb (code c) 13) || (leb 28 (code c) && leb (code c) 31)

unfoldable pub lstrip : String → String
lstrip String.[] = String.[]
lstrip (String.◌∷◌ c s) = if is_space c then lstrip s else String.◌∷◌ c s

-- A character stays if it is no space or something stays behind it.
abbrev pub keep_char : Char → String → String
keep_char c t = if is_space c && is_empty t then String.[] else String.◌∷◌ c t

unfoldable pub rstrip : String → String
rstrip String.[] = String.[]
rstrip (String.◌∷◌ c s) = keep_char c (rstrip s)

unfoldable pub strip : String → String
unfolding lstrip rstrip
strip s = rstrip (lstrip s)

-- `text[:n]`
unfoldable pub truncate : ℕ → String → String
truncate zero s = String.[]
truncate (suc n) String.[] = String.[]
truncate (suc n) (String.◌∷◌ c s) = String.◌∷◌ c (truncate n s)

-- `s.startswith(t)`
unfoldable pub begins_with : String → String → Bool
begins_with s String.[] = true
begins_with String.[] (String.◌∷◌ d t) = false
begins_with (String.◌∷◌ c s) (String.◌∷◌ d t) = code c == code d && begins_with s t

-- `t in s`
unfoldable pub has_text : String → String → Bool
unfolding begins_with
has_text t String.[] = begins_with String.[] t
has_text t (String.◌∷◌ c s) = begins_with (String.◌∷◌ c s) t || has_text t s

-- The number of a letter in lower case.
abbrev pub lower : Char → ℕ
lower c = if leb 65 (code c) && leb (code c) 90 then code c + 32 else code c

-- `s.lower() == t.lower()`
unfoldable pub eq_lower : String → String → Bool
eq_lower String.[] String.[] = true
eq_lower String.[] (String.◌∷◌ d t) = false
eq_lower (String.◌∷◌ c s) String.[] = false
eq_lower (String.◌∷◌ c s) (String.◌∷◌ d t) = lower c == lower d && eq_lower s t

-- `sorted(names)`
unfoldable pub place_name : String → List String → List String
place_name x [] = x ∷ []
place_name x (y ∷ ys) =
    let later = place_name x ys in if is_le (compare x y) then x ∷ y ∷ ys else y ∷ later

unfoldable pub sort_names : List String → List String
unfolding place_name
sort_names [] = []
sort_names (x ∷ xs) = place_name x (sort_names xs)
