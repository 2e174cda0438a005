-- ===== src/Db/Json.antt =====
-- JSON documents, as the snapshots, the attributes and the upstream's answers hold them. A number
-- is a natural number (`num`) or is given by its text.
use async_task.Prelude.{ℕ, Bool, String, str_eq, Option, none, some, List, [], ◌∷◌, if◌then◌else◌}

mutual
  pub data Json : Type 0 where
    null : Json
    bool : Bool → Json
    num : ℕ → Json
    literal : String → Json
    str : String → Json
    arr : Items → Json
    obj : Fields → Json

  pub data Items : Type 0 where
    nil : Items
    cons : Json → Items → Items

  pub data Fields : Type 0 where
    end : Fields
    field : String → Json → Fields → Fields

-- `d.get(key)`
unfoldable pub lookup : String → Fields → Option Json
lookup key end = none
lookup key (field k v rest) = if str_eq k key then some v else lookup key rest

-- `d[key] = value`: in place if the key is there, else at the end.
unfoldable pub insert : String → Json → Fields → Fields
insert key value end = field key value end
insert key value (field k v rest) =
    if str_eq k key then field k value rest else field k v (insert key value rest)

-- `(d or {})`
abbrev pub or_empty : Option Fields → Fields
or_empty none = end
or_empty (some d) = d

-- `int((d or {}).get(key, default))` on an entry that this program wrote as a number.
unfoldable pub get_num : String → ℕ → Option Fields → ℕ
unfolding lookup
get_num key default d = elim (lookup key (or_empty d)) [ some (num n) ↦ n | _ ↦ default ]

-- The keys, in their order.
abbrev pub names : Fields → List String
names end = []
names (field k v rest) = k ∷ names rest
