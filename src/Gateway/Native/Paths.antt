-- ===== src/Gateway/Native/Paths.antt =====
-- Paths that part from each other: a write by one is not seen by the other.
use async_task.Prelude.{◌∙◌, false, String, str_eq, some, [], ◌∷◌, ◌≡◌, refl, ap, subst}
use async_task.Db.Json.{Json, obj, Fields, lookup, insert}
use async_task.Templates.Expression.{key, JsonPath, descend}
use async_task.Templates.Expression.Laws.{Leads, down}
use async_task.Gateway.Output.{set_path_on_doc, child_of}
use async_task.Gateway.Output.Laws.{lookup-insert, lookup-insert_self}

-- Two paths part: behind equal keys they go on by different ones.
pub data Apart : JsonPath → JsonPath → Type 0 where
  here : {j k : String} {p q : JsonPath} → str_eq k j ≡ false → Apart (key j ∷ p) (key k ∷ q)
  there : {k : String} {p q : JsonPath} → Apart p q → Apart (key k ∷ p) (key k ∷ q)

lookup-set_other :
    (j k : String) (q : JsonPath) (w : Json) (d : Fields)
    → str_eq k j ≡ false
    → lookup j (set_path_on_doc (key k ∷ q) w d) ≡ lookup j d
unfolding set_path_on_doc
lookup-set_other j k [] w d h = rw (lookup-insert k j w d, h)
lookup-set_other j k (s ∷ q) w d h =
    rw (lookup-insert k j (obj (set_path_on_doc (s ∷ q) w (child_of (lookup k d)))) d, h)

set_below :
    {p q : JsonPath}
    → Apart p q
    → (k : String) (w : Json) (d : Fields)
    → set_path_on_doc (key k ∷ q) w d
      ≡ insert k (obj (set_path_on_doc q w (child_of (lookup k d)))) d
unfolding set_path_on_doc
set_below (here h) k w d = refl
set_below (there a) k w d = refl

key_object :
    (k : String) (c : Json) {x : Json} → descend (key k) c ≡ some x → (e : Fields) × (c ≡ obj e)
unfolding descend
key_object k (obj e) h = (e, refl)
key_object k _ h = absurd (cc h)

Leads-object : {p q : JsonPath} {c j : Json} → Apart p q → Leads p c j → (e : Fields) × (c ≡ obj e)
Leads-object (here {j = i} h) (down {j} e rest) = key_object _ j e
Leads-object (there a) (down {j} e rest) = key_object _ j e

-- A path that parts from another leads where it led after a write by the other.
pub Leads-Apart :
    {p q : JsonPath} {j : Json} (w : Json) (d : Fields)
    → Apart p q
    → Leads p (obj d) j
    → Leads p (obj (set_path_on_doc q w d)) j
unfolding descend
Leads-Apart w d (here {j} {k} {p} {q} h) (down e rest) =
    down (lookup-set_other j k q w d h ∙ e) rest
Leads-Apart {j} w d (there {k} {p} {q} a) (down e rest) =
    let (f, same) = Leads-object a rest in
    let found : lookup k d ≡ some (obj f) = e ∙ ap some same in
    let below = Leads-Apart w f a (subst (λ c. Leads p c j) same rest) in
    rw (set_below a k w d, found)
      (down (lookup-insert_self k (obj (set_path_on_doc q w f)) d) below)
