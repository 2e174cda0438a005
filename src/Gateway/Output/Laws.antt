-- ===== src/Gateway/Output/Laws.antt =====
-- A value written by a path of keys is what the path reads.
use async_task.Prelude.{
  String, str_eq, ◌≡◌, refl, some, List, [], ◌∷◌, map, eq_iff, eq_refl, arith, if◌then◌else◌,
}
use async_task.Db.Json.{Json, obj, Fields, end, field, lookup, insert}
use async_task.Templates.Expression.{key, descend}
use async_task.Templates.Expression.Laws.{Leads, down}
use async_task.Gateway.Output.{set_path_on_doc, child_of}

pub lookup-insert :
    (k j : String) (v : Json) (d : Fields)
    → lookup j (insert k v d) ≡ (if str_eq k j then some v else lookup j d)
unfolding lookup insert
lookup-insert k j v end = refl
lookup-insert k j v (field i w rest) =
    ground (arith, eq_iff k j, eq_iff i k, eq_iff i j, lookup-insert k j v rest)

pub lookup-insert_self : (k : String) (v : Json) (d : Fields) → lookup k (insert k v d) ≡ some v
lookup-insert_self k v d = simp (lookup-insert, eq_refl)

-- Writing a value by a path of keys into an object makes the path lead to that value, whatever
-- the object held before, scalars on the way included.
pub write_then_read :
    (k : String) (keys : List String) (value : Json) (d : Fields)
    → Leads (key k ∷ map key keys) (obj (set_path_on_doc (key k ∷ map key keys) value d)) value
unfolding set_path_on_doc descend
write_then_read k [] value d = down (lookup-insert_self k value d) Leads.end
write_then_read k (j ∷ keys) value d =
    down (lookup-insert_self k _ d) (write_then_read j keys value (child_of (lookup k d)))
