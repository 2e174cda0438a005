-- ===== src/Gateway/Output.antt =====
-- src/async_gateway/gateway/output.py, `set_path_on_doc`: writing a value into a document in place.
-- The result is the document as it is afterwards: where the source raises `PathWriteSkipped`,
-- which its callers ignore, the objects that it has made on the way stay in the document.
pub mod Laws
use async_task.Prelude.{String, Option, none, some, List, [], ◌∷◌}
use async_task.Db.Json.{Json, obj, Fields, end, lookup, insert}
use async_task.Templates.Expression.{Step, key, JsonPath}

-- `node.get(key)` if that is a dict, else a new one.
abbrev pub child_of : Option Json → Fields
child_of (some (obj d)) = d
child_of _ = end

unfoldable pub set_path_on_doc : JsonPath → Json → Fields → Fields
unfolding lookup insert
set_path_on_doc [] value d = d
set_path_on_doc (key k ∷ []) value d = insert k value d
set_path_on_doc (key k ∷ s ∷ rest) value d =
    insert k (obj (set_path_on_doc (s ∷ rest) value (child_of (lookup k d)))) d
set_path_on_doc (_ ∷ rest) value d = d
