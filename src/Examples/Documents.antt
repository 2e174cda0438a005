-- ===== src/Examples/Documents.antt =====
-- The theorems on paths and documents at concrete inputs.
use async_task.Prelude.{[], ◌∷◌, map}
use async_task.Db.Json.{Json, null, num, str, arr, obj, Items, nil, cons, end, field}
use async_task.Templates.Expression.{key, index_back, JsonPath}
use async_task.Templates.Expression.Laws.{Leads}
use async_task.Gateway.Output.{set_path_on_doc}
use async_task.Gateway.Output.Laws.{write_then_read}

abbrev items : Items
items = cons (num 4) (cons (num 5) nil)

abbrev document : Json
document = obj (field "output" (arr items) end)

abbrev path : JsonPath
path = key "output" ∷ index_back 1 ∷ []

write_then_read_example :
    Leads
      (key "result" ∷ map key ("url" ∷ []))
      (obj
        (set_path_on_doc (key "result" ∷ map key ("url" ∷ [])) (str "u") (field "result" null end)))
      (str "u")
write_then_read_example = write_then_read "result" ("url" ∷ []) (str "u") (field "result" null end)
