-- ===== src/Tasks/Poll/Snapshot.antt =====
-- src/async_gateway/tasks/handlers.py, `_snapshot_with_status` and `_restore_raw_result_field`:
-- the snapshot that is kept of a poll's answer.
use async_task.Prelude.{ℕ, Bool, String, Option, none, some}
use async_task.Db.Json.{Json, null, str, obj}
use async_task.Templates.Expression.{try_extract, JsonPath}
use async_task.Templates.Schema.{ResolvedTemplate}
use async_task.Gateway.Output.{set_path_on_doc}
use async_task.Upstream.{UpstreamCallResult}

unfoldable pub snapshot_with_status : Option Json → ResolvedTemplate → String → Option Json
snapshot_with_status (some (obj d)) template native =
    some (obj (set_path_on_doc template.status_field (str native) d))
snapshot_with_status body template native = body

-- `value is None` after the extraction
abbrev pub present : Option Json → Option Json
present (some null) = none
present o = o

abbrev pub write_back : Option Json → JsonPath → Option Json → Option Json
write_back (some (obj d)) path (some value) = some (obj (set_path_on_doc path value d))
write_back snapshot path value = snapshot

module _ (dump_size : Json → ℕ) (late : ℕ → Bool) where
  abbrev pub raw_value : Option Json → JsonPath → Option Json
  raw_value (some (obj d)) path = present (try_extract dump_size late path (obj d))
  raw_value raw path = none

  unfoldable pub restore_raw_result_field :
      Option Json → ResolvedTemplate → UpstreamCallResult → Option Json
  restore_raw_result_field snapshot template result = elim result.response [
    | none ↦ snapshot
    | some up ↦
        write_back snapshot template.result_location
          (raw_value up.raw_json_body template.result_location)
  ]
