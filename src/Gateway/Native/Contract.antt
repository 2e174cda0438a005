-- ===== src/Gateway/Native/Contract.antt =====
-- What a caller reads at the status field of the answer to a query, behind all that is written to
-- the answer.
use async_task.Prelude.{
  ℕ, Bool, true, false, String, Option, none, some, List, [], ◌∷◌, map, is_some, is_some, ◌≡◌, ◌⊎◌,
}
use async_task.Prelude.Text.{is_empty}
use async_task.Db.Json.{Json, str, obj, Fields}
use async_task.Db.Task.{Task}
use async_task.Templates.Expression.{key, JsonPath}
use async_task.Templates.Expression.Laws.{Leads}
use async_task.Templates.Expression.Compile.{compile_expression, steps}
use async_task.Templates.Schema.{ResolvedTemplate}
use async_task.Gateway.Native.Paths.{Apart}

-- The path of the error field compiles and parts from the status field's, if there is one.
abbrev pub ErrorApart : JsonPath → Option String → Type 0
ErrorApart path none = Unit
ErrorApart path (some spec) =
    (is_empty spec ≡ true)
    ⊎ ((is_empty spec ≡ false)
        × ((q : JsonPath) × (compile_expression spec ≡ steps q) × Apart path q))

module _ (dump_size : Json → ℕ) (late : ℕ → Bool) where
  -- The answer to a read at the status field: what was written, or what was there.
  abbrev pub Reads : JsonPath → String × Bool → Fields → Fields → Type 0
  Reads path v d r =
      Leads path (obj r) (str v.0)
      ⊎ ((v.1 ≡ false) × ((j : Json) × Leads path (obj d) j × Leads path (obj r) j))

  -- What the template's paths must be for the status field to stay: apart from each other.
  pub record PathsApart (t : ResolvedTemplate) : Type 0 where
    pub first : String
    pub rest : List String
    pub status_keys : t.status_field ≡ key first ∷ map key rest
    pub from_result : Apart t.status_field t.result_location
    pub from_hint : Apart t.status_field (key "_result_hint" ∷ [])
    pub from_error : ErrorApart t.status_field t.terminal.error_field
