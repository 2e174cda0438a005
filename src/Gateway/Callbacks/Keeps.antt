-- ===== src/Gateway/Callbacks/Keeps.antt =====
-- What the application of a callback does to the table.
use async_task.Prelude.{ℕ, String, Option, none, some, get_or, ◌≡◌, refl, ap, false, not, any}
use async_task.Domain.Status.{TaskStatus, accepted, succeeded, timeout}
use async_task.Domain.Transitions.{is_business_terminal}
use async_task.Db.Json.{Json}
use async_task.Db.Task.{Task}
use async_task.Db.Dao.Cas.{get}
use async_task.Db.Dao.Rows.{RowStep, TableStep-refl, get-TableStep, sets_result}
use async_task.Templates.Schema.{ResolvedTemplate, StatusSource, poll, callback, maps_status}
use async_task.Tasks.World.{Env, World, callback_event}
use async_task.Tasks.World.Keeps.{
  Keeps-audit, Keeps-bind, Keeps-elim, Keeps-if, Keeps-pure, Keeps-gets, Keeps, Respects,
}
use async_task.Tasks.Store.Keeps.{finalize-Keeps}
use async_task.Tasks.Dispatch.Rows.{ArePlain, Follows-Respects}
use async_task.Gateway.Callbacks.Apply.{
  apply_callback, apply_mapped, advance_by_callback, note_for_poll, callback_values, snapshot_of,
}

values_plain :
    (m : TaskStatus) (raw : Option String) (snapshot : Json) (at : ℕ)
    → any sets_result (callback_values m raw snapshot at) ≡ false
values_plain succeeded raw snapshot at = refl
values_plain timeout raw snapshot at = refl
values_plain accepted raw snapshot at = refl
values_plain _ raw snapshot at = refl

module _ {P : Type 0} {env : Env P} {K : World P → Type 0} (k : Respects env K) where
  advance-Keeps :
      (task : Task) (m : TaskStatus) (raw : Option String) (snapshot : Json)
      → Keeps K (advance_by_callback env task m raw snapshot)
  unfolding advance_by_callback
  advance-Keeps task m raw snapshot = Keeps-bind (Keeps-gets _) (λ at.
      Keeps-bind (k.applies _ (ap not (values_plain m raw snapshot at))) (λ moved.
        Keeps-if moved
          (Keeps-bind (Keeps-audit k callback_event task.task_id)
            (λ u. finalize-Keeps k task.task_id))
          (Keeps-pure tt)))

  note-Keeps :
      (task : Task) (m : TaskStatus) (raw : Option String) → Keeps K (note_for_poll env task m raw)
  unfolding note_for_poll
  note-Keeps task m raw = Keeps-bind (k.applies _ refl) (λ u.
      Keeps-bind (Keeps-gets _)
        (λ at. Keeps-bind (k.applies _ refl) (λ v. Keeps-audit k callback_event task.task_id)))

  mapped-Keeps :
      (task : Task) (t : ResolvedTemplate) (raw : Option String) (snapshot : Json)
      (m : Option TaskStatus)
      → Keeps K (apply_mapped env task t raw snapshot m)
  unfolding apply_mapped
  mapped-Keeps task t raw snapshot none = Keeps-bind (k.applies _ refl) (λ u. Keeps-pure tt)
  mapped-Keeps task t raw snapshot (some m) = source t.status_source
    where
      source :
          (s : StatusSource)
          → Keeps K (elim s [
            | poll ↦ note_for_poll env task m raw
            | callback ↦ advance_by_callback env task m raw snapshot
          ])
      source poll = note-Keeps task m raw
      source callback = advance-Keeps task m raw snapshot

  pub callback-Keeps :
      (id : String) (payload : Json) (raw : Option String)
      → Keeps K (apply_callback env id payload raw)
  unfolding apply_callback
  callback-Keeps id payload raw = Keeps-bind (k.loads id) (λ found.
      Keeps-elim found (Keeps-audit k callback_event id) (λ task.
        Keeps-if (is_business_terminal task.status) (Keeps-audit k callback_event id) (
          Keeps-elim (env.template task.template_alias task.template_version) (Keeps-pure tt)
            (λ t. mapped-Keeps task t raw (snapshot_of payload) (maps_status t (get_or raw ""))))))

-- Whatever callback is applied, with any calls of others in between that do not pass result_ref to
-- advance: a row stays in the table under its key, its status moves along the whitelist, and the
-- request that it was made for stays.
callback_follows_whitelist :
    {P : Type 0} (env : Env P) (id key : String) (payload : Json) (raw : Option String)
    (w : World P) {r : Task}
    → ArePlain w.others
    → get key w.table ≡ some r
    → (s : Task) × (get key (apply_callback env id payload raw w).1.table ≡ some s) × RowStep r s
callback_follows_whitelist env id key payload raw w p e =
    let k =
      (callback-Keeps (Follows-Respects env w.table) id payload raw).at w
        (TableStep-refl w.table, p) in
    get-TableStep key w.table (apply_callback env id payload raw w).1.table k.0 e
