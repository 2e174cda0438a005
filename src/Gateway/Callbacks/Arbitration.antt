-- ===== src/Gateway/Callbacks/Arbitration.antt =====
-- Who ends a task: the callback, or the poll that it brings forward.
use async_task.Prelude.{
  ℕ, Bool, true, false, String, str_eq, Option, some, get_or, any, List, [], ◌∷◌, ◌≡◌, refl, sym,
  ap, subst, ◌∙◌, Bool-cases, inl, inr, if◌then◌else◌,
}
use mathlib.Core.Option.{some-injective}
use async_task.Outcome.{Result}
use async_task.Domain.Status.{
  TaskStatus, failed, mem_status, accepted, upstream_submitted, in_progress, submit_unknown,
  poll_unrecognized,
}
use async_task.Domain.Transitions.{is_business_terminal, can_transition}
use async_task.Db.Json.{Json, or_empty}
use async_task.Db.Task.{Task, Table}
use async_task.Db.Assign.{Assign, set_attributes, set_next_poll_at}
use async_task.Db.Dao.Cas.{advance, get, cas, matches, no_extra, write, active_statuses}
use async_task.Db.Dao.Rows.{assign_all-id}
use async_task.Db.Dao.Closing.{get-update, get-id, advance_hit, one_refused}
use async_task.Db.Dao.Writes.{merge, note_attribute, schedule_next_poll}
use async_task.Db.Dao.Calls.{Call, perform}
use async_task.Templates.Schema.{ResolvedTemplate, StatusSource, poll, callback, maps_status}
use async_task.Tasks.World.{Env, World, pure, callback_event, ◌>>=◌}
use async_task.Tasks.World.Actions.{load, interfere, apply, commit, audit, note}
use async_task.Tasks.World.Keeps.{continue-K}
use async_task.Tasks.Runtime.Exits.{Exits}
use async_task.Tasks.Store.{finalize_task}
use async_task.Gateway.Callbacks.Quiet.{ending-Quiet, apply-Quiet}
use async_task.Gateway.Callbacks.Apply.{
  apply_callback, apply_mapped, advance_by_callback, note_for_poll, mapped_text, callback_target,
  snapshot_of,
}

-- What the status maps to is the target of the move.
maps_status-target :
    (t : ResolvedTemplate) (s : String) {m : TaskStatus}
    → maps_status t s ≡ some m
    → callback_target m ≡ m
unfolding maps_status
maps_status-target t s {m} h = elim (Bool-cases (any (str_eq s) t.terminal.success)) [
  | inl e ↦ of (some-injective _ _ (rw e at h)) refl
  | inr e ↦ elim (Bool-cases (any (str_eq s) t.terminal.expired)) [
    | inl f ↦ of (some-injective _ _ (rw (e, f) at h)) refl
    | inr f ↦ elim (Bool-cases (any (str_eq s) t.terminal.failure)) [
      | inl g ↦ of (some-injective _ _ (rw (e, f, g) at h)) refl
      | inr g ↦ absurd (cc (rw (e, f, g) at h))
    ]
  ]
]
  where
    of : {x : TaskStatus} → x ≡ m → callback_target x ≡ x → callback_target m ≡ m
    of same k = subst (λ y. callback_target y ≡ y) same k

-- A task that has not ended is in one of the statuses that `_cas` is asked for.
live_active :
    (s : TaskStatus) → is_business_terminal s ≡ false → mem_status s active_statuses ≡ true
unfolding is_business_terminal
live_active accepted h = refl
live_active upstream_submitted h = refl
live_active in_progress h = refl
live_active submit_unknown h = refl
live_active poll_unrecognized h = refl
live_active failed h = refl
live_active _ h = cc h

hit_active :
    (now : ℕ) (id : String) (vs : List Assign) (t : Table) {r : Task}
    → get id t ≡ some r
    → mem_status r.status active_statuses ≡ true
    → get id (cas now id active_statuses vs no_extra t).1 ≡ some (write now vs r)
unfolding cas matches write
hit_active now id vs t e h =
    get-update id (matches id active_statuses no_extra) (write now vs) t (λ x. assign_all-id vs x) e
    ∙ rw (get-id id t e, h)

-- What a callback comes to that reports the status `m`: it ends the task in it, or the task stays in
-- its status and is polled now.
abbrev pub Arbitrated :
    {P : Type 0} → StatusSource → Task → TaskStatus → World P → Result (Unit {0}) × World P → Type 0
Arbitrated callback task m w s = Exits (can_transition task.status m) task m w.table s
Arbitrated poll task m w s =
    (x : Task) × (get task.task_id s.1.table ≡ some x)
    × (x.status ≡ task.status)
    × (x.next_poll_at ≡ some w.clock)

module _ {P : Type 0} (env : Env P) (task : Task) (template : ResolvedTemplate) (w : World P)
    {m : TaskStatus} (payload : Json) (raw : Option String) (alone : w.others ≡ [])
    (found : get task.task_id w.table ≡ some task) (live : is_business_terminal task.status ≡ false)
    (known : env.template task.template_alias task.template_version ≡ some template)
    (means : maps_status template (get_or raw "") ≡ some m) where
  reaches :
      apply_callback env task.task_id payload raw w
      ≡ apply_mapped env task template raw (snapshot_of payload) (some m) w
  unfolding apply_callback load interfere ◌>>=◌
  reaches = rw (alone, found, live, known, means)

  advance-Exits :
      (target : TaskStatus) (b : Bool) (vs : List Assign)
      → can_transition task.status target ≡ b
      → Exits b task target w.table (
          (apply (Call.advance task.task_id target (some (task.status ∷ [])) vs) >>= λ moved.
          if moved
          then audit callback_event task.task_id >>= (λ u. finalize_task env task.task_id)
          else pure tt)
            w)
  unfolding perform ◌>>=◌ apply interfere commit advance
  advance-Exits target true vs h =
      let c = Call.advance task.task_id target (some (task.status ∷ [])) vs in
      let q = apply-Quiet c w alone in
      subst (λ t. (x : Task) × (get task.task_id t ≡ some x) × (x.status ≡ target))
        (sym
          (continue-K (apply c w).0 _ (apply c w).1 (ending-Quiet env _ task.task_id) q).same_table)
        (advance_hit w.clock target vs task.task_id w.table found h)
  advance-Exits target false vs h =
      rw (alone, one_refused task.status target h, advance) (refl, refl)

  -- The template leaves the end to the callback.
  callback_ends :
      template.status_source ≡ callback
      → Arbitrated callback task m w (apply_callback env task.task_id payload raw w)
  unfolding advance_by_callback apply_mapped ◌>>=◌
  callback_ends source = subst (Exits (can_transition task.status m) task m w.table) (sym reaches) (
      rw (apply_mapped, source)
        (rw (callback_target, maps_status-target template (get_or raw "") means)
          (advance-Exits m _ _ refl)))

  -- The template leaves the end to the polls.
  callback_waits :
      template.status_source ≡ poll
      → Arbitrated poll task m w (apply_callback env task.task_id payload raw w)
  unfolding apply_mapped note_for_poll ◌>>=◌ apply interfere commit perform audit note
      schedule_next_poll note_attribute write
  callback_waits source =
      let pending =
        merge (("pending_terminal_from_callback", mapped_text env m raw) ∷ [])
          (or_empty task.attributes) in
      let noting = set_attributes (some pending) ∷ [] in
      let waking = set_next_poll_at (some w.clock) ∷ [] in
      let noted = write w.clock noting task in
      let first =
        hit_active w.clock task.task_id noting w.table found (live_active task.status live) in
      (
        write w.clock waking noted,
        ap (λ (r : Result (Unit {0}) × World P). get task.task_id r.1.table) reaches
            ∙ (rw (apply_mapped, source, alone, note_attribute, found)
                (hit_active w.clock task.task_id waking
                  (cas w.clock task.task_id active_statuses noting no_extra w.table).1 {r = noted}
                  first (live_active task.status live))),
        refl,
        refl,
      )

-- With no other writer at work, a callback on a task that has not ended, with a status that the
-- template takes for an end: where the template leaves the end to the callback, the task comes to
-- just the status that the template maps it to, or, where the whitelist has no such step, the
-- endpoint raises and the row stays as it was; where it leaves the end to the polls, the task stays
-- in its status, and its next poll is due now.
pub callback-Arbitrated :
    {P : Type 0} (env : Env P) (task : Task) (template : ResolvedTemplate) (w : World P)
    {m : TaskStatus} (payload : Json) (raw : Option String)
    → w.others ≡ []
    → get task.task_id w.table ≡ some task
    → is_business_terminal task.status ≡ false
    → env.template task.template_alias task.template_version ≡ some template
    → maps_status template (get_or raw "") ≡ some m
    → Arbitrated template.status_source task m w (apply_callback env task.task_id payload raw w)
callback-Arbitrated env task template w {m} payload raw alone found live known means =
    by template.status_source refl
  where
    by :
        (s : StatusSource)
        → template.status_source ≡ s
        → Arbitrated s task m w (apply_callback env task.task_id payload raw w)
    by callback source =
        callback_ends env task template w payload raw alone found live known means source
    by poll source =
        callback_waits env task template w payload raw alone found live known means source
