-- ===== src/Tasks/Compensate/Settles.antt =====
-- Where a confirmation takes a task whose submit was unknown.
use async_task.Prelude.{
  Bool, true, false, String, str_eq, none, some, List, [], ◌∷◌, ◌≡◌, refl, sym, subst, ap, ◌∙◌,
  Bool-cases, inl, inr, if◌then◌else◌,
}
use async_task.Outcome.{transition_error, raised}
use async_task.Domain.Status.{TaskStatus, accepted, upstream_submitted, submit_unknown}
use async_task.Domain.Transitions.{can_transition}
use async_task.Db.Task.{Task, Table}
use async_task.Db.Assign.{Assign}
use async_task.Db.Dao.Cas.{get, advance}
use async_task.Db.Dao.Calls.{Call, perform}
use async_task.Db.Dao.Writes.{relocate_compensate}
use async_task.Db.Dao.Advance.{table_after}
use async_task.Db.Dao.Closing.{advance_hit, one_refused}
use async_task.Templates.Schema.{ResolvedTemplate}
use async_task.Tasks.World.{Env, World, M, pure, ◌>>=◌}
use async_task.Tasks.World.Actions.{apply, enqueue, interfere, commit, backoff}
use async_task.Tasks.World.Tables.{bind-table, apply-table, enqueue-table}
use async_task.Tasks.Compensate.{
  Confirmation, created, not_created, inconclusive, recreate, relocate, keep_unknown, settle,
}

-- The status that a confirmation leads to.
abbrev settled : Confirmation → TaskStatus
settled (created upstream_id detail) =
    if str_eq upstream_id "" then accepted else upstream_submitted
settled (not_created detail) = accepted
settled (inconclusive detail) = submit_unknown

abbrev is_inconclusive : Confirmation → Bool
is_inconclusive (inconclusive detail) = true
is_inconclusive _ = false

module _ {P : Type 0} (env : Env P) (task : Task) (template : ResolvedTemplate) (w : World P)
    (alone : w.others ≡ []) (found : get task.task_id w.table ≡ some task)
    (unknown : task.status ≡ submit_unknown) where
  abbrev Comes : TaskStatus → Table → Type 0
  Comes s t = (x : Task) × (get task.task_id t ≡ some x) × (x.status ≡ s)

  advance-Comes :
      (dst : TaskStatus) (vs : List Assign)
      → can_transition submit_unknown dst ≡ true
      → Comes dst (
          table_after
            (advance w.clock task.task_id dst (some (submit_unknown ∷ [])) vs w.table)
            w.table)
  advance-Comes dst vs h =
      subst
        (λ s.
          Comes dst
            (table_after (advance w.clock task.task_id dst (some (s ∷ [])) vs w.table) w.table))
        unknown
        (advance_hit w.clock dst vs task.task_id w.table found
          (subst (λ s. can_transition s dst ≡ true) (sym unknown) h))

  -- The rest of a handler, after the call that moves the row.
  then-Comes :
      {A : Type 0} (c : Call) (f : Bool → M P A) (dst : TaskStatus) (vs : List Assign)
      → can_transition submit_unknown dst ≡ true
      → perform w.clock c w.table
        ≡ advance w.clock task.task_id dst (some (submit_unknown ∷ [])) vs w.table
      → ((moved : Bool) (w' : World P) → (f moved w').1.table ≡ w'.table)
      → Comes dst ((apply c >>= f) w).1.table
  then-Comes c f dst vs h e k =
      subst (Comes dst)
        (ap (λ r. table_after r w.table) (sym e)
          ∙ sym (apply-table c w alone)
          ∙ sym (bind-table (apply c) f w k))
        (advance-Comes dst vs h)

  if-table :
      (b : Bool) (queue name id : String) (w' : World P)
      → ((if b then enqueue env queue name id none else pure tt) w').1.table ≡ w'.table
  unfolding ◌>>=◌
  if-table true queue name id w' = enqueue-table env queue name id none w'
  if-table false queue name id w' = refl

  recreate-Comes : Comes accepted (recreate env task w).1.table
  unfolding recreate ◌>>=◌ perform can_transition
  recreate-Comes = then-Comes _ _ accepted _ refl refl (λ moved w'. if-table moved _ _ _ w')

  relocate-Comes :
      (upstream_id detail : String)
      → Comes upstream_submitted (relocate env task template upstream_id detail w).1.table
  unfolding relocate ◌>>=◌ perform relocate_compensate can_transition
  relocate-Comes upstream_id detail =
      then-Comes _ _ upstream_submitted _ refl refl (λ moved w'. enqueue-table env _ _ _ none w')

  keep-raises :
      (detail : String)
      → ((keep_unknown env task detail w).0
          ≡ raised (transition_error submit_unknown submit_unknown))
        × ((keep_unknown env task detail w).1.table ≡ w.table)
  unfolding keep_unknown ◌>>=◌ backoff apply interfere commit perform relocate_compensate
      can_transition advance
  keep-raises detail =
      rw (alone, one_refused submit_unknown submit_unknown refl, advance) (refl, refl)

-- Settling a confirmation of a submit that was unknown, with no other writer at work. A task
-- confirmed as created, under an id that is not empty, comes to `upstream_submitted`; confirmed as
-- not created, it goes back to `accepted`. An inconclusive confirmation always raises, since the
-- whitelist has no way from `submit_unknown` to itself, and writes nothing: the row keeps its
-- poll time and its count of confirmations.
pub settle_moves :
    {P : Type 0} (env : Env P) (task : Task) (template : ResolvedTemplate) (c : Confirmation)
    (w : World P)
    → w.others ≡ []
    → get task.task_id w.table ≡ some task
    → task.status ≡ submit_unknown
    → let s = settle env task template c w in
      ((x : Task) × (get task.task_id s.1.table ≡ some x) × (x.status ≡ settled c))
      × (is_inconclusive c ≡ true
          → (s.0 ≡ raised (transition_error submit_unknown submit_unknown)) × (s.1.table ≡ w.table))
unfolding settle
settle_moves env task template (created upstream_id detail) w alone found unknown =
    elim (Bool-cases (str_eq upstream_id "")) [
      | inl e ↦ rw e (recreate-Comes env task template w alone found unknown, (λ h. cc h))
      | inr e ↦
          rw e
            (relocate-Comes env task template w alone found unknown upstream_id detail, (λ h. cc h))
    ]
settle_moves env task template (not_created detail) w alone found unknown =
    (recreate-Comes env task template w alone found unknown, (λ h. cc h))
settle_moves env task template (inconclusive detail) w alone found unknown =
    let kept = keep-raises env task template w alone found unknown detail in
    ((task, ap (get task.task_id) kept.1 ∙ found, unknown), (λ h. kept))
