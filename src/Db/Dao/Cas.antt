-- ===== src/Db/Dao/Cas.antt =====
-- src/async_gateway/db/dao.py: the state sets, `_cas` and `advance`, on which the others rest.
use async_task.Prelude.{
  ℕ, ◌+◌, Bool, true, false, not, ◌&&◌, ◌||◌, String, str_eq, Option, none, some, List, [], ◌∷◌,
  ◌++◌, any, if◌then◌else◌,
}
use async_task.Domain.Status.{
  TaskStatus, accepted, upstream_submitted, in_progress, submit_unknown, poll_unrecognized, failed,
  succeeded, cancelled, mem_status, status_eq, internal_terminal, all_statuses,
}
use async_task.Domain.Transitions.{allowed_targets, can_transition}
use async_task.Outcome.{transition_error, Result, ok, raised}
use async_task.Db.Task.{Task, Table}
use async_task.Db.Assign.{
  Assign, set_status, set_finished_at, set_next_poll_at, assign_all, sets_finished_at,
  sets_next_poll_at,
}

abbrev pub active_statuses : List TaskStatus
active_statuses =
    accepted ∷ upstream_submitted ∷ in_progress ∷ submit_unknown ∷ poll_unrecognized ∷ failed ∷ []

abbrev pub cancel_preconditions : List TaskStatus
cancel_preconditions = accepted ∷ upstream_submitted ∷ in_progress ∷ submit_unknown ∷ []

-- `get`: the row with the primary key.
unfoldable pub get : String → Table → Option Task
get id [] = none
get id (r ∷ rows) = if str_eq r.task_id id then some r else get id rows

-- The WHERE clause of `_cas`; `extra` is its further conditions.
unfoldable pub matches : String → List TaskStatus → (Task → Bool) → Task → Bool
matches id expected extra r = str_eq r.task_id id && mem_status r.status expected && extra r

-- The assignments, with the ones that `_cas` adds.
unfoldable pub write : ℕ → List Assign → Task → Task
unfolding assign_all
write now values r =
    let t = assign_all values r in record t { row_version = t.row_version + 1; updated_at = now }

-- An UPDATE of the rows that a test picks.
unfoldable pub update : (Task → Bool) → (Task → Task) → Table → Table
update p f [] = []
update p f (r ∷ rows) = (if p r then f r else r) ∷ update p f rows

-- `result.rowcount > 0`
unfoldable pub hit : (Task → Bool) → Table → Bool
hit p [] = false
hit p (r ∷ rows) = p r || hit p rows

unfoldable pub cas :
    ℕ → String → List TaskStatus → List Assign → (Task → Bool) → Table → Bool × Table
cas now id [] values extra t = (false, t)
cas now id (s ∷ expected) values extra t =
    let p = matches id (s ∷ expected) extra in (hit p t, update p (write now values) t)

abbrev pub no_extra : Task → Bool
no_extra r = true

-- The loop `for src in sources: assert_transition(src, dst)`: the first source that is refused.
unfoldable pub first_refused : List TaskStatus → TaskStatus → Option TaskStatus
first_refused [] dst = none
first_refused (s ∷ rest) dst = if can_transition s dst then first_refused rest dst else some s

-- `[s for s in TaskStatus if dst in allowed_targets(s)]`
unfoldable pub sources_of : TaskStatus → List TaskStatus → List TaskStatus
sources_of dst [] = []
sources_of dst (s ∷ rest) =
    let others = sources_of dst rest in
    if mem_status dst (allowed_targets s) then s ∷ others else others

-- `payload.setdefault`
abbrev pub set_default : (Assign → Bool) → Assign → List Assign → List Assign
set_default sets a payload = if any sets payload then payload else payload ++ a ∷ []

-- The UPDATE's values: the caller's, the new status, and what a terminal state sets unless the
-- caller did.
unfoldable pub advance_payload : ℕ → TaskStatus → List Assign → List Assign
advance_payload now dst values =
    let payload = values ++ set_status dst ∷ [] in
    let finished =
      if mem_status dst internal_terminal || status_eq dst succeeded || status_eq dst cancelled
      then set_default sets_finished_at (set_finished_at (some now)) payload
      else payload in
    if not (status_eq dst succeeded)
      && (mem_status dst internal_terminal || status_eq dst cancelled)
    then set_default sets_next_poll_at (set_next_poll_at none) finished
    else finished

abbrev pub Written : Type 0
Written = Result (Bool × Table)

-- `expected` is `none` where the caller leaves it out.
unfoldable pub advance :
    ℕ → String → TaskStatus → Option (List TaskStatus) → List Assign → Table → Written
unfolding advance_payload
advance now id dst none values t =
    ok (cas now id (sources_of dst all_statuses) (advance_payload now dst values) no_extra t)
advance now id dst (some expected) values t = elim (first_refused expected dst) [
  | some src ↦ raised (transition_error src dst)
  | none ↦ ok (cas now id expected (advance_payload now dst values) no_extra t)
]
