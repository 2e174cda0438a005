-- ===== src/Workers/Unknowns.antt =====
-- src/async_gateway/workers/inspector.py: `bound_unknowns`.
use async_task.Prelude.{
  ℕ, ◌+◌, ◌-◌, not, String, str_eq, none, some, List, [], ◌∷◌, ◌++◌, map, leb, length,
  if◌then◌else◌,
}
use async_task.Domain.Status.{dead_awaiting_confirm, unknown_exhausted}
use async_task.Db.Task.{Task, Table}
use async_task.Db.Assign.{set_error_code, set_error_message, set_next_poll_at}
use async_task.Db.Dao.Cas
use async_task.Db.Dao.Calls.{Call}
use async_task.Db.Dao.Queries.{over_lifetime_unknown, unknown_tasks, count_unknown_by_channel}
use async_task.Infra.Limiter.Counters.{Counts}
use async_task.Tasks.World.{M, pure, gets, ◌>>=◌}
use async_task.Tasks.World.Actions.{commit}
use async_task.Workers.Inspector.{row_limit, one_if}
use async_task.Workers.Session.{in_session}

-- The ids of a channel's rows, added to the victims until there are `goal` of them.
unfoldable pub pick_victims : ℕ → String → List Task → List String → List String
pick_victims goal channel [] victims = victims
pick_victims goal channel (r ∷ rows) victims =
    let more = victims ++ r.task_id ∷ [] in
    let on = pick_victims goal channel rows more in
    let off = pick_victims goal channel rows victims in
    if not (str_eq r.channel channel) then off else if leb goal (length more) then more else on

-- `for channel, count in counts.items()`; `over` is the number of rows over the lifetime.
unfoldable pub channel_victims : ℕ → ℕ → ℕ → Table → Counts → List String → List String
unfolding pick_victims
channel_victims limit over now t [] victims = victims
channel_victims limit over now t ((channel, n) ∷ rest) victims =
    channel_victims limit over now t rest (
      if leb n limit
      then victims
      else pick_victims (n - limit + over) channel (unknown_tasks n now t) victims)

-- `dict.fromkeys`: the first of equal ids stays.
unfoldable pub drop_id : String → List String → List String
drop_id id [] = []
drop_id id (x ∷ xs) = let rest = drop_id id xs in if str_eq x id then rest else x ∷ rest

unfoldable pub distinct : List String → List String
unfolding drop_id
distinct [] = []
distinct (x ∷ xs) = x ∷ drop_id x (distinct xs)

unfoldable pub victims_of : ℕ → ℕ → ℕ → Table → List String
unfolding channel_victims distinct
victims_of limit lifetime now t =
    let over = over_lifetime_unknown lifetime row_limit now t in
    distinct (
      channel_victims limit (length over) now t (count_unknown_by_channel t)
        (map (λ r. r.task_id) over))

module _ {P : Type 0} where
  unfoldable pub give_up : Task → M P ℕ
  give_up task = do
    moved ← commit (
        Call.advance task.task_id dead_awaiting_confirm (some (task.status ∷ [])) (
          set_error_code (some unknown_exhausted)
          ∷ set_error_message (some "unknown bounded: exceeded channel limit or max lifetime")
          ∷ set_next_poll_at none
          ∷ []))
    pure (one_if moved)

  -- `task = await dao.get(task_id)` and the rest of the round.
  unfoldable pub give_up_id : String → M P ℕ
  unfolding give_up
  give_up_id id = do
    found ← gets (λ w. Cas.get id w.table)
    elim found [ none ↦ pure 0 | some task ↦ give_up task ]

  unfoldable pub give_up_all : List String → M P ℕ
  unfolding give_up_id
  give_up_all [] = pure 0
  give_up_all (id ∷ ids) = do n ← give_up_id id; k ← give_up_all ids; pure (n + k)

  unfoldable pub bound_unknowns : ℕ → ℕ → M P ℕ
  unfolding in_session victims_of give_up_all
  bound_unknowns limit lifetime =
      in_session (do ids ← gets (λ w. victims_of limit lifetime w.clock w.table); give_up_all ids)
