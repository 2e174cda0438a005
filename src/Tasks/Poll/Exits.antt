-- ===== src/Tasks/Poll/Exits.antt =====
-- Where a poll takes a task that it closes, from each of the statuses that are polled.
use async_task.Prelude.{Bool, true, false, length, ltb, none, some, [], ◌∷◌, ◌≡◌, String}
use async_task.Templates.Schema.{ResolvedTemplate}
use async_task.Tasks.Runtime.{is_past, non_empty}
use async_task.Domain.Status.{TaskStatus, submit_unknown, timeout, dead}
use async_task.Db.Task.{Task}
use async_task.Db.Dao.Cas.{get}
use async_task.Upstream.{Outcome, UpstreamCallResult, call_result, is_ssrf}
use async_task.Infra.Limiter.{acquire}
use async_task.Domain.Errors.{poll}
use async_task.Tasks.World.{get_task, requested, Env, World}
use async_task.Tasks.Poll.{is_pollable}
use async_task.Tasks.Runtime.Exits.{Exits}

-- Whether the limiter has a slot for the task.
abbrev pub granted_to : {P : Type 0} → Env P → Task → World P → Bool
granted_to env task w =
    (acquire task.channel task.tenant (env.channel_limits task.channel).0
      (env.channel_limits task.channel).1 w.slots).0.granted

module _ {P : Type 0} (env : Env P) (task : Task) (template : ResolvedTemplate) (w : World P)
    (pollable : is_pollable task.status ≡ true) (alone : w.others ≡ [])
    (found : get task.task_id w.table ≡ some task)
    (known : env.template task.template_alias task.template_version ≡ some template) where
  module _ (upstream_id : String)
      (refusal : is_ssrf
          (call_result (env.wire (length w.trace) (get_task upstream_id)) poll).outcome
        ≡ true) where
    in_slot : World P
    in_slot = record w {
      slots =
          (acquire task.channel task.tenant (env.channel_limits task.channel).0
            (env.channel_limits task.channel).1 w.slots).1;
    }

    asked : World P
    unfolding in_slot
    asked = record in_slot { trace = requested (get_task upstream_id) ∷ w.trace }

    answer : UpstreamCallResult
    answer = call_result (env.wire (length w.trace) (get_task upstream_id)) poll

-- Why a poll takes a task out of the statuses that are polled, and to which status.
pub data Closes {P : Type 0} (env : Env P) (task : Task) (template : ResolvedTemplate) (w : World P)
    : TaskStatus → Type 0 where
  expired : is_past w.clock task.deadline_at ≡ true → Closes env task template w timeout
  not_created :
      is_past w.clock task.deadline_at ≡ false
      → ltb 0 (env.polling.paused_for task.channel w.clock w.polls) ≡ false
      → non_empty task.upstream_task_id ≡ none
      → Closes env task template w submit_unknown
  refused :
      (upstream_id : String)
      → is_past w.clock task.deadline_at ≡ false
      → ltb 0 (env.polling.paused_for task.channel w.clock w.polls) ≡ false
      → non_empty task.upstream_task_id ≡ some upstream_id
      → granted_to env task w ≡ true
      → env.renders template (get_task upstream_id) ≡ true
      → is_ssrf (call_result (env.wire (length w.trace) (get_task upstream_id)) poll).outcome ≡ true
      → Closes env task template w dead
