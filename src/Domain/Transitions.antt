-- ===== src/Domain/Transitions.antt =====
-- src/async_gateway/domain/state_machine.py: the transition whitelist and what is read off it.
-- `TaskStatus(x)` on a member is the identity, so the functions take members. A raised
-- `TransitionError` is the `none` of `assert_transition`.
pub mod Paths
use async_task.Prelude.{Bool, true, ◌||◌, List, [], ◌∷◌, Option, none, some, if◌then◌else◌}
use async_task.Domain.Status.{
  TaskStatus, accepted, upstream_submitted, in_progress, submit_unknown, poll_unrecognized, failed,
  succeeded, cancelled, timeout, dead, dead_awaiting_confirm, OutputTerminal, out_in_progress,
  out_succeeded, out_failed, status_eq, mem_status, business_terminal, internal_terminal,
}

-- `ALLOWED_TRANSITIONS`, which has every state as a key.
unfoldable pub allowed_targets : TaskStatus → List TaskStatus
allowed_targets accepted =
    upstream_submitted ∷ cancelled ∷ submit_unknown ∷ dead ∷ dead_awaiting_confirm ∷ timeout ∷ []
allowed_targets upstream_submitted =
    in_progress ∷ succeeded ∷ failed ∷ cancelled ∷ timeout ∷ dead ∷ dead_awaiting_confirm
    ∷ submit_unknown ∷ poll_unrecognized ∷ []
allowed_targets in_progress =
    succeeded ∷ failed ∷ cancelled ∷ timeout ∷ dead ∷ dead_awaiting_confirm ∷ poll_unrecognized
    ∷ submit_unknown ∷ []
allowed_targets submit_unknown = upstream_submitted ∷ dead_awaiting_confirm ∷ accepted ∷ []
allowed_targets poll_unrecognized =
    in_progress ∷ dead_awaiting_confirm ∷ timeout ∷ succeeded ∷ failed ∷ []
allowed_targets failed =
    upstream_submitted ∷ submit_unknown ∷ dead ∷ dead_awaiting_confirm ∷ cancelled ∷ []
allowed_targets succeeded = []
allowed_targets cancelled = []
allowed_targets timeout = []
allowed_targets dead = []
allowed_targets dead_awaiting_confirm = dead ∷ []

unfoldable pub can_transition : TaskStatus → TaskStatus → Bool
unfolding allowed_targets
can_transition src dst = mem_status dst (allowed_targets src)

unfoldable pub assert_transition : TaskStatus → TaskStatus → Option (Unit {0})
unfolding can_transition
assert_transition src dst = if can_transition src dst then some tt else none

unfoldable pub is_business_terminal : TaskStatus → Bool
is_business_terminal status = mem_status status business_terminal

unfoldable pub is_internal_terminal : TaskStatus → Bool
is_internal_terminal status = mem_status status internal_terminal

unfoldable pub is_terminal_for_output : TaskStatus → Bool
unfolding is_business_terminal
is_terminal_for_output status = is_business_terminal status

unfoldable pub output_terminal : TaskStatus → OutputTerminal
output_terminal status =
    if status_eq status succeeded
    then out_succeeded
    else if mem_status status business_terminal || status_eq status failed
    then out_failed
    else out_in_progress
