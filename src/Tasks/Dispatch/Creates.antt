-- ===== src/Tasks/Dispatch/Creates.antt =====
-- When a worker's handling of a message asks the upstream to create.
use async_task.Tasks.Submit.{callback_of}
use async_task.Tasks.Submit.Result.{handle_submit_result}
use async_task.Domain.Errors.{submit}
use async_task.Db.Dao.Calls.{run}
use async_task.Prelude.{
  if◌then◌else◌, ℕ, ◌+◌, ◌≤◌, Bool, not, true, false, String, Option, none, some, List, [], ◌∷◌,
  Bool-cases, inl, inr, arith,
}
use async_task.Domain.Errors.{Context}
use async_task.Domain.Status.{TaskStatus}
use async_task.Outcome.{Result, ok, raised}
use async_task.Db.Json.{Json}
use async_task.Db.Task.{Task}
use async_task.Db.Dao.Cas.{Written}
use async_task.Db.Dao.Calls.{Call, perform}
use async_task.Templates.Schema.{ResolvedTemplate}
use async_task.Upstream.{UpstreamCallResult}
use async_task.Tasks.World.{pure, Request, create, Env, World, M, Strategy, continue, ◌>>=◌}
use async_task.Tasks.World.Actions.{interfere_by, interfere, commit, commit_with, apply, send}
use async_task.Tasks.World.Keeps.{
  Keeps-pure, Keeps-bind, Keeps-finally, Keeps-if, Keeps-credential, Keeps,
}
use async_task.Tasks.Runtime.{load_create_body}
use async_task.Tasks.Runtime.Keeps.{self_later-Keeps}
use async_task.Tasks.Submit.{
  close_without_body, send_create, submit_loaded, submit_with_slot, submit_slotted,
}
use async_task.Tasks.Submit.Keeps.{submit_result-Keeps}
use async_task.Tasks.Submit.Paths.{no_body-Keeps}
use async_task.Tasks.Poll.{poll_known}
use async_task.Tasks.Poll.Keeps.{poll_with_slot-Keeps}
use async_task.Tasks.Dispatch.{dispatch_message}
use async_task.Tasks.Dispatch.Keeps.{dispatch-Keeps}
use async_task.Tasks.Dispatch.Paid.{
  is_ask, is_win, tally, Paid, take-Keeps, give-Keeps, Paid-Respects,
}

-- What holds after a step: of its result, or after an exception.
abbrev pub After :
    {P A : Type 0} → (A → World P → Type 0) → (World P → Type 0) → Result A × World P → Type 0
After L R (ok a, w) = L a w
After L R (raised e, w) = R w

pub continue-After :
    {P A B : Type 0} (L : A → World P → Type 0) (R : World P → Type 0) (s : Result A × World P)
    (f : A → M P B)
    → After L R s
    → ((a : A) (w : World P) → L a w → R (f a w).1)
    → R (continue s.0 f s.1).1
continue-After L R (ok a, w) f h g = g a w h
continue-After L R (raised e, w) f h g = h

module _ {P : Type 0} (env : Env P) (start : World P) where
  abbrev pub Ready : Bool → World P → Type 0
  Ready true w = Paid env start 1 w
  Ready false w = Paid env start 0 w

  -- A won intent allows one create.
  win-After :
      (id : String) (r : Written) (w : World P)
      → Paid env start 0 w
      → After Ready (Paid env start 0) (commit_with (Call.mark_submit_intent id) r w)
  win-After id (ok (true, t)) w q = omega (arith, q)
  win-After id (ok (false, t)) w q = q
  win-After id (raised e) w q = q

  by-mark :
      (id : String) (others : List (List (ℕ × Call))) (w : World P)
      → Paid env start 0 w
      → After Ready (Paid env start 0) (
          continue
            (interfere_by others w).0
            (λ u. commit (Call.mark_submit_intent id))
            (interfere_by others w).1)
  unfolding commit
  by-mark id [] w q = win-After id (perform w.clock (Call.mark_submit_intent id) w.table) w q
  by-mark id (calls ∷ rest) w q =
      win-After id _ (record w { table = run calls w.table; others = rest }) q

  pub mark-After :
      (id : String) (w : World P)
      → Paid env start 0 w
      → After Ready (Paid env start 0) (apply (Call.mark_submit_intent id) w)
  unfolding apply ◌>>=◌ interfere
  mark-After id w q = by-mark id w.others w q

  pub spend :
      (t : ResolvedTemplate) (r : Request) (c : Context) (w : World P)
      → Paid env start 1 w
      → Paid env start 0 (send env t r c w).1
  unfolding send
  spend t r c w q = elim (Bool-cases (env.renders t r)) [
    | inl e ↦ rw e (ground (arith, q))
    | inr e ↦ rw e (omega (arith, q))
  ]

  pub waste : (w : World P) → Paid env start 1 w → Paid env start 0 w
  waste w q = omega (arith, q)

  module _ (task : Task) (t : ResolvedTemplate) (s : Strategy) where
    create-Keeps :
        (body : Json) (w : World P)
        → Paid env start 1 w
        → Paid env start 0 (send_create env task t s body w).1
    unfolding send_create ◌>>=◌
    create-Keeps body w q =
        let sent = send env t (create body (callback_of env t task)) submit w in
        after-send sent.0 sent.1 (spend t _ submit w q)
      where
        after-send :
            (r : Result UpstreamCallResult) (w : World P)
            → Paid env start 0 w
            → Paid env start 0 (continue r (λ result. handle_submit_result env task t s result) w).1
        after-send (ok result) w q =
            (submit_result-Keeps (Paid-Respects env start 0) task t s result).at w q
        after-send (raised e) w q = q

    loaded-Keeps :
        (expected : List TaskStatus) (body : Option Json) (w : World P)
        → Paid env start 1 w
        → Paid env start 0 (submit_loaded env task t s expected body w).1
    unfolding submit_loaded
    loaded-Keeps expected none w q =
        waste (close_without_body env task expected w).1
          ((no_body-Keeps (Paid-Respects env start 1) task expected).at w q)
    loaded-Keeps expected (some body) w q = create-Keeps body w q

    marked-Keeps :
        (expected : List TaskStatus) (won : Bool) (w : World P)
        → Ready won w
        → Paid env start 0
            ((if not won
                then pure tt
                else submit_loaded env task t s expected (load_create_body env task))
              w).1
    marked-Keeps expected false w q = (Keeps-pure {K = Paid env start 0} tt).at w q
    marked-Keeps expected true w q = loaded-Keeps expected (load_create_body env task) w q

    with_slot-Keeps :
        (expected : List TaskStatus)
        → Keeps (Paid env start 0) (submit_with_slot env task t s expected)
    unfolding submit_with_slot ◌>>=◌
    with_slot-Keeps expected = record {
      at = λ w q.
          continue-After Ready (Paid env start 0) (apply (Call.mark_submit_intent task.task_id) w) _
            (mark-After task.task_id w q) (marked-Keeps expected);
    }

    submits-Keeps :
        (expected : List TaskStatus)
        → Keeps (Paid env start 0) (submit_slotted env task t s expected)
    unfolding submit_slotted
    submits-Keeps expected = Keeps-bind (take-Keeps env start 0 task.channel task.tenant) (λ d.
        Keeps-if (not d.granted) (self_later-Keeps (Paid-Respects env start 0) task.task_id _) (
          Keeps-finally (with_slot-Keeps expected)
            (give-Keeps env start 0 task.channel task.tenant)))

    polls_known-Keeps : (id : String) → Keeps (Paid env start 0) (poll_known env task t s id)
    unfolding poll_known
    polls_known-Keeps id =
        Keeps-bind (Keeps-credential (Paid-Respects env start 0) task.task_id) (λ u.
          Keeps-bind (take-Keeps env start 0 task.channel task.tenant) (λ d.
            Keeps-if (not d.granted) (self_later-Keeps (Paid-Respects env start 0) task.task_id _) (
              Keeps-finally (poll_with_slot-Keeps (Paid-Respects env start 0) task t s id)
                (give-Keeps env start 0 task.channel task.tenant))))

-- The handling of a message asks the upstream to create at most as often as it wins a submit
-- intent: what is new in the trace holds no more creates than calls of `mark_submit_intent` that
-- succeeded, whatever others do to the table in between.
pub dispatch_creates_once :
    {P : Type 0} (env : Env P) (name id : String) (attempt : Option ℕ) (w : World P)
    → tally is_ask (dispatch_message env name id attempt w).1.trace + tally is_win w.trace
      ≤ tally is_win (dispatch_message env name id attempt w).1.trace + tally is_ask w.trace
dispatch_creates_once env name id attempt w = omega (
  arith,
  (dispatch-Keeps (Paid-Respects env w 0) (submits-Keeps env w) (polls_known-Keeps env w) name id
        attempt).at
      w (omega arith),
)
