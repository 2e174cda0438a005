-- ===== src/Tasks/Submit/Accepted.antt =====
-- `submit_upstream` on a task whose submit intent cannot be won: what it asks of the upstream.
use async_task.Prelude.{
  ℕ, not, true, false, ◌&&◌, ◌||◌, String, str_eq, eq_iff, Option, none, some, List, [], ◌∷◌, ◌≡◌,
  refl, sym, subst, ◌∙◌, Bool-cases, inl, inr, length, is_some, if◌then◌else◌, arith,
}
use async_task.Domain.Status.{TaskStatus, accepted, status_eq}
use async_task.Domain.Transitions.{is_business_terminal}
use async_task.Outcome.{ok, raised}
use async_task.Db.Task.{Task, Table}
use async_task.Db.Dao.Cas.{Written, get, hit, cas, matches}
use async_task.Db.Dao.Writes.{mark_submit_intent, unset}
use async_task.Db.Dao.Calls.{Call, perform}
use async_task.Db.Dao.Exclusion.{AtMostOne, Absent-no_hit, intent_test}
use async_task.Db.Dao.Rows.{get-here, get-there}
use async_task.Db.Dao.Closing.{get-id}
use mathlib.Core.Option.{some-injective}
use async_task.Templates.Schema.{ResolvedTemplate}
use async_task.Tasks.World.{Event, Env, World, M, Strategy, pure, ◌>>=◌}
use async_task.Tasks.World.Actions.{
  interfere_by, interfere, load, commit, commit_with, apply, note, drop_credential, set_polls,
  enqueue, send, fetch, take_slot, give_slot, credential,
}
use async_task.Tasks.World.Keeps.{
  Keeps-pure, Keeps-bind, Keeps-raise, Keeps-elim, Keeps-gets, Keeps, Respects, is_record,
}
use async_task.Tasks.World.Leads.{Leads, Leads-Keeps, Leads-bind, Leads-if, Leads-finally}
use async_task.Tasks.Dispatch.Paid.{tally, is_ask}
use async_task.Tasks.Runtime.{template_of, is_past, non_empty}
use async_task.Tasks.Runtime.Keeps.{self_later-Keeps}
use async_task.Tasks.Submit.{
  submit_with_slot, submit_slotted, submit_past_checks, submit_task, submit_upstream,
  is_submittable,
}
use async_task.Tasks.Submit.Paths.{no_credential-Keeps, expired-Keeps, cancelled-Keeps}

module _ {P : Type 0} (env : Env P) (n : ℕ) where
  -- `n` creates were asked for.
  abbrev Quiet : World P → Type 0
  Quiet w = tally is_ask w.trace ≡ n

  by-Quiet :
      (others : List (List (ℕ × Call))) (w : World P) → Quiet w → Quiet (interfere_by others w).1
  by-Quiet [] w q = q
  by-Quiet (calls ∷ rest) w q = q

  interfere-Keeps : Keeps Quiet (interfere {P = P})
  unfolding interfere
  interfere-Keeps = record { at = λ w q. by-Quiet w.others w q }

  with-Quiet : (c : Call) (r : Written) (w : World P) → Quiet w → Quiet (commit_with c r w).1
  with-Quiet c (ok (done, t)) w q = q
  with-Quiet c (raised e) w q = q

  commit-Keeps : (c : Call) → Keeps Quiet (commit {P = P} c)
  unfolding commit
  commit-Keeps c = record { at = λ w q. with-Quiet c (perform w.clock c w.table) w q }

  note-Keeps : (e : Event) → is_record e ≡ true → Keeps Quiet (note {P = P} e)
  unfolding note
  note-Keeps (Event.audited kind subject) h = record { at = λ w q. q }
  note-Keeps (Event.archived key body) h = record { at = λ w q. q }
  note-Keeps (Event.stored key) h = record { at = λ w q. q }
  note-Keeps _ h = cc

  Quiet-Respects : Respects env Quiet
  unfolding load apply drop_credential set_polls fetch enqueue send
  Quiet-Respects = record {
    loads = λ id. Keeps-bind interfere-Keeps (λ u. Keeps-gets _);
    applies = λ c h. Keeps-bind interfere-Keeps (λ u. commit-Keeps c);
    notes = note-Keeps;
    drops = λ id. record { at = λ w q. q };
    polls = λ f. record { at = λ w q. q };
    enqueues = λ queue name id attempt. record {
      at = λ w q. elim (Bool-cases (env.bus_full queue (length w.trace))) [
        | inl e ↦ rw e q
        | inr e ↦ rw e q
      ];
    };
    sends = λ t r c h. record {
      at = λ w q. elim (Bool-cases (env.renders t r)) [ inl e ↦ rw (e, h) q | inr e ↦ rw e q ];
    };
    fetches = λ url. record { at = λ w q. q };
  }

  give-Keeps : (channel tenant : String) → Keeps Quiet (give_slot {P = P} channel tenant)
  unfolding give_slot
  give-Keeps channel tenant = record { at = λ w q. q }

  module _ (id : String) where
    -- No other writer acts, and no row has an intent to win.
    abbrev Lost : World P → Type 0
    Lost w = (w.others ≡ []) × (hit (intent_test id) w.table ≡ false) × Quiet w

    quiet : (w : World P) → Lost w → Quiet w
    quiet w l = l.2

    take-Keeps : (channel tenant : String) → Keeps Lost (take_slot env channel tenant)
    unfolding take_slot
    take-Keeps channel tenant = record { at = λ w l. l }

    module _ (task : Task) (same : task.task_id ≡ id) (t : ResolvedTemplate) (s : Strategy)
        (expected : List TaskStatus) where
      with_slot-Leads : Leads Lost Quiet (submit_with_slot env task t s expected)
      unfolding submit_with_slot ◌>>=◌ apply interfere commit perform mark_submit_intent cas
      with_slot-Leads = record { at = λ w l. rw (l.0, same, l.1) l.2 }

      slotted-Leads : Leads Lost Quiet (submit_slotted env task t s expected)
      unfolding submit_slotted
      slotted-Leads = Leads-bind quiet (take-Keeps task.channel task.tenant) (λ d.
          Leads-if (not d.granted)
            (Leads-Keeps quiet (self_later-Keeps Quiet-Respects task.task_id _))
            (Leads-finally with_slot-Leads (give-Keeps task.channel task.tenant)))

      past_checks-Leads : Leads Lost Quiet (submit_past_checks env task t s expected)
      unfolding submit_past_checks credential
      past_checks-Leads = Leads-bind quiet (Keeps-gets _) (λ bearer.
          Leads-if (not (is_some (non_empty bearer)))
            (Leads-Keeps quiet (no_credential-Keeps Quiet-Respects task expected)) slotted-Leads)

    task-Leads : (task : Task) → task.task_id ≡ id → Leads Lost Quiet (submit_task env task)
    unfolding submit_task template_of
    task-Leads task same =
        let expected = task.status ∷ [] in
        Leads-bind quiet
          (Keeps-elim (env.template task.template_alias task.template_version) (Keeps-raise _)
            (λ t. Keeps-pure _))
          (λ t. Leads-bind quiet (Keeps-gets _) (λ at.
            Leads-if (is_past at task.deadline_at)
              (Leads-Keeps quiet (expired-Keeps Quiet-Respects task expected))
              (Leads-if task.cancel_requested
                (Leads-Keeps quiet (cancelled-Keeps Quiet-Respects task expected))
                (past_checks-Leads task same t.0 t.1 expected))))

    submit-found :
        (found : Option Task) (w : World P)
        → ((task : Task) → found ≡ some task → task.task_id ≡ id)
        → Lost w
        → Quiet
            (elim found as (λ _. M P (Unit {0})) [
              | none ↦ pure tt
              | some task ↦
                  if is_business_terminal task.status || not (is_submittable env task.status)
                  then pure tt
                  else submit_task env task
            ]
              w).1
    submit-found none w same l = (Keeps-pure {K = Quiet} tt).at w l.2
    submit-found (some task) w same l =
        (Leads-if _ (Leads-Keeps quiet (Keeps-pure tt)) (task-Leads task (same task refl))).at w l

-- A task that is not accepted, or whose intent is set, has no intent to win.
no_intent :
    (id : String) (t : Table) {r : Task}
    → AtMostOne id t
    → get id t ≡ some r
    → (status_eq r.status accepted && unset r.submit_started_at) ≡ false
    → hit (intent_test id) t ≡ false
unfolding get hit matches
no_intent id [] one e h = refl
no_intent id (x ∷ t) {r = r} (inl (other, one)) e h =
    rw other (no_intent id t one (sym (get-there id x t other) ∙ e) h)
no_intent id (x ∷ t) {r = r} (inr absent) e h = elim (Bool-cases (str_eq x.task_id id)) [
  | inl here ↦
      let found = some-injective x r (sym (get-here id x t here) ∙ e) in
      let h' =
        subst (λ y. (status_eq y.status accepted && unset y.submit_started_at) ≡ false) (sym found)
          h in
      ground (arith, h', Absent-no_hit id t absent)
  | inr other ↦ rw other (Absent-no_hit id t absent)
]

submit_quiet :
    {P : Type 0} (env : Env P) (id : String) (w : World P)
    → w.others ≡ []
    → hit (intent_test id) w.table ≡ false
    → tally is_ask (submit_upstream env id w).1.trace ≡ tally is_ask w.trace
unfolding submit_upstream load ◌>>=◌ interfere
submit_quiet env id w alone h = rw alone (
    submit-found env (tally is_ask w.trace) id (get id w.table) (record w { others = [] })
      (λ task e. (eq_iff task.task_id id).0 (get-id id w.table e)) (refl, h, refl))

-- With no other writer at work, `submit_upstream` asks the upstream to create nothing for a task
-- that is not accepted, or whose submit intent is set: a failed task in particular, which the
-- handler lets pass its first checks, is never created again. The key is unique in the table.
pub only_accepted_created :
    {P : Type 0} (env : Env P) (id : String) (w : World P) {task : Task}
    → w.others ≡ []
    → AtMostOne id w.table
    → get id w.table ≡ some task
    → (status_eq task.status accepted && unset task.submit_started_at) ≡ false
    → tally is_ask (submit_upstream env id w).1.trace ≡ tally is_ask w.trace
only_accepted_created env id w alone one e h =
    submit_quiet env id w alone (no_intent id w.table one e h)
