-- ===== src/Tasks/Dispatch/Rows.antt =====
-- What a worker's handling of a message does to the table, with others at work on it.
use async_task.Prelude.{
  ℕ, not, true, String, Option, some, List, [], ◌∷◌, All, ◌≡◌, Bool-cases, inl, inr, length,
}
use async_task.Domain.Errors.{Context}
use async_task.Domain.Status.{TaskStatus}
use async_task.Outcome.{ok, raised}
use async_task.Db.Task.{Task, Table}
use async_task.Db.Dao.Cas.{get, Written}
use async_task.Db.Dao.Calls.{Call, perform, run, is_plain, IsPlain}
use async_task.Db.Dao.Rows.{RowStep, TableStep, TableStep-refl, TableStep-trans, get-TableStep}
use async_task.Db.Dao.Advance.{table_after}
use async_task.Db.Dao.History.{perform-TableStep, run-TableStep}
use async_task.Templates.Schema.{ResolvedTemplate}
use async_task.Tasks.World.{Request, Event, create, Env, World, Strategy}
use async_task.Tasks.World.Actions.{
  interfere_by, interfere, load, commit, commit_with, apply, note, drop_credential, set_polls,
  enqueue, send, fetch, take_slot, give_slot,
}
use async_task.Tasks.World.Keeps.{
  Keeps-bind, Keeps-gets, Keeps-if, Keeps-finally, Keeps-credential, Keeps, Respects,
}
use async_task.Tasks.Runtime.Keeps.{self_later-Keeps}
use async_task.Tasks.Submit.{submit_slotted}
use async_task.Tasks.Submit.Paths.{with_slot-Keeps}
use async_task.Tasks.Poll.{poll_known}
use async_task.Tasks.Poll.Keeps.{poll_with_slot-Keeps}
use async_task.Tasks.Dispatch.{dispatch_message}
use async_task.Tasks.Dispatch.Keeps.{dispatch-Keeps}

-- The others' calls, for every access to come.
abbrev pub ArePlain : List (List (ℕ × Call)) → Type 0
ArePlain others = All (All IsPlain) others

module _ {P : Type 0} (env : Env P) (start : Table) where
  abbrev pub Follows : World P → Type 0
  Follows w = TableStep start w.table × ArePlain w.others

  by-Follows :
      (others : List (List (ℕ × Call))) (w : World P)
      → TableStep start w.table
      → ArePlain others
      → ArePlain w.others
      → Follows (interfere_by others w).1
  by-Follows [] w s p q = (s, q)
  by-Follows (calls ∷ rest) w s p q =
      (TableStep-trans start w.table (run calls w.table) s (run-TableStep calls w.table p.0), p.1)

  interfere-Keeps : Keeps Follows (interfere {P = P})
  unfolding interfere
  interfere-Keeps = record { at = λ w k. by-Follows w.others w k.0 k.1 k.1 }

  with-Follows :
      (c : Call) (r : Written) (w : World P)
      → TableStep w.table (table_after r w.table)
      → Follows w
      → Follows (commit_with c r w).1
  with-Follows c (ok (done, t)) w s k = (TableStep-trans start w.table t k.0 s, k.1)
  with-Follows c (raised e) w s k = k

  commit-Keeps : (c : Call) → is_plain c ≡ true → Keeps Follows (commit {P = P} c)
  unfolding commit
  commit-Keeps c h = record {
    at = λ w k.
        with-Follows c (perform w.clock c w.table) w (perform-TableStep w.clock c w.table h) k;
  }

  -- What touches neither the table nor the others.
  note-Keeps : (e : Event) → Keeps Follows (note {P = P} e)
  unfolding note
  note-Keeps e = record { at = λ w k. k }

  drop-Keeps : (id : String) → Keeps Follows (drop_credential {P = P} id)
  unfolding drop_credential
  drop-Keeps id = record { at = λ w k. k }

  polls-Keeps : (f : P → P) → Keeps Follows (set_polls f)
  unfolding set_polls
  polls-Keeps f = record { at = λ w k. k }

  enqueue-Keeps :
      (queue name id : String) (attempt : Option ℕ)
      → Keeps Follows (enqueue env queue name id attempt)
  unfolding enqueue
  enqueue-Keeps queue name id attempt = record {
    at = λ w k. elim (Bool-cases (env.bus_full queue (length w.trace))) [
      | inl e ↦ rw e k
      | inr e ↦ rw e k
    ];
  }

  pub send-Keeps :
      (t : ResolvedTemplate) (r : Request) (c : Context) → Keeps Follows (send env t r c)
  unfolding send
  send-Keeps t r c = record {
    at = λ w k. elim (Bool-cases (env.renders t r)) [ inl e ↦ rw e k | inr e ↦ rw e k ];
  }

  fetch-Keeps : (url : String) → Keeps Follows (fetch env url)
  unfolding fetch
  fetch-Keeps url = record { at = λ w k. k }

  pub take-Keeps : (channel tenant : String) → Keeps Follows (take_slot env channel tenant)
  unfolding take_slot
  take-Keeps channel tenant = record { at = λ w k. k }

  pub give-Keeps : (channel tenant : String) → Keeps Follows (give_slot {P = P} channel tenant)
  unfolding give_slot
  give-Keeps channel tenant = record { at = λ w k. k }

  pub Follows-Respects : Respects env Follows
  unfolding load apply
  Follows-Respects = record {
    loads = λ id. Keeps-bind interfere-Keeps (λ u. Keeps-gets _);
    applies = λ c h. Keeps-bind interfere-Keeps (λ u. commit-Keeps c h);
    notes = λ e h. note-Keeps e;
    drops = drop-Keeps;
    polls = polls-Keeps;
    enqueues = enqueue-Keeps;
    sends = λ t r c h. send-Keeps t r c;
    fetches = fetch-Keeps;
  }

  submits-Keeps :
      (task : Task) (t : ResolvedTemplate) (s : Strategy) (expected : List TaskStatus)
      → Keeps Follows (submit_slotted env task t s expected)
  unfolding submit_slotted
  submits-Keeps task t s expected = Keeps-bind (take-Keeps task.channel task.tenant) (λ d.
      Keeps-if (not d.granted) (self_later-Keeps Follows-Respects task.task_id _) (
        Keeps-finally
          (with_slot-Keeps Follows-Respects (λ t body cb c. send-Keeps t (create body cb) c) task t
            s expected)
          (give-Keeps task.channel task.tenant)))

  polls_known-Keeps :
      (task : Task) (t : ResolvedTemplate) (s : Strategy) (id : String)
      → Keeps Follows (poll_known env task t s id)
  unfolding poll_known
  polls_known-Keeps task t s id = Keeps-bind (Keeps-credential Follows-Respects task.task_id) (λ u.
      Keeps-bind (take-Keeps task.channel task.tenant) (λ d.
        Keeps-if (not d.granted) (self_later-Keeps Follows-Respects task.task_id _) (
          Keeps-finally (poll_with_slot-Keeps Follows-Respects task t s id)
            (give-Keeps task.channel task.tenant))))

  dispatch-Follows :
      (name id : String) (attempt : Option ℕ) → Keeps Follows (dispatch_message env name id attempt)
  dispatch-Follows = dispatch-Keeps Follows-Respects submits-Keeps polls_known-Keeps

-- Whatever message a worker handles, whatever others do to the table between its accesses, and
-- whether it returns or raises: a row stays in the table under its key, its status has moved along
-- the whitelist, its version has not fallen, a cancellation that was requested still is, and a
-- stored result is still the same. The others' calls do not pass `result_ref` among the free
-- arguments of `advance`; the handlers' own never do.
pub dispatch_follows_whitelist :
    {P : Type 0} (env : Env P) (name id key : String) (attempt : Option ℕ) (w : World P) {r : Task}
    → ArePlain w.others
    → get key w.table ≡ some r
    → (s : Task) × (get key (dispatch_message env name id attempt w).1.table ≡ some s) × RowStep r s
dispatch_follows_whitelist env name id key attempt w p e =
    let k = (dispatch-Follows env w.table name id attempt).at w (TableStep-refl w.table, p) in
    get-TableStep key w.table (dispatch_message env name id attempt w).1.table k.0 e
