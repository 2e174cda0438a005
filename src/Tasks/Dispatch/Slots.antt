-- ===== src/Tasks/Dispatch/Slots.antt =====
-- What a worker's handling of a message does to the concurrency slots.
use async_task.Prelude.{
  if◌then◌else◌, ℕ, not, String, Option, List, [], ◌∷◌, ◌≡◌, refl, ap, ◌∙◌, Bool-cases, inl, inr,
  length,
}
use async_task.Domain.Errors.{Context}
use async_task.Domain.Status.{TaskStatus}
use async_task.Outcome.{ok, raised}
use async_task.Db.Task.{Task}
use async_task.Db.Dao.Cas.{Written}
use async_task.Db.Dao.Calls.{Call, perform}
use async_task.Infra.Limiter.Counters.{Counts, count}
use async_task.Infra.Limiter.{SlotDecision, acquire, release}
use async_task.Infra.Limiter.Laws.{acquire_slots, release-acquire}
use async_task.Templates.Schema.{ResolvedTemplate}
use async_task.Tasks.World.{Request, Event, create, Env, World, M, Strategy, finally, ◌>>=◌}
use async_task.Tasks.World.Actions.{
  interfere_by, interfere, load, commit, commit_with, apply, note, drop_credential, set_polls,
  enqueue, send, fetch, take_slot, give_slot,
}
use async_task.Tasks.World.Keeps.{Keeps-bind, Keeps-gets, Keeps-credential, Keeps, Respects}
use async_task.Tasks.Runtime.Keeps.{self_later-Keeps}
use async_task.Tasks.Submit.{submit_slotted}
use async_task.Tasks.Submit.Paths.{with_slot-Keeps}
use async_task.Tasks.Poll.{poll_known}
use async_task.Tasks.Poll.Keeps.{poll_with_slot-Keeps}
use async_task.Tasks.Dispatch.{dispatch_message}
use async_task.Tasks.Dispatch.Keeps.{dispatch-Keeps}

-- A property of the counters is kept by all that neither takes nor gives a slot.
module _ {P : Type 0} (env : Env P) (Q : Counts → Type 0) where
  abbrev pub OnSlots : World P → Type 0
  OnSlots w = Q w.slots

  by-OnSlots :
      (others : List (List (ℕ × Call))) (w : World P)
      → Q w.slots
      → Q (interfere_by others w).1.slots
  by-OnSlots [] w q = q
  by-OnSlots (calls ∷ rest) w q = q

  interfere-Keeps : Keeps OnSlots (interfere {P = P})
  unfolding interfere
  interfere-Keeps = record { at = λ w q. by-OnSlots w.others w q }

  with-OnSlots : (c : Call) (r : Written) (w : World P) → Q w.slots → Q (commit_with c r w).1.slots
  with-OnSlots c (ok (done, t)) w q = q
  with-OnSlots c (raised e) w q = q

  commit-Keeps : (c : Call) → Keeps OnSlots (commit {P = P} c)
  unfolding commit
  commit-Keeps c = record { at = λ w q. with-OnSlots c (perform w.clock c w.table) w q }

  note-Keeps : (e : Event) → Keeps OnSlots (note {P = P} e)
  unfolding note
  note-Keeps e = record { at = λ w q. q }

  drop-Keeps : (id : String) → Keeps OnSlots (drop_credential {P = P} id)
  unfolding drop_credential
  drop-Keeps id = record { at = λ w q. q }

  polls-Keeps : (f : P → P) → Keeps OnSlots (set_polls f)
  unfolding set_polls
  polls-Keeps f = record { at = λ w q. q }

  enqueue-Keeps :
      (queue name id : String) (attempt : Option ℕ)
      → Keeps OnSlots (enqueue env queue name id attempt)
  unfolding enqueue
  enqueue-Keeps queue name id attempt = record {
    at = λ w q. elim (Bool-cases (env.bus_full queue (length w.trace))) [
      | inl e ↦ rw e q
      | inr e ↦ rw e q
    ];
  }

  pub send-Keeps :
      (t : ResolvedTemplate) (r : Request) (c : Context) → Keeps OnSlots (send env t r c)
  unfolding send
  send-Keeps t r c = record {
    at = λ w q. elim (Bool-cases (env.renders t r)) [ inl e ↦ rw e q | inr e ↦ rw e q ];
  }

  fetch-Keeps : (url : String) → Keeps OnSlots (fetch env url)
  unfolding fetch
  fetch-Keeps url = record { at = λ w q. q }

  pub OnSlots-Respects : Respects env OnSlots
  unfolding load apply
  OnSlots-Respects = record {
    loads = λ id. Keeps-bind interfere-Keeps (λ u. Keeps-gets _);
    applies = λ c h. Keeps-bind interfere-Keeps (λ u. commit-Keeps c);
    notes = λ e h. note-Keeps e;
    drops = drop-Keeps;
    polls = polls-Keeps;
    enqueues = enqueue-Keeps;
    sends = λ t r c h. send-Keeps t r c;
    fetches = fetch-Keeps;
  }

module _ {P : Type 0} (env : Env P) (start : Counts) where
  abbrev pub Same : World P → Type 0
  Same w = (key : String) → count key w.slots ≡ count key start

  abbrev pub Same-Respects : Respects env Same
  Same-Respects = OnSlots-Respects env (λ c. (key : String) → count key c ≡ count key start)

  -- Under a slot that was granted, and with the slot given back.
  pub slotted :
      {A : Type 0} (channel tenant : String) {late : SlotDecision → M P A} {m : M P A}
      → ((d : SlotDecision) → Keeps Same (late d))
      → ((s : Counts) → Keeps (OnSlots env (λ c. c ≡ s)) m)
      → Keeps Same (
          take_slot env channel tenant >>= λ d.
          if not d.granted then late d else finally m (give_slot channel tenant))
  unfolding take_slot ◌>>=◌ finally give_slot
  slotted channel tenant {late = late} {m = m} h g = record {
    at = λ w k.
        let limits = env.channel_limits channel in
        let a = acquire channel tenant limits.0 limits.1 w.slots in
        let w' = record w { slots = a.1 } in
        elim (Bool-cases a.0.granted) [
          | inl e ↦ rw e (λ key.
              ap (λ s. count key (release channel tenant s)) ((g a.1).at w' refl)
              ∙ release-acquire channel tenant limits.0 limits.1 w.slots key e
              ∙ k key)
          | inr e ↦ rw e (
              (h a.0).at w' (λ key.
                ap (λ s. count key s) ((acquire_slots channel tenant limits.0 limits.1 w.slots).2 e)
                ∙ k key))
        ];
  }

  submits-Keeps :
      (task : Task) (t : ResolvedTemplate) (s : Strategy) (expected : List TaskStatus)
      → Keeps Same (submit_slotted env task t s expected)
  unfolding submit_slotted
  submits-Keeps task t s expected =
      slotted task.channel task.tenant (λ d. self_later-Keeps Same-Respects task.task_id _)
        (λ c.
          with_slot-Keeps (OnSlots-Respects env (λ d. d ≡ c))
            (λ t body cb x. send-Keeps env (λ d. d ≡ c) t (create body cb) x) task t s expected)

  polls_known-Keeps :
      (task : Task) (t : ResolvedTemplate) (s : Strategy) (id : String)
      → Keeps Same (poll_known env task t s id)
  unfolding poll_known
  polls_known-Keeps task t s id = Keeps-bind (Keeps-credential Same-Respects task.task_id) (λ u.
      slotted task.channel task.tenant (λ d. self_later-Keeps Same-Respects task.task_id _)
        (λ c. poll_with_slot-Keeps (OnSlots-Respects env (λ d. d ≡ c)) task t s id))

-- No message leaks a slot: after its handling every counter of the channels and tenants is as
-- before, on every path of every handler, also on those that raise.
pub dispatch_keeps_slots :
    {P : Type 0} (env : Env P) (name id key : String) (attempt : Option ℕ) (w : World P)
    → count key (dispatch_message env name id attempt w).1.slots ≡ count key w.slots
dispatch_keeps_slots env name id key attempt w =
    (dispatch-Keeps (Same-Respects env w.slots) (submits-Keeps env w.slots)
        (polls_known-Keeps env w.slots) name id attempt).at
      w (λ k. refl) key
