-- ===== src/Tasks/Dispatch/Paid.antt =====
-- The creates that a handler asks for, paid for by the submit intents that it wins: what every
-- action but a create keeps.
use async_task.Prelude.{
  if◌then◌else◌, ℕ, ◌+◌, ◌≤◌, Bool, true, false, String, Option, List, [], ◌∷◌, ◌≡◌, Bool-cases,
  inl, inr, length, arith,
}
use async_task.Domain.Errors.{Context}
use async_task.Outcome.{ok, raised}
use async_task.Db.Dao.Cas.{Written}
use async_task.Db.Dao.Calls.{Call, perform}
use async_task.Templates.Schema.{ResolvedTemplate}
use async_task.Tasks.World.{Request, Event, wrote, requested, Env, World}
use async_task.Tasks.World.Actions.{
  interfere_by, interfere, load, commit, commit_with, apply, note, drop_credential, set_polls,
  enqueue, send, fetch, take_slot, give_slot,
}
use async_task.Tasks.World.Keeps.{Keeps-bind, Keeps-gets, Keeps, Respects, is_create, is_record}

-- Creates that were asked for, and submit intents that were won.
abbrev pub is_ask : Event → Bool
is_ask (requested r) = is_create r
is_ask _ = false

abbrev pub is_win : Event → Bool
is_win (wrote (Call.mark_submit_intent id) won) = won
is_win _ = false

abbrev pub tally : (Event → Bool) → List Event → ℕ
tally p [] = 0
tally p (e ∷ es) = let n = tally p es in if p e then n + 1 else n

module _ {P : Type 0} (env : Env P) (start : World P) (credit : ℕ) where
  -- `credit` creates are still allowed.
  abbrev pub Paid : World P → Type 0
  Paid w =
      (tally is_ask w.trace + credit) + tally is_win start.trace
      ≤ tally is_win w.trace + tally is_ask start.trace

  by-Paid :
      (others : List (List (ℕ × Call))) (w : World P) → Paid w → Paid (interfere_by others w).1
  by-Paid [] w q = q
  by-Paid (calls ∷ rest) w q = q

  interfere-Keeps : Keeps Paid (interfere {P = P})
  unfolding interfere
  interfere-Keeps = record { at = λ w q. by-Paid w.others w q }

  with-Paid : (c : Call) (r : Written) (w : World P) → Paid w → Paid (commit_with c r w).1
  with-Paid c (ok (done, t)) w q = ground (arith, q)
  with-Paid c (raised e) w q = q

  commit-Keeps : (c : Call) → Keeps Paid (commit {P = P} c)
  unfolding commit
  commit-Keeps c = record { at = λ w q. with-Paid c (perform w.clock c w.table) w q }

  apply-Keeps : (c : Call) → Keeps Paid (apply {P = P} c)
  unfolding apply
  apply-Keeps c = Keeps-bind interfere-Keeps (λ u. commit-Keeps c)

  note-Keeps : (e : Event) → is_record e ≡ true → Keeps Paid (note {P = P} e)
  unfolding note
  note-Keeps (Event.audited kind subject) h = record { at = λ w q. q }
  note-Keeps (Event.archived key body) h = record { at = λ w q. q }
  note-Keeps (Event.stored key) h = record { at = λ w q. q }
  note-Keeps (Event.wrote c b) h = cc
  note-Keeps (Event.requested r) h = cc
  note-Keeps (Event.enqueued queue name id attempt) h = cc
  note-Keeps (Event.dropped_credential id) h = cc
  note-Keeps (Event.fetched url) h = cc

  drop-Keeps : (id : String) → Keeps Paid (drop_credential {P = P} id)
  unfolding drop_credential
  drop-Keeps id = record { at = λ w q. q }

  polls-Keeps : (f : P → P) → Keeps Paid (set_polls f)
  unfolding set_polls
  polls-Keeps f = record { at = λ w q. q }

  enqueue-Keeps :
      (queue name id : String) (attempt : Option ℕ) → Keeps Paid (enqueue env queue name id attempt)
  unfolding enqueue
  enqueue-Keeps queue name id attempt = record {
    at = λ w q. elim (Bool-cases (env.bus_full queue (length w.trace))) [
      | inl e ↦ rw e q
      | inr e ↦ rw e q
    ];
  }

  send-Keeps :
      (t : ResolvedTemplate) (r : Request) (c : Context)
      → is_create r ≡ false
      → Keeps Paid (send env t r c)
  unfolding send
  send-Keeps t r c h = record {
    at = λ w q. elim (Bool-cases (env.renders t r)) [ inl e ↦ rw (e, h) q | inr e ↦ rw e q ];
  }

  fetch-Keeps : (url : String) → Keeps Paid (fetch env url)
  unfolding fetch
  fetch-Keeps url = record { at = λ w q. q }

  pub take-Keeps : (channel tenant : String) → Keeps Paid (take_slot env channel tenant)
  unfolding take_slot
  take-Keeps channel tenant = record { at = λ w q. q }

  pub give-Keeps : (channel tenant : String) → Keeps Paid (give_slot {P = P} channel tenant)
  unfolding give_slot
  give-Keeps channel tenant = record { at = λ w q. q }

  pub Paid-Respects : Respects env Paid
  unfolding load
  Paid-Respects = record {
    loads = λ id. Keeps-bind interfere-Keeps (λ u. Keeps-gets _);
    applies = λ c h. apply-Keeps c;
    notes = note-Keeps;
    drops = drop-Keeps;
    polls = polls-Keeps;
    enqueues = enqueue-Keeps;
    sends = send-Keeps;
    fetches = fetch-Keeps;
  }
