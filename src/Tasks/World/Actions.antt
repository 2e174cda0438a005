-- ===== src/Tasks/World/Actions.antt =====
-- The accesses of a handler to the table, the bus, the wire, the slots and the stores.
use async_task.Prelude.{
  ℕ, Bool, String, str_eq, Option, none, some, List, [], ◌∷◌, length, if◌then◌else◌,
}
use async_task.Domain.Backoff.{backoff_seconds}
use async_task.Domain.Errors.{Context}
use async_task.Outcome.{queue_saturated, render_error, ok, raised}
use async_task.Db.Task.{Task}
use async_task.Db.Dao.Cas
use async_task.Db.Dao.Calls.{Call, perform, run}
use async_task.Db.Dao.Cas.{Written}
use async_task.Infra.Limiter
use async_task.Infra.Limiter.{SlotDecision}
use async_task.Templates.Schema.{ResolvedTemplate}
use async_task.Upstream.{UpstreamCallResult, call_result}
use async_task.Tasks.World.{
  FetchResult, fetched, Request, Event, wrote, requested, enqueued, dropped_credential, AuditKind,
  Env, M, gets, ◌>>◌,
}

-- The first entry under a key, and the entries without it.
unfoldable pub find : String → List (String × String) → Option String
find key [] = none
find key ((k, v) ∷ rest) = if str_eq k key then some v else find key rest

unfoldable pub without : String → List (String × String) → List (String × String)
without key [] = []
without key ((k, v) ∷ rest) =
    let others = without key rest in if str_eq k key then others else (k, v) ∷ others

module _ {P : Type 0} where
  -- What others do to the table before this access.
  abbrev pub interfere_by : List (List (ℕ × Call)) → M P (Unit {0})
  interfere_by [] w = (ok tt, w)
  interfere_by (calls ∷ rest) w = (ok tt, record w { table = run calls w.table; others = rest })

  unfoldable pub interfere : M P (Unit {0})
  interfere w = interfere_by w.others w

  unfoldable pub note : Event → M P (Unit {0})
  note e w = (ok tt, record w { trace = e ∷ w.trace })

  -- `_load`
  unfoldable pub load : String → M P (Option Task)
  load id = do interfere; gets (λ w. Cas.get id w.table)

  abbrev pub commit_with : Call → Written → M P Bool
  commit_with c (ok (done, t)) w = (ok done, record w { table = t; trace = wrote c done ∷ w.trace })
  commit_with c (raised e) w = (raised e, w)

  unfoldable pub commit : Call → M P Bool
  commit c w = commit_with c (perform w.clock c w.table) w

  -- `_apply`: one call of the data access object in a session of its own.
  unfoldable pub apply : Call → M P Bool
  apply c = do interfere; commit c

  unfoldable pub now : M P ℕ
  now = gets (λ w. w.clock)

  unfoldable pub audit : AuditKind → String → M P (Unit {0})
  audit kind subject = note (Event.audited kind subject)

  -- `credentials.get` and `credentials.drop`
  unfoldable pub credential : String → M P (Option String)
  credential id = gets (λ w. find id w.credentials)

  unfoldable pub drop_credential : String → M P (Unit {0})
  drop_credential id w = (
    ok tt,
    record w { credentials = without id w.credentials; trace = dropped_credential id ∷ w.trace },
  )

  -- `limiter.release`
  unfoldable pub give_slot : String → String → M P (Unit {0})
  give_slot channel tenant w = (ok tt, record w { slots = Limiter.release channel tenant w.slots })

  unfoldable pub set_polls : (P → P) → M P (Unit {0})
  set_polls f w = (ok tt, record w { polls = f w.polls })

module _ {P : Type 0} (env : Env P) where
  -- `limiter.acquire` with the channel's limits
  unfoldable pub take_slot : String → String → M P SlotDecision
  take_slot channel tenant w =
      let (channel_limit, tenant_limit) = env.channel_limits channel in
      let (d, slots') = Limiter.acquire channel tenant channel_limit tenant_limit w.slots in
      (ok d, record w { slots = slots' })

  -- `ctx.enqueue`
  unfoldable pub enqueue : String → String → String → Option ℕ → M P (Unit {0})
  enqueue queue name id attempt w =
      if env.bus_full queue (length w.trace)
      then (raised queue_saturated, w)
      else (ok tt, record w { trace = enqueued queue name id attempt ∷ w.trace })

  -- A rendering, and the call of a client with it.
  unfoldable pub send : ResolvedTemplate → Request → Context → M P UpstreamCallResult
  send template request context w =
      if env.renders template request
      then (
        ok (call_result (env.wire (length w.trace) request) context),
        record w { trace = requested request ∷ w.trace },
      )
      else (raised render_error, w)

  -- `backoff_seconds` with the default jitter of 0.2 and the next draw.
  unfoldable pub backoff : ℕ → ℕ → ℕ → M P ℕ
  backoff attempt base cap =
      gets (λ w. backoff_seconds attempt base cap 200 (env.draw (length w.trace)) env.draws)

  -- `client.fetch_result`
  unfoldable pub fetch : String → M P FetchResult
  fetch url w = (ok (env.fetch (length w.trace) url), record w { trace = fetched url ∷ w.trace })
