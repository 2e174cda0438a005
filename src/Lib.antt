-- ===== src/Lib.antt =====
-- The asynchronous task gateway: a client hands in a task, the gateway asks an upstream service to
-- create it, polls it, stores its result and answers queries. This library models what decides the
-- fate of a task, from src/async_gateway, and proves what makes it correct.
--
-- The parts, and the files that model them:
--   domain/enums.py, state_machine.py, errors.py: Domain.Status, Domain.Transitions (the whitelist
--     of transitions, and its chains in Transitions.Paths), Domain.Errors, Domain.Backoff.
--   db/models.py, db/dao.py: Db.Task is the row, Db.Assign the values of an UPDATE, Db.Dao.Cas
--     `_cas` and `advance`, Db.Dao.Writes the other methods that write, Db.Dao.Queries the queries
--     of the workers. Db.Dao.Calls makes a call of a method a value, so that a history of a table
--     is a list of calls.
--   infra/concurrency.py, infra/polling.py: Infra.Limiter and its Redis scripts, Infra.Polling.
--   templates/expression.py, templates/schema.py: Templates.Expression, with the compiler of path
--     texts in Expression.Compile, and Templates.Schema, what the handlers read of a template;
--     Templates.Resolved is the template with all its fields.
--   templates/registry.py, validator.py, render.py, security/sanitize.py: Templates.Registry, with
--     `classify_change` in Templates.Changes, Templates.Validator and Templates.Render.
--   upstream/client.py: Upstream, the outcome of a call.
--   tasks/handlers.py, tasks/queues.py: Tasks.Submit, Poll, Compensate, Cancel and Store are the
--     handlers, Tasks.Runtime is what they share, Tasks.Dispatch is `dispatch_message`.
--   workers/scheduler.py, workers/inspector.py: Workers.Scheduler, Workers.Inspector,
--     Workers.Unknowns (`bound_unknowns`) and Workers.Tick (`run_tick`).
--   gateway/accept.py: Gateway.Submission and Gateway.Accept, the acceptance of a task that is
--     queued, with the unique constraints of the table in Db.Dao.Inserts; Gateway.Inline, the submit
--     within the request, in the world of the handlers; Infra.AcceptLimiter is the token bucket.
--   gateway/idempotency.py: Gateway.Idempotency, the keys, digests and windows.
--   gateway/output.py: Gateway.Output, the writing by a path, and Gateway.Native, the answer to a
--     query in the shape of the upstream, with two functions of templates/derive.py;
--     Gateway.Envelope, what goes with it to the gateway's own callers.
--   gateway/routing.py: Gateway.Routing. gateway/routes.py: Gateway.Callbacks, the endpoint of the
--     callbacks, Callbacks.Apply, what they do, and Callbacks.Arbitration, who ends a task.
--     security/callback_auth.py: the key of an event is in Gateway.Callbacks, the check of a
--     signature in Callbacks.Signature; Callbacks.Endpoint puts the two together.
--   bus/memory.py, workers/worker.py: Bus.Memory, the bus within the process, and Workers.Consumer,
--     the loop that takes messages from it and hands them to the handlers.
--   db/audit.py: Db.Audit, the chain of hashes over the audit events.
-- Examples runs the theorems on concrete inputs. Prelude and Outcome hold what the parts share.
--
-- How they interact: the acceptance inserts a row and puts its first message on the bus. A worker
-- takes a message and runs a handler, which reads the row, may take a slot, wins the submit intent
-- by an UPDATE with a condition, calls the upstream and writes the outcome by such an UPDATE. The
-- scheduler leases each due row and puts its next message on the bus; the inspector moves rows that
-- got stuck. The table is all that they share but for the slots and the polling statistics. A callback
-- of the upstream moves a task, or only brings its next poll forward; a query reads the row.
--
-- The world (Tasks.World) of a handler has the table, the clock, the credentials, the slots, the
-- polling statistics and a trace of what was sent. A handler is no transaction: at each access to
-- the table the world first runs the next list of calls that other workers make, which is any list
-- of calls. A session of the scheduler or the inspector is one transaction, rolled back when an
-- exception leaves it (Workers.Session). The clock stands still within one handler or session.
--
-- Numbers: instants and durations are in microseconds, ratios in thousandths or millionths rounded
-- down, where the source has floats. Integers are natural numbers, and a difference that the source
-- cuts off at 0 is the subtraction that stops at 0; the numbers and instants in a JSON value are
-- natural numbers. The loops run over lists or texts; only the compiler of path texts runs on
-- fuel, the length of the text, which is enough since each step takes a character of it.
--
-- Not modelled: what is a library's or the network's enters as a parameter (Tasks.World.Env: the
-- wire, the bus as the handlers see it, the random draws, the templates, the request store, the
-- fetching of results; for the rest SHA-256, HMAC, the printing of JSON, what pydantic reads and
-- dumps). Within one session of the scheduler or the inspector no other writer acts, while the
-- source runs at the database's default isolation. The constraints of the table are those of
-- db/models.py, not those of scripts/partition_async_task.sql. Logs and metrics are left out, and so
-- are the expiry of Redis keys, the bus and the polling statistics over Redis, the resolution of a
-- template draft with its platform patches, which the registry takes as a parameter, the other HTTP
-- routes, the check of the addresses of requests, and the admin interface.
pub mod Prelude
pub mod Outcome
pub mod Domain
pub mod Db
pub mod Infra
pub mod Templates
pub mod Upstream
pub mod Tasks
pub mod Bus
pub mod Gateway
pub mod Workers
pub mod Examples
