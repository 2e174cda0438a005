-- ===== src/Gateway/Callbacks.antt =====
-- src/async_gateway/gateway/routes.py: `receive_callback`, with the rows of the callback events and
-- the orphans of db/dao.py. Whether the signature verifies is an input, and so is the digest of the
-- raw body.
pub mod Apply
pub mod Quiet
pub mod Arbitration
pub mod Dedup
pub mod Signature
pub mod Endpoint
pub mod Keeps
use Prim.Native.String
use async_task.Prelude.{
  ℕ, Bool, true, false, not, ◌&&◌, ◌||◌, String, str_eq, Option, none, some, List, [], ◌∷◌, ◌++◌,
  any, get_or, if◌then◌else◌,
}
use async_task.Prelude.Text.{is_empty}
use async_task.Domain.Status.{TaskStatus, succeeded, timeout, failed, ErrorCode, upstream_terminal}
use async_task.Domain.Transitions.{is_business_terminal}
use async_task.Db.Json.{Json, str, obj, Fields, end, field}
use async_task.Db.Task.{Task, Table}
use async_task.Db.Assign.{
  Assign, set_raw_status, set_status_snapshot, set_status_snapshot_at, set_next_poll_at,
  set_finished_at, set_error_code,
}
use async_task.Db.Dao.Calls.{Call}
use async_task.Templates.Expression.{JsonPath, try_extract}
use async_task.Templates.Schema.{ResolvedTemplate, StatusSource, poll, callback, maps_status}
use async_task.Tasks.World.{AuditKind, callback_event, Env, M, pure, gets, ◌>>=◌, ◌>>◌}
use async_task.Tasks.World.Actions.{load, apply, audit, now}
use async_task.Tasks.Store.{finalize_task}
use async_task.Gateway.Submission.{status_value}

-- `x or default` on an optional text
abbrev pub text_or : Option String → Option String → Option String
text_or none d = d
text_or (some s) d = if is_empty s then d else some s

abbrev pub or_dash : Option String → String
or_dash o = get_or (text_or o none) "-"

abbrev pub concat : List String → String
concat [] = ""
concat (s ∷ rest) = String.◌++◌ s (concat rest)

unfoldable pub callback_dedup_key : Option String → Option String → Option String → String → String
callback_dedup_key event upstream raw digest = elim (text_or event none) [
  | some e ↦ concat ("evt:" ∷ e ∷ [])
  | none ↦ concat ("sig:" ∷ or_dash upstream ∷ ":" ∷ or_dash raw ∷ ":" ∷ digest ∷ [])
]

-- What arrives at the endpoint.
pub record Delivery : Type 0 where
  pub verified : Bool
  pub token : String
  pub event_id : Option String
  pub upstream_header : Option String
  pub channel_header : Option String
  pub payload : Json
  pub digest : String

-- The callback events, of whose rows the channel and the key are kept here, and the orphans, of whose
-- rows the channel, the id and the status are kept.
pub record Inbox : Type 0 where
  pub events : List (String × String)
  pub orphans : List (String × String × Option String)

unfoldable pub find_by_callback_token : String → Table → Option Task
find_by_callback_token token [] = none
find_by_callback_token token (r ∷ t) =
    let later = find_by_callback_token token t in
    elim r.callback_token [ none ↦ later | some k ↦ if str_eq k token then some r else later ]

-- `dedup_key` alone is unique, for all channels together.
abbrev pub same_event : String → String × String → Bool
same_event key e = str_eq e.1 key

-- Whether the event is new.
unfoldable pub insert_callback_event : String → String → Inbox → Bool × Inbox
insert_callback_event channel key b =
    if any (same_event key) b.events
    then (false, b)
    else (true, record b { events = b.events ++ (channel, key) ∷ [] })

unfoldable pub stash_orphan : String → Option String → Option String → Inbox → Inbox
stash_orphan channel none raw b = b
stash_orphan channel (some id) raw b =
    if is_empty id then b else record b { orphans = b.orphans ++ (channel, id, raw) ∷ [] }

-- What the endpoint does: `apply_to` is followed by `_apply_callback`.
pub data Answer : Type 0 where
  unsigned : Answer
  duplicate : Answer
  orphan : Answer
  apply_to : Task → Option String → Answer

abbrev pub as_object : Json → Json
as_object (obj d) = obj d
as_object _ = obj end

abbrev pub channel_of : Option Task → Delivery → String
channel_of none d = get_or (text_or d.channel_header none) "unknown"
channel_of (some task) d = task.channel

module _ {P : Type 0} (env : Env P) where
  abbrev pub template_of_task : Option Task → Option ResolvedTemplate
  template_of_task none = none
  template_of_task (some task) =
      if is_empty task.template_alias
      then none
      else env.template task.template_alias task.template_version

  abbrev pub status_template : Option Task → Option ResolvedTemplate
  status_template none = none
  status_template (some task) = env.template task.template_alias task.template_version

  abbrev pub extract_text : Option JsonPath → Json → Option String
  extract_text none payload = none
  extract_text (some path) payload =
      elim (try_extract env.dump_size env.late path (as_object payload)) [
        | none ↦ none
        | some v ↦ some (env.py_str v)
      ]

  abbrev id_path : Option ResolvedTemplate → Option JsonPath
  id_path none = none
  id_path (some t) = some t.id_location

  abbrev status_path : Option ResolvedTemplate → Option JsonPath
  status_path none = none
  status_path (some t) = some t.status_field

  abbrev pub upstream_of : Option Task → Delivery → Option String
  upstream_of task d =
      text_or (extract_text (id_path (template_of_task task)) d.payload) d.upstream_header

  abbrev pub raw_of : Option Task → Delivery → Option String
  raw_of task d = extract_text (status_path (status_template task)) d.payload

  -- The key under which a delivery is noted.
  unfoldable pub key_of : Option Task → Delivery → String
  unfolding callback_dedup_key
  key_of task d = callback_dedup_key d.event_id (upstream_of task d) (raw_of task d) d.digest

  abbrev pub settle_event : Option Task → Delivery → Bool × Inbox → Answer × Inbox
  settle_event task d (false, b) = (duplicate, b)
  settle_event none d (true, b) =
      (orphan, stash_orphan (channel_of none d) (upstream_of none d) (raw_of none d) b)
  settle_event (some task) d (true, b) = (apply_to task (raw_of (some task) d), b)

  abbrev pub receive_verified : Option Task → Delivery → Inbox → Answer × Inbox
  receive_verified task d b =
      settle_event task d (insert_callback_event (channel_of task d) (key_of task d) b)

  unfoldable pub receive_callback : Delivery → Table → Inbox → Answer × Inbox
  unfolding find_by_callback_token
  receive_callback d t b =
      if d.verified then receive_verified (find_by_callback_token d.token t) d b else (unsigned, b)
