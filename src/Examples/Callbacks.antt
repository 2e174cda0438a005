-- ===== src/Examples/Callbacks.antt =====
-- The theorems on the signatures of callbacks and on their application at concrete inputs.
use async_task.Prelude.{true, ◌↔◌, ◌⊎◌, ◌≡◌, false, String, some, List, [], ◌∷◌, refl}
use async_task.Prelude.Text.{append, strip, eq_lower}
use async_task.Db.Json.{Json, obj, end}
use async_task.Gateway.Callbacks.{
  Inbox, orphan, unsigned, insert_callback_event, stash_orphan, key_of,
}
use async_task.Gateway.Callbacks.Signature.{CallbackAuthenticator, rotate, header_lookup, verify}
use async_task.Gateway.Callbacks.Signature.Genuine.{Genuine, accepted, verify_iff_Genuine}
use async_task.Gateway.Callbacks.Signature.Rotation.{rotate_verdict}
use async_task.Gateway.Callbacks.Endpoint.{HttpRequest, receive_request}
use async_task.Gateway.Callbacks.Endpoint.Counts.{effect_needs_signature}
use async_task.Domain.Status.{in_progress, succeeded}
use async_task.Domain.Transitions.{can_transition, is_business_terminal}
use async_task.Db.Task.{Task}
use async_task.Db.Dao.Cas.{get}
use async_task.Templates.Schema.{ResolvedTemplate, StatusSource, maps_status}
use async_task.Tasks.World.{Env, World}
use async_task.Tasks.Runtime.Exits.{Exits}
use async_task.Gateway.Callbacks.Apply.{apply_callback}
use async_task.Gateway.Callbacks.Arbitration.{callback-Arbitrated}
use async_task.Examples.Samples.{answering, created_body, new_task, rows, start, template}

abbrev authenticator : CallbackAuthenticator
authenticator = record {
  keys = ("k1", "old") ∷ [];
  active_kid = "k1";
  tolerance_seconds = 300;
  kid_header = "x-ag-kid";
  timestamp_header = "x-ag-timestamp";
  signature_header = "x-ag-signature";
}

-- In place of the digests.
abbrev hmac : String → String → String
hmac secret message = append secret message

abbrev sha : String → String
sha body = body

abbrev headers : List (String × String)
headers =
    ("X-Ag-Kid", "k1") ∷ ("X-Ag-Timestamp", " 0_1_7 ") ∷ ("X-Ag-Signature", "oldk1.17.{}") ∷ []

-- The header's number is read with its blanks, bars and zeros, and the signed one has none of them.
is_accepted : verify hmac sha authenticator 20_000_000 headers "{}" ≡ some (accepted hmac sha "k1")
unfolding verify header_lookup eq_lower strip
is_accepted = refl

verify_iff_Genuine_example :
    verify hmac sha authenticator 20_000_000 headers "{}" ≡ some (accepted hmac sha "k1")
    ↔ Genuine hmac sha authenticator 20_000_000 headers "{}" "k1"
verify_iff_Genuine_example = verify_iff_Genuine hmac sha authenticator 20_000_000 headers "{}" "k1"

-- After a rotation that does not keep the previous key.
rotate_verdict_example :
    verify hmac sha (rotate "k2" "new" false authenticator) 20_000_000 headers "{}"
    ≡ verify hmac sha (record authenticator { keys = [] }) 20_000_000 headers "{}"
unfolding header_lookup eq_lower
rotate_verdict_example =
    rotate_verdict hmac sha authenticator "k2" "new" false 20_000_000 headers "{}" {kid = "k1"} refl

abbrev request : HttpRequest
request = record { opaque_token = "nobody"; headers = headers; raw_body = "{}" }

abbrev parse : String → Json
parse body = obj end

abbrev empty : Inbox
empty = record { events = []; orphans = [] }

abbrev noted : Inbox
noted = record { events = ("unknown", "sig:-:-:{}") ∷ []; orphans = [] }

effect_needs_signature_example :
    ((orphan ≡ unsigned) × (noted ≡ empty))
    ⊎ ((kid : String) × Genuine hmac sha authenticator 20_000_000 headers "{}" kid)
unfolding receive_request eq_lower insert_callback_event stash_orphan key_of
effect_needs_signature_example =
    effect_needs_signature (answering 200 created_body) hmac sha parse authenticator 20_000_000
      request rows empty {answer = orphan} {after = noted} refl

-- Of two templates one leaves the end to the callback.
abbrev running_task : Task
running_task = record new_task { status = in_progress }

abbrev running : World (Unit {0})
running = record start { table = running_task ∷ [] }

abbrev by_callback : ResolvedTemplate
by_callback = record template { status_source = StatusSource.callback }

abbrev trusting : Env (Unit {0})
trusting = record (answering 200 created_body) { template = λ alias version. some by_callback }

callback-Arbitrated_example :
    Exits true running_task succeeded running.table
      (apply_callback trusting "t1" created_body (some "succeeded") running)
unfolding get maps_status can_transition is_business_terminal
callback-Arbitrated_example =
    callback-Arbitrated trusting running_task by_callback running {m = succeeded} created_body
      (some "succeeded") refl refl refl refl refl
