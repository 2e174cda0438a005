-- ===== src/Gateway/Callbacks/Endpoint.antt =====
-- src/async_gateway/gateway/routes.py, `receive_callback` from the request on: the signature is
-- checked, and what the request says is handed to Gateway.Callbacks. `parse` is `_safe_json`.
pub mod Counts
use Prim.Native.String
use async_task.Prelude.{ℕ, Bool, String, Option, none, some, List}
use async_task.Prelude.Text.{truncate}
use async_task.Db.Json.{Json}
use async_task.Db.Task.{Table}
use async_task.Tasks.World.{Env}
use async_task.Gateway.Callbacks.{Delivery, Inbox, Answer, receive_callback}
use async_task.Gateway.Callbacks.Signature.{
  CallbackAuthenticator, CallbackVerifyResult, header_lookup, verify,
}

pub record HttpRequest : Type 0 where
  pub opaque_token : String
  pub headers : List (String × String)
  pub raw_body : String

module _ {P : Type 0} (env : Env P) (hmac : String → String → String) (sha : String → String)
    (parse : String → Json) where
  abbrev pub delivery_of : Bool → HttpRequest → Delivery
  delivery_of ok r = record {
    verified = ok;
    token = r.opaque_token;
    event_id = header_lookup r.headers "x-ag-event-id";
    upstream_header = header_lookup r.headers "x-ag-upstream-id";
    channel_header = header_lookup r.headers "x-ag-channel";
    payload = parse r.raw_body;
    digest = truncate 32 (sha r.raw_body);
  }

  abbrev pub answer_verified :
      HttpRequest → Table → Inbox → Option CallbackVerifyResult → Option (Answer × Inbox)
  answer_verified r t b none = none
  answer_verified r t b (some v) = some (receive_callback env (delivery_of v.ok r) t b)

  -- An exception of the check leaves the endpoint.
  unfoldable pub receive_request :
      CallbackAuthenticator → ℕ → HttpRequest → Table → Inbox → Option (Answer × Inbox)
  unfolding verify header_lookup truncate receive_callback
  receive_request a now r t b = answer_verified r t b (verify hmac sha a now r.headers r.raw_body)
