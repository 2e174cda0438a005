-- ===== src/Gateway/Callbacks/Endpoint/Counts.antt =====
-- Which requests count.
use async_task.Prelude.{
  ℕ, ◌||◌, Bool, true, false, not, String, str_eq, Option, none, some, List, ◌≡◌, ◌⊎◌, refl, sym,
  ap, ◌∙◌, inl, inr, ltb, ◌*◌, ◌+◌, Option-cases, Bool-cases, if◌then◌else◌,
}
use mathlib.Core.Option.{some-injective}
use async_task.Prelude.Text.{is_empty}
use async_task.Db.Json.{Json}
use async_task.Db.Task.{Table}
use async_task.Tasks.World.{Env}
use async_task.Gateway.Callbacks.{Inbox, Answer, unsigned, receive_callback}
use async_task.Gateway.Callbacks.Signature.{
  CallbackAuthenticator, CallbackVerifyResult, key_of_kid, skew, overflows, is_ascii, sign,
  check_headers, check_kid, check_timestamp, compare_signature, verify,
}
use async_task.Gateway.Callbacks.Signature.Integers.{int_of}
use async_task.Gateway.Callbacks.Signature.Genuine.{Genuine, accepted, verify_iff_Genuine}
use async_task.Gateway.Callbacks.Endpoint.{HttpRequest, receive_request}

module _ (hmac : String → String → String) (sha : String → String) where
  -- A good verdict is one on a key.
  record OnKey (v : Option CallbackVerifyResult) : Type 0 where
    on_key :
        (x : CallbackVerifyResult)
        → v ≡ some x
        → x.ok ≡ true
        → (kid : String) × (x ≡ accepted hmac sha kid)

  none-OnKey : OnKey none
  none-OnKey = record { on_key = λ x e h. absurd (cc e) }

  bad-OnKey : {v : CallbackVerifyResult} → v.ok ≡ false → OnKey (some v)
  bad-OnKey n = record {
    on_key = λ x e h. absurd (cc (n, ap (λ y. y.ok) (some-injective _ _ e), h));
  }

  if-OnKey :
      (b : Bool) {x y : Option CallbackVerifyResult}
      → OnKey x
      → OnKey y
      → OnKey (if b then x else y)
  if-OnKey true h k = h
  if-OnKey false h k = k

  compare-OnKey : (kid expected sig : String) → OnKey (compare_signature hmac sha kid expected sig)
  compare-OnKey kid expected sig = if-OnKey (not (is_ascii sig)) none-OnKey (
      if-OnKey (str_eq expected sig)
        (record { on_key = λ x e h. (kid, sym (some-injective _ _ e)) }) (bad-OnKey refl))

  kid-OnKey :
      (a : CallbackAuthenticator) (now : ℕ) (kid : String) (key : Option String)
      (ts_raw raw_body sig : String)
      → OnKey (check_kid hmac sha a now kid key ts_raw raw_body sig)
  kid-OnKey a now kid none ts_raw raw_body sig = bad-OnKey refl
  kid-OnKey a now kid (some secret) ts_raw raw_body sig = in_time (int_of ts_raw)
    where
      in_time :
          (ts : Option (Bool × String))
          → OnKey (check_timestamp hmac sha a now kid secret ts raw_body sig)
      in_time none = bad-OnKey refl
      in_time (some t) = if-OnKey (overflows t) none-OnKey (
          if-OnKey (ltb (a.tolerance_seconds * 1_000_000 + 1_000_000) (skew now t)) (bad-OnKey refl)
            (compare-OnKey kid (sign hmac sha kid secret t raw_body) sig))

  headers-OnKey :
      (a : CallbackAuthenticator) (now : ℕ) (raw_body : String) (kid ts sig : Option String)
      → OnKey (check_headers hmac sha a now raw_body kid ts sig)
  headers-OnKey a now raw_body none ts sig = bad-OnKey refl
  headers-OnKey a now raw_body (some kid) none sig = bad-OnKey refl
  headers-OnKey a now raw_body (some kid) (some ts) none = bad-OnKey refl
  headers-OnKey a now raw_body (some kid) (some ts) (some sig) =
      if-OnKey (is_empty kid || (is_empty ts || is_empty sig)) (bad-OnKey refl)
        (kid-OnKey a now kid (key_of_kid kid a.keys) ts raw_body sig)

  verify-OnKey :
      (a : CallbackAuthenticator) (now : ℕ) (headers : List (String × String)) (raw_body : String)
      → OnKey (verify hmac sha a now headers raw_body)
  unfolding verify
  verify-OnKey a now headers raw_body = headers-OnKey a now raw_body _ _ _

module _ {P : Type 0} (env : Env P) (hmac : String → String → String) (sha : String → String)
    (parse : String → Json) where
  -- A request to the endpoint of the callbacks that is answered has no effect, or it is genuine under
  -- a key that is known: without the key's secret no event is recorded, no orphan is stashed and no
  -- callback is applied.
  pub effect_needs_signature :
      (a : CallbackAuthenticator) (now : ℕ) (r : HttpRequest) (t : Table) (b : Inbox)
      {answer : Answer} {after : Inbox}
      → receive_request env hmac sha parse a now r t b ≡ some (answer, after)
      → ((answer ≡ unsigned) × (after ≡ b))
        ⊎ ((kid : String) × Genuine hmac sha a now r.headers r.raw_body kid)
  unfolding receive_request receive_callback
  effect_needs_signature a now r t b {answer} {after} h =
      elim (Option-cases (verify hmac sha a now r.headers r.raw_body)) [
        | inl e ↦ absurd (cc (rw e at h))
        | inr (v, e) ↦ elim (Bool-cases v.ok) [
          | inl good ↦
              let (kid, same) =
                (verify-OnKey hmac sha a now r.headers r.raw_body).on_key v e good in
              inr (
                kid,
                (verify_iff_Genuine hmac sha a now r.headers r.raw_body kid).0 (e ∙ ap some same),
              )
          | inr bad ↦
              let answered = some-injective _ _ (rw (e, bad) at h) in
              inl (sym (ap (λ p. p.0) answered), sym (ap (λ p. p.1) answered))
        ]
      ]
