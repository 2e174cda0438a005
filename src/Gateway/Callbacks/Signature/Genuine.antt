-- ===== src/Gateway/Callbacks/Signature/Genuine.antt =====
-- Which callbacks are accepted.
use async_task.Prelude.{
  ℕ, ◌+◌, ◌*◌, Bool, true, false, ◌||◌, String, eq_iff, Option, none, some, List, ltb, ◌≡◌, ◌≢◌,
  ◌↔◌, arith, refl, ap, ◌∙◌, subst, if◌then◌else◌,
}
use async_task.Prelude.Text.{is_empty}
use async_task.Gateway.Callbacks.Signature.{
  CallbackAuthenticator, CallbackVerifyResult, header_lookup, key_of_kid, int_of, skew, overflows,
  is_ascii, sign, check_headers, check_kid, check_timestamp, check_window, compare_signature,
  verify,
}

module _ (hmac : String → String → String) (sha : String → String) where
  -- A callback that is what it claims to be.
  pub record Genuine (a : CallbackAuthenticator) (now : ℕ) (headers : List (String × String))
      (raw_body kid : String) : Type 0 where
    pub ts_raw : String
    pub sig : String
    pub secret : String
    pub timestamp : Bool × String
    pub has_kid : header_lookup headers a.kid_header ≡ some kid
    pub has_timestamp : header_lookup headers a.timestamp_header ≡ some ts_raw
    pub has_signature : header_lookup headers a.signature_header ≡ some sig
    pub not_empty : (is_empty kid || (is_empty ts_raw || is_empty sig)) ≡ false
    pub is_known : key_of_kid kid a.keys ≡ some secret
    pub is_number : int_of ts_raw ≡ some timestamp
    pub is_float : overflows timestamp ≡ false
    pub is_fresh : ltb (a.tolerance_seconds * 1_000_000 + 1_000_000) (skew now timestamp) ≡ false
    pub is_plain : is_ascii sig ≡ true
    pub is_signed : sign hmac sha kid secret timestamp raw_body ≡ sig

  abbrev pub accepted : String → CallbackVerifyResult
  accepted kid = record { ok = true; kid = some kid; reason = none; replay_suspect = false }

  past :
      (b : Bool) {x y v : Option CallbackVerifyResult}
      → x ≢ v
      → (if b then x else y) ≡ v
      → (b ≡ false) × (y ≡ v)
  past true n h = absurd (n h)
  past false n h = (refl, h)

  compare_signature-accepted :
      (kid expected sig k : String)
      → compare_signature hmac sha kid expected sig ≡ some (accepted k)
      → (is_ascii sig ≡ true) × ((expected ≡ sig) × (kid ≡ k))
  compare_signature-accepted kid expected sig k h = ground (arith, eq_iff expected sig)

  check_window-accepted :
      (a : CallbackAuthenticator) (now : ℕ) (kid secret : String) (ts : Bool × String)
      (raw_body sig k : String)
      → check_window hmac sha a now kid secret ts raw_body sig ≡ some (accepted k)
      → (overflows ts ≡ false)
        × ((ltb (a.tolerance_seconds * 1_000_000 + 1_000_000) (skew now ts) ≡ false)
            × (compare_signature hmac sha kid (sign hmac sha kid secret ts raw_body) sig
                ≡ some (accepted k)))
  check_window-accepted a now kid secret ts raw_body sig k h =
      let p = past (overflows ts) (λ e. cc e) h in
      (
        p.0,
        past (ltb (a.tolerance_seconds * 1_000_000 + 1_000_000) (skew now ts)) (λ e. cc e) (p.1),
      )

  check_timestamp-accepted :
      (a : CallbackAuthenticator) (now : ℕ) (kid secret : String) (ts : Option (Bool × String))
      (raw_body sig k : String)
      → check_timestamp hmac sha a now kid secret ts raw_body sig ≡ some (accepted k)
      → (t : Bool × String) × (ts ≡ some t)
        × (check_window hmac sha a now kid secret t raw_body sig ≡ some (accepted k))
  check_timestamp-accepted a now kid secret none raw_body sig k h = absurd (cc h)
  check_timestamp-accepted a now kid secret (some t) raw_body sig k h = (t, refl, h)

  check_kid-accepted :
      (a : CallbackAuthenticator) (now : ℕ) (kid : String) (key : Option String)
      (ts_raw raw_body sig k : String)
      → check_kid hmac sha a now kid key ts_raw raw_body sig ≡ some (accepted k)
      → (secret : String) × (key ≡ some secret)
        × (check_timestamp hmac sha a now kid secret (int_of ts_raw) raw_body sig
            ≡ some (accepted k))
  check_kid-accepted a now kid none ts_raw raw_body sig k h = absurd (cc h)
  check_kid-accepted a now kid (some secret) ts_raw raw_body sig k h = (secret, refl, h)

  verify-Genuine :
      (a : CallbackAuthenticator) (now : ℕ) (headers : List (String × String)) (raw_body k : String)
      (kid ts sig : Option String)
      → header_lookup headers a.kid_header ≡ kid
      → header_lookup headers a.timestamp_header ≡ ts
      → header_lookup headers a.signature_header ≡ sig
      → check_headers hmac sha a now raw_body kid ts sig ≡ some (accepted k)
      → Genuine a now headers raw_body k
  verify-Genuine a now headers raw_body k none ts sig p q r h = absurd (cc h)
  verify-Genuine a now headers raw_body k (some kid) none sig p q r h = absurd (cc h)
  verify-Genuine a now headers raw_body k (some kid) (some ts) none p q r h = absurd (cc h)
  verify-Genuine a now headers raw_body k (some kid) (some ts) (some sig) p q r h =
      let past_empty = past (is_empty kid || (is_empty ts || is_empty sig)) (λ e. cc e) h in
      let (secret, known, at_time) =
        check_kid-accepted a now kid (key_of_kid kid a.keys) ts raw_body sig k (past_empty.1) in
      let (t, number, in_window) =
        check_timestamp-accepted a now kid secret (int_of ts) raw_body sig k at_time in
      let past_window = check_window-accepted a now kid secret t raw_body sig k in_window in
      let compared =
        compare_signature-accepted kid (sign hmac sha kid secret t raw_body) sig k
          (past_window.1.1) in
      let same = compared.1.1 in
      record {
        ts_raw = ts;
        sig = sig;
        secret = secret;
        timestamp = t;
        has_kid = p ∙ ap some same;
        has_timestamp = q;
        has_signature = r;
        not_empty =
            subst (λ x. (is_empty x || (is_empty ts || is_empty sig)) ≡ false) same (past_empty.0);
        is_known = subst (λ x. key_of_kid x a.keys ≡ some secret) same known;
        is_number = number;
        is_float = past_window.0;
        is_fresh = past_window.1.0;
        is_plain = compared.0;
        is_signed = subst (λ x. sign hmac sha x secret t raw_body ≡ sig) same (compared.1.0);
      }

  -- A callback is accepted under a key where it is genuine, and only there: its three headers are
  -- given, the key is known, the timestamp is a number within the tolerance of now and a second more, and the
  -- signature is the one that the key's secret gives for the body.
  pub verify_iff_Genuine :
      (a : CallbackAuthenticator) (now : ℕ) (headers : List (String × String))
      (raw_body kid : String)
      → verify hmac sha a now headers raw_body ≡ some (accepted kid)
        ↔ Genuine a now headers raw_body kid
  unfolding verify
  verify_iff_Genuine a now headers raw_body kid = (
    verify-Genuine a now headers raw_body kid _ _ _ refl refl refl,
    λ g. rw (
      g.has_kid,
      g.has_timestamp,
      g.has_signature,
      g.not_empty,
      g.is_known,
      g.is_number,
      g.is_float,
      g.is_fresh,
      g.is_plain,
      (eq_iff _ g.sig).1 g.is_signed,
    ),
  )
