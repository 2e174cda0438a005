-- ===== src/Gateway/Callbacks/Signature.antt =====
-- src/async_gateway/security/callback_auth.py: the check of a callback's signature and the rotation
-- of the keys. `hmac` and `sha` are the hex digests of HMAC-SHA-256 and SHA-256; instants are in
-- microseconds, the tolerance in seconds.
pub mod Integers
pub mod Genuine
pub mod Rotation
use Prim.Native.Char.{Char, code}
use Prim.Native.String
use async_task.Prelude.{
  ℕ, ◌+◌, ◌-◌, ◌*◌, ◌^◌, Bool, true, false, not, ◌&&◌, ◌||◌, String, str_eq, Option, none, some,
  List, [], ◌∷◌, leb, ltb, ◌==◌, if◌then◌else◌,
}
use async_task.Prelude.Text.{append, is_empty, eq_lower}
use async_task.Gateway.Callbacks.Signature.Integers.{int_of, value_of, printed}

pub record CallbackAuthenticator : Type 0 where
  pub keys : List (String × String)
  pub active_kid : String
  pub tolerance_seconds : ℕ
  pub kid_header : String
  pub timestamp_header : String
  pub signature_header : String

-- Why a callback is refused.
pub data Reason : Type 0 where
  missing_headers unknown_kid not_an_integer outside_window mismatch : Reason

pub record CallbackVerifyResult : Type 0 where
  pub ok : Bool
  pub kid : Option String
  pub reason : Option Reason
  pub replay_suspect : Bool

unfoldable pub header_lookup : List (String × String) → String → Option String
header_lookup [] name = none
header_lookup ((k, v) ∷ rest) name = if eq_lower k name then some v else header_lookup rest name

-- `self.keys[kid]`
unfoldable pub key_of_kid : String → List (String × String) → Option String
key_of_kid kid [] = none
key_of_kid kid ((k, secret) ∷ rest) = if str_eq k kid then some secret else key_of_kid kid rest

-- `self.keys[kid] = secret`
unfoldable pub put_key : String → String → List (String × String) → List (String × String)
put_key kid secret [] = (kid, secret) ∷ []
put_key kid secret ((k, old) ∷ rest) =
    if str_eq k kid then (k, secret) ∷ rest else (k, old) ∷ put_key kid secret rest

-- The keys but the others.
unfoldable pub only_key : String → List (String × String) → List (String × String)
only_key kid [] = []
only_key kid ((k, secret) ∷ rest) =
    let kept = only_key kid rest in if str_eq k kid then (k, secret) ∷ kept else kept

unfoldable pub rotate : String → String → Bool → CallbackAuthenticator → CallbackAuthenticator
unfolding put_key only_key
rotate new_kid new_secret keep_previous a =
    let keys = put_key new_kid new_secret a.keys in
    record a { keys = if keep_previous then keys else only_key new_kid keys; active_kid = new_kid }

-- `abs(current - timestamp)`
unfoldable pub skew : ℕ → Bool × String → ℕ
unfolding value_of
skew now (negative, digits) =
    let at = value_of 0 digits * 1_000_000 in
    if negative then now + at else (if leb at now then now - at else at - now)

-- A float has no place for the number.
abbrev pub overflows : Bool × String → Bool
overflows (negative, digits) = leb (2 ^ 1024 - 2 ^ 970) (value_of 0 digits)

abbrev pub is_ascii : String → Bool
is_ascii String.[] = true
is_ascii (String.◌∷◌ c s) = ltb (code c) 128 && is_ascii s

abbrev pub refuse : Option String → Reason → CallbackVerifyResult
refuse kid why = record { ok = false; kid = kid; reason = some why; replay_suspect = false }

module _ (hmac : String → String → String) (sha : String → String) where
  -- `sign`
  unfoldable pub sign : String → String → Bool × String → String → String
  unfolding printed
  sign kid secret timestamp raw_body =
      hmac secret (append kid (append "." (append (printed timestamp) (append "." (sha raw_body)))))

  -- The comparison of the signatures; it raises where the one that is given is not ASCII.
  abbrev pub compare_signature : String → String → String → Option CallbackVerifyResult
  compare_signature kid expected sig =
      if not (is_ascii sig)
      then none
      else if str_eq expected sig
      then some (record { ok = true; kid = some kid; reason = none; replay_suspect = false })
      else some (refuse (some kid) mismatch)

  abbrev pub check_window :
      CallbackAuthenticator
      → ℕ
      → String
      → String
      → Bool × String
      → String
      → String
      → Option CallbackVerifyResult
  check_window a now kid secret timestamp raw_body sig =
      if overflows timestamp
      then none
      else if ltb (a.tolerance_seconds * 1_000_000 + 1_000_000) (skew now timestamp)
      then some (record {
        ok = false;
        kid = some kid;
        reason = some outside_window;
        replay_suspect = true;
      })
      else compare_signature kid (sign kid secret timestamp raw_body) sig

  abbrev pub check_timestamp :
      CallbackAuthenticator
      → ℕ
      → String
      → String
      → Option (Bool × String)
      → String
      → String
      → Option CallbackVerifyResult
  check_timestamp a now kid secret none raw_body sig = some (refuse (some kid) not_an_integer)
  check_timestamp a now kid secret (some timestamp) raw_body sig =
      check_window a now kid secret timestamp raw_body sig

  abbrev pub check_kid :
      CallbackAuthenticator
      → ℕ
      → String
      → Option String
      → String
      → String
      → String
      → Option CallbackVerifyResult
  check_kid a now kid none ts_raw raw_body sig = some (refuse (some kid) unknown_kid)
  check_kid a now kid (some secret) ts_raw raw_body sig =
      check_timestamp a now kid secret (int_of ts_raw) raw_body sig

  -- With what the three headers hold.
  abbrev pub check_headers :
      CallbackAuthenticator
      → ℕ
      → String
      → Option String
      → Option String
      → Option String
      → Option CallbackVerifyResult
  check_headers a now raw_body (some kid) (some ts_raw) (some sig) =
      if is_empty kid || (is_empty ts_raw || is_empty sig)
      then some (refuse (some kid) missing_headers)
      else check_kid a now kid (key_of_kid kid a.keys) ts_raw raw_body sig
  check_headers a now raw_body kid _ _ = some (refuse kid missing_headers)

  -- `verify`; an exception is `none`.
  unfoldable pub verify :
      CallbackAuthenticator → ℕ → List (String × String) → String → Option CallbackVerifyResult
  unfolding header_lookup key_of_kid int_of skew sign
  verify a now headers raw_body =
      check_headers a now raw_body (header_lookup headers a.kid_header)
        (header_lookup headers a.timestamp_header) (header_lookup headers a.signature_header)
