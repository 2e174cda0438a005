-- ===== src/Gateway/Callbacks/Signature/Rotation.antt =====
-- What a rotation of the keys changes of the verdict on a callback.
use async_task.Prelude.{
  ℕ, Bool, true, false, String, str_eq, eq_iff, eq_refl, none, some, List, [], ◌∷◌, ◌≡◌, refl, sym,
  ap, ◌∙◌, Bool-cases, Option-cases, inl, inr, if◌then◌else◌,
}
use async_task.Gateway.Callbacks.Signature.{
  CallbackAuthenticator, header_lookup, key_of_kid, put_key, only_key, rotate, verify,
}

key_of_kid-put_key :
    (kid new secret : String) (keys : List (String × String))
    → key_of_kid kid (put_key new secret keys)
      ≡ (if str_eq new kid then some secret else key_of_kid kid keys)
unfolding key_of_kid put_key
key_of_kid-put_key kid new secret [] = refl
key_of_kid-put_key kid new secret ((k, old) ∷ rest) = elim (Bool-cases (str_eq k new)) [
  | inl e ↦
      rw (e, (eq_iff k new).0 e)
        (elim (Bool-cases (str_eq new kid)) [ inl f ↦ rw f | inr f ↦ rw f ])
  | inr e ↦ elim (Bool-cases (str_eq k kid)) [
    | inl f ↦ rw (e, f, apart ((eq_iff k kid).0 f) e)
    | inr f ↦ rw (e, f) (key_of_kid-put_key kid new secret rest)
  ]
]
  where
    apart : k ≡ kid → str_eq k new ≡ false → str_eq new kid ≡ false
    apart same e = elim (Bool-cases (str_eq new kid)) [
      | inl g ↦ absurd (cc (e, ap (str_eq k) (same ∙ sym ((eq_iff new kid).0 g)), eq_refl k))
      | inr g ↦ g
    ]

key_of_kid-only_key :
    (kid new : String) (keys : List (String × String))
    → key_of_kid kid (only_key new keys) ≡ (if str_eq new kid then key_of_kid kid keys else none)
unfolding key_of_kid only_key
key_of_kid-only_key kid new [] = elim (Bool-cases (str_eq new kid)) [ inl e ↦ rw e | inr e ↦ rw e ]
key_of_kid-only_key kid new ((k, secret) ∷ rest) = elim (Bool-cases (str_eq k new)) [
  | inl e ↦
      let same = (eq_iff k new).0 e in
      elim (Bool-cases (str_eq new kid)) [
        | inl f ↦ rw (e, same, f)
        | inr f ↦ rw (e, same, f) (key_of_kid-only_key kid new rest ∙ rw f)
      ]
  | inr e ↦ elim (Bool-cases (str_eq k kid)) [
    | inr f ↦ rw (e, f) (key_of_kid-only_key kid new rest)
    | inl f ↦ rw (e, f) (key_of_kid-only_key kid new rest ∙ not_new ((eq_iff k kid).0 f) e)
  ]
]
  where
    not_new :
        k ≡ kid
        → str_eq k new ≡ false
        → (if str_eq new kid then key_of_kid kid rest else none)
          ≡ (if str_eq new kid then some secret else none)
    not_new same e = elim (Bool-cases (str_eq new kid)) [
      | inl g ↦ absurd (cc (e, (eq_iff new kid).0 g, same, eq_refl k))
      | inr g ↦ rw g
    ]

key_of_kid-one :
    (kid new secret : String)
    → str_eq new kid ≡ true
    → key_of_kid kid ((new, secret) ∷ []) ≡ some secret
unfolding key_of_kid
key_of_kid-one kid new secret e = rw e

key_of_kid-no_key : (kid : String) → key_of_kid kid [] ≡ none
unfolding key_of_kid
key_of_kid-no_key kid = refl

module _ (hmac : String → String → String) (sha : String → String) where
  -- The verdict depends on the keys by the secret of the callback's own key only.
  verify-keys :
      (a : CallbackAuthenticator) (keys : List (String × String)) (now : ℕ)
      (headers : List (String × String)) (raw_body : String) {kid : String}
      → header_lookup headers a.kid_header ≡ some kid
      → key_of_kid kid a.keys ≡ key_of_kid kid keys
      → verify hmac sha a now headers raw_body
        ≡ verify hmac sha (record a { keys = keys }) now headers raw_body
  unfolding verify
  verify-keys a keys now headers raw_body {kid} h e =
      elim (Option-cases (header_lookup headers a.timestamp_header)) [
        | inl f ↦ rw (h, f)
        | inr (ts, f) ↦ elim (Option-cases (header_lookup headers a.signature_header)) [
          | inl g ↦ rw (h, f, g)
          | inr (sig, g) ↦ rw (h, f, g, e)
        ]
      ]

  -- After a rotation a callback under the new key is checked with the new secret alone; one under
  -- another key is checked as before, where the previous keys are kept, and else as if no key were
  -- known.
  pub rotate_verdict :
      (a : CallbackAuthenticator) (new secret : String) (keep : Bool) (now : ℕ)
      (headers : List (String × String)) (raw_body : String) {kid : String}
      → header_lookup headers a.kid_header ≡ some kid
      → verify hmac sha (rotate new secret keep a) now headers raw_body
        ≡ verify hmac sha
            (record a {
              keys = if str_eq new kid then (new, secret) ∷ [] else if keep then a.keys else [];
            })
            now
            headers
            raw_body
  unfolding rotate verify
  rotate_verdict a new secret keep now headers raw_body {kid} h =
      verify-keys (rotate new secret keep a) _ now headers raw_body h (known keep)
    where
      known :
          (keep : Bool)
          → key_of_kid kid
              (if keep then put_key new secret a.keys else only_key new (put_key new secret a.keys))
            ≡ key_of_kid kid
                (if str_eq new kid then (new, secret) ∷ [] else if keep then a.keys else [])
      known true = key_of_kid-put_key kid new secret a.keys ∙ (elim (Bool-cases (str_eq new kid)) [
        | inl e ↦ rw (e, key_of_kid-one kid new secret e)
        | inr e ↦ rw e
      ])
      known false =
          key_of_kid-only_key kid new (put_key new secret a.keys)
          ∙ (elim (Bool-cases (str_eq new kid)) [
            | inl e ↦
                rw (e, key_of_kid-one kid new secret e, key_of_kid-put_key kid new secret a.keys, e)
            | inr e ↦ rw (e, key_of_kid-no_key kid)
          ])
