-- ===== src/Gateway/Idempotency/Laws.antt =====
-- Which requests share a derived key, and which instants share a window.
use async_task.Prelude.{
  ℕ, suc, ◌+◌, ◌-◌, ◌*◌, ◌/◌, ◌≤◌, ◌<◌, String, List, [], ◌∷◌, All, max, ◌≡◌, ◌⊎◌, refl, ap, ◌∙◌,
  arith, inl, inr,
}
use native.Mathlib.Nat.{
  le-div_iff_mul-le, div-lt_iff_lt-mul, div-mul-le_self, lt-div-mul-add, div-eq_of_lt-le,
  mul-div_cancel,
}
use async_task.Db.Json.{Fields, end, insert}
use async_task.Templates.Resolved.{NormalizationRules}
use async_task.Prelude.Text.{sort_names}
use async_task.Gateway.Idempotency.{
  normal_value, payload_of, canonical_body, body_digest_of, derive_key, window_bucket,
}

payload_agree :
    (rules : NormalizationRules) (fs : List String) (a b acc : Fields)
    → All (λ f. normal_value rules f a ≡ normal_value rules f b) fs
    → payload_of rules fs a acc ≡ payload_of rules fs b acc
unfolding payload_of
payload_agree rules [] a b acc h = refl
payload_agree rules (f ∷ fs) a b acc h =
    ap (λ v. payload_of rules fs a (insert f v acc)) h.0
    ∙ payload_agree rules fs a b (insert f (normal_value rules f b) acc) h.1

-- Two bodies whose declared fields have the same values, up to the white space and the letter case
-- that the rules leave out, have the same key and the same digest.
same_fields_same_key :
    (dump : Fields → String) (digest : String → String) (key_hash : String)
    (rules : NormalizationRules) (f : String) (fs : List String) (a b : Fields)
    → rules.fields ≡ f ∷ fs
    → All (λ f. normal_value rules f a ≡ normal_value rules f b) (sort_names (f ∷ fs))
    → derive_key dump digest key_hash a rules ≡ derive_key dump digest key_hash b rules
unfolding derive_key body_digest_of canonical_body
same_fields_same_key dump digest key_hash rules f fs a b e h =
    let same = payload_agree rules (sort_names (f ∷ fs)) a b end h in rw (e, same)

two_more : (q d : ℕ) → (q + 2) * d ≡ q * d + d + d
two_more q d = grind arith

one_more : (q d : ℕ) → (q + 1) * d ≡ q * d + d
one_more q d = grind arith

div_mono : (d a b : ℕ) → 0 < d → a ≤ b → a / d ≤ b / d
div_mono d a b h k = (le-div_iff_mul-le h).1 (omega (arith, div-mul-le_self a d))

bucket_next : (d a b : ℕ) → 0 < d → a ≤ b → b < a + d → (b / d ≡ a / d) ⊎ (b / d ≡ suc (a / d))
bucket_next d a b h k l =
    let low = div_mono d a b h k in
    let high : b / d < a / d + 2 =
      (div-lt_iff_lt-mul h).1 (omega (arith, two_more (a / d) d, lt-div-mul-add {a = a} h)) in
    near low high
  where
    near : {x y : ℕ} → x ≤ y → y < x + 2 → (y ≡ x) ⊎ (y ≡ suc x)
    near {x} {y} p q = ground arith

bucket_later : (d a b : ℕ) → 0 < d → a + d ≤ b → a / d < b / d
bucket_later d a b h k =
    let up : a / d + 1 ≤ b / d =
      (le-div_iff_mul-le h).1 (omega (arith, one_more (a / d) d, div-mul-le_self a d)) in
    omega arith

abbrev window_length : ℕ → ℕ
window_length window_seconds = max 1 window_seconds * 1_000_000

window_positive : (w : ℕ) → 0 < window_length w
window_positive w = omega arith

bucket_last : (d k : ℕ) → 0 < d → (k * d + (d - 1)) / d ≡ k
bucket_last d k h = div-eq_of_lt-le d (omega arith) (omega (arith, one_more k d))

le_or_lt : (a b : ℕ) → (a ≤ b) ⊎ (b < a)
le_or_lt a b = ground arith

apart_cases : (d a b : ℕ) → 0 < d → a ≤ b → (a / d < b / d) ⊎ (b < a + d)
apart_cases d a b h k = elim (le_or_lt (a + d) b) [
  | inl far ↦ inl (bucket_later d a b h far)
  | inr near ↦ inr near
]

near_cases : (d a b : ℕ) → 0 < d → a ≤ b → (b / d ≡ a / d) ⊎ (b / d ≡ suc (a / d)) ⊎ (a + d ≤ b)
near_cases d a b h k = elim (le_or_lt (a + d) b) [
  | inl far ↦ inr (inr far)
  | inr near ↦ elim (bucket_next d a b h k near) [ inl same ↦ inl same | inr next ↦ inr (inl next) ]
]

-- Of two instants the later one has a later bucket or is less than a window behind; and it has the
-- same bucket or the next one or is a window or more behind. Each boundary between buckets separates
-- two instants that are one microsecond apart, so that a key is unique in a bucket and not in every
-- stretch of time of the length of a window.
window_shared :
    (window a b k : ℕ)
    → a ≤ b
    → ((window_bucket a window < window_bucket b window) ⊎ (b < a + window_length window))
      × ((window_bucket b window ≡ window_bucket a window)
          ⊎ (window_bucket b window ≡ suc (window_bucket a window))
          ⊎ (a + window_length window ≤ b))
      × (window_bucket (k * window_length window + (window_length window - 1)) window ≡ k)
      × (window_bucket (suc k * window_length window) window ≡ suc k)
unfolding window_bucket
window_shared window a b k m =
    let d = window_length window in
    let h = window_positive window in
    (apart_cases d a b h m, near_cases d a b h m, bucket_last d k h, mul-div_cancel (suc k) h)
