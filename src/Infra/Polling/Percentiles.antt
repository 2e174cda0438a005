-- ===== src/Infra/Polling/Percentiles.antt =====
-- The percentiles of a channel's histogram are in order.
use async_task.Prelude.{
  ℕ, zero, suc, ◌+◌, ◌*◌, ◌≤◌, max, true, false, String, none, some, [], ◌∷◌, All, leb, ◌≡◌, refl,
  subst, ap, Bool-cases, inl, inr, arith,
}
use mathlib.Core.Option.{some-injective}
use native.Mathlib.Nat.{mul-le-mul_left}
use async_task.Infra.Polling.{
  Buckets, Adaptive, PollLimits, bucket_size, place_bucket, sort_buckets, total_of, last_label,
  find_bucket, percentile, buckets_of, stats,
}

abbrev Above : ℕ → Buckets → Type 0
Above l bs = All (λ c. l ≤ c.0) bs

abbrev Ordered : Buckets → Type 0
Ordered [] = Unit
Ordered (b ∷ rest) = Above b.0 rest × Ordered rest

Above-Above : (a b : ℕ) (bs : Buckets) → a ≤ b → Above b bs → Above a bs
Above-Above a b [] h q = tt
Above-Above a b (c ∷ rest) h q = (omega (arith, h, q.0), Above-Above a b rest h q.1)

place-Above :
    (l : ℕ) (b : ℕ × ℕ) (bs : Buckets) → l ≤ b.0 → Above l bs → Above l (place_bucket b bs)
unfolding place_bucket
place-Above l b [] h q = (h, tt)
place-Above l b (c ∷ rest) h q = elim (Bool-cases (leb b.0 c.0)) [
  | inl e ↦ rw e (h, q)
  | inr e ↦ rw e (q.0, place-Above l b rest h q.1)
]

leb_le : (a b : ℕ) → leb a b ≡ true → a ≤ b
leb_le a b h = ground (arith, h)

leb_ge : (a b : ℕ) → leb a b ≡ false → b ≤ a
leb_ge a b h = ground (arith, h)

place-Ordered : (b : ℕ × ℕ) (bs : Buckets) → Ordered bs → Ordered (place_bucket b bs)
unfolding place_bucket
place-Ordered b [] o = (tt, tt)
place-Ordered b (c ∷ rest) o = elim (Bool-cases (leb b.0 c.0)) [
  | inl e ↦ let below = leb_le b.0 c.0 e in rw e ((below, Above-Above b.0 c.0 rest below o.0), o)
  | inr e ↦ rw e (place-Above c.0 b rest (leb_ge b.0 c.0 e) o.0, place-Ordered b rest o.1)
]

sort-Ordered : (bs : Buckets) → Ordered (sort_buckets bs)
unfolding sort_buckets
sort-Ordered [] = tt
sort-Ordered (b ∷ rest) = place-Ordered b (sort_buckets rest) (sort-Ordered rest)

leb_of : (a b : ℕ) → a ≤ b → leb a b ≡ true
leb_of a b h = ground (arith, h)

find-least :
    (l target acc : ℕ) (bs : Buckets) {y : ℕ}
    → Above l bs
    → find_bucket target acc bs ≡ some y
    → max l bucket_size ≤ y
unfolding find_bucket
find-least l target acc [] a e = cc
find-least l target acc (b ∷ rest) {y = y} a e =
    elim (Bool-cases (leb target ((acc + b.1) * 100))) [
      | inl h ↦
          let same = some-injective (max b.0 bucket_size) y (rw (h, find_bucket) at e) in
          omega (arith, a.0, same)
      | inr h ↦ find-least l target (acc + b.1) rest a.1 (rw (h, find_bucket) at e)
    ]

find_mono :
    (s t acc : ℕ) (bs : Buckets) {x y : ℕ}
    → s ≤ t
    → Ordered bs
    → find_bucket s acc bs ≡ some x
    → find_bucket t acc bs ≡ some y
    → x ≤ y
unfolding find_bucket
find_mono s t acc [] h o e f = cc
find_mono s t acc (b ∷ rest) {x = x} {y = y} h o e f =
    elim (Bool-cases (leb s ((acc + b.1) * 100))) [
      | inl p ↦
          let same = some-injective (max b.0 bucket_size) x (rw (p, find_bucket) at e) in
          subst (λ z. z ≤ y) same (find-least b.0 t acc (b ∷ rest) (omega arith, o.0) f)
      | inr p ↦
          let q : leb t ((acc + b.1) * 100) ≡ false = ground (arith, p, h) in
          find_mono s t (acc + b.1) rest h o.1 (rw (p, find_bucket) at e) (rw (q, find_bucket) at f)
    ]

find-some :
    (target acc : ℕ) (b : ℕ × ℕ) (rest : Buckets)
    → target ≤ (acc + total_of (b ∷ rest)) * 100
    → (x : ℕ) × (find_bucket target acc (b ∷ rest) ≡ some x)
unfolding find_bucket total_of
find-some target acc b [] h =
    (max b.0 bucket_size, rw (leb_of target ((acc + b.1) * 100) (omega (arith, h))) refl)
find-some target acc b (c ∷ more) h = elim (Bool-cases (leb target ((acc + b.1) * 100))) [
  | inl p ↦ (max b.0 bucket_size, rw p refl)
  | inr p ↦ let (x, e) = find-some target (acc + b.1) c more (omega (arith, h)) in (x, rw p e)
]

none_total : (n : ℕ) → n ≡ total_of [] → n ≡ 0
unfolding total_of
none_total n e = e

percentile-found :
    (n : ℕ) (bs : Buckets) (q fallback : ℕ) {x : ℕ}
    → find_bucket (suc n * q) 0 bs ≡ some x
    → percentile bs (suc n) q fallback ≡ x
unfolding percentile
percentile-found n bs q fallback {x} e =
    ap (λ found. elim found [ some label ↦ label | none ↦ last_label bs fallback ]) e

percentile-of :
    (n : ℕ) (bs : Buckets) (q r fallback : ℕ)
    → n ≡ total_of bs
    → q ≤ r
    → r ≤ 100
    → Ordered bs
    → percentile bs n q fallback ≤ percentile bs n r fallback
unfolding percentile
percentile-of zero bs q r fallback same h k o = omega arith
percentile-of (suc n) [] q r fallback same h k o = omega (arith, none_total (suc n) same)
percentile-of (suc n) (b ∷ rest) q r fallback same h k o =
    let low : suc n * q ≤ suc n * r = mul-le-mul_left (suc n) h in
    let high : suc n * r ≤ (0 + total_of (b ∷ rest)) * 100 =
      subst (λ t. suc n * r ≤ (0 + t) * 100) same (top (suc n) r (mul-le-mul_left (suc n) k)) in
    let (x, e) = find-some (suc n * q) 0 b rest (omega (arith, low, high)) in
    let (y, f) = find-some (suc n * r) 0 b rest high in
    rw (percentile-found n (b ∷ rest) q fallback e, percentile-found n (b ∷ rest) r fallback f)
      (find_mono (suc n * q) (suc n * r) 0 (b ∷ rest) low o e f)
  where
    top : (t r : ℕ) → t * r ≤ t * 100 → t * r ≤ (0 + t) * 100
    top t r h = omega (arith, h)

-- The three percentiles of a channel are in order, whatever was recorded.
percentiles_ordered :
    (limits : PollLimits) (channel : String) (p : Adaptive)
    → ((stats limits channel p).p10 ≤ (stats limits channel p).p50)
      × ((stats limits channel p).p50 ≤ (stats limits channel p).p95)
unfolding stats
percentiles_ordered limits channel p =
    let items = sort_buckets (buckets_of channel p.buckets) in
    let o = sort-Ordered (buckets_of channel p.buckets) in
    (
      percentile-of (total_of items) items 10 50 limits.initial refl (omega arith) (omega arith) o,
      percentile-of (total_of items) items 50 95 limits.initial refl (omega arith) (omega arith) o,
    )
