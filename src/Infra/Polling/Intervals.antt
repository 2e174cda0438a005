-- ===== src/Infra/Polling/Intervals.antt =====
-- The intervals that a controller gives: their bounds, their growth and what the multiplier adds.
use async_task.Prelude.{
  ℕ, zero, suc, ◌*◌, ◌/◌, ◌≤◌, min, max, Bool, false, String, Bool-cases, inl, inr, arith,
}
use native.Mathlib.Nat.{
  le-div_iff_mul-le, div-zero, div-mul-le_self, pow-le-pow_right, mul-le-mul_left,
}
use async_task.Infra.Polling.{
  PollLimits, PollStats, Adaptive, aimd_min, clamp, compute_interval, stats, base_interval,
  next_interval, current_multiplier,
}

pub div_mono : (k : ℕ) {e f : ℕ} → e ≤ f → e / k ≤ f / k
div_mono zero {e = e} {f = f} h = rw (div-zero e, div-zero f) (omega arith)
div_mono (suc k) {e = e} h =
    (le-div_iff_mul-le (omega arith)).1 (omega (arith, div-mul-le_self e (suc k), h))

module _ (limits : PollLimits) where
  under-clamp : (b v : ℕ) → b ≤ limits.maximum → b ≤ v → b ≤ clamp limits v
  unfolding clamp
  under-clamp b v h k = omega (arith, h, k)

  clamp-bounds :
      (v : ℕ)
      → limits.minimum ≤ limits.maximum
      → (limits.minimum ≤ clamp limits v) × (clamp limits v ≤ limits.maximum)
  unfolding clamp
  clamp-bounds v h = (omega arith, omega (arith, h))

  clamp_mono : (u v : ℕ) → u ≤ v → clamp limits u ≤ clamp limits v
  unfolding clamp
  clamp_mono u v h = omega (arith, h)

  compute-bounds :
      (elapsed : ℕ) (st : PollStats) (first : Bool)
      → limits.minimum ≤ limits.maximum
      → (limits.minimum ≤ compute_interval limits elapsed st first)
        × (compute_interval limits elapsed st first ≤ limits.maximum)
  unfolding compute_interval
  compute-bounds elapsed st first h = elim (Bool-cases st.warm) [
    | inl warm ↦ elim (Bool-cases first) [
      | inl f ↦ rw (warm, f) (clamp-bounds _ h)
      | inr g ↦ rw (warm, g) (clamp-bounds _ h)
    ]
    | inr cold ↦ rw cold (clamp-bounds _ h)
  ]

  -- Whatever was recorded, and however slow the channel was made, both intervals stay within the
  -- limits, provided that these are in order.
  interval_within :
      (channel : String) (elapsed : ℕ) (first : Bool) (p : Adaptive)
      → limits.minimum ≤ limits.maximum
      → ((limits.minimum ≤ base_interval limits channel elapsed first p)
          × (base_interval limits channel elapsed first p ≤ limits.maximum))
        × ((limits.minimum ≤ next_interval limits channel elapsed first p)
            × (next_interval limits channel elapsed first p ≤ limits.maximum))
  unfolding base_interval next_interval
  interval_within channel elapsed first p h =
      (compute-bounds elapsed (stats limits channel p) first h, clamp-bounds _ h)

  scaled : (b m : ℕ) → aimd_min ≤ m → b ≤ b * m / 1_000_000
  scaled b m h = (le-div_iff_mul-le (omega arith)).1 (mul-le-mul_left b h)

  -- A multiplier of at least one never makes polling faster than the histogram alone would.
  pub next-slower :
      (channel : String) (elapsed : ℕ) (first : Bool) (p : Adaptive)
      → limits.minimum ≤ limits.maximum
      → aimd_min ≤ current_multiplier channel p
      → base_interval limits channel elapsed first p ≤ next_interval limits channel elapsed first p
  unfolding next_interval
  next-slower channel elapsed first p h m =
      let b = base_interval limits channel elapsed first p in
      under-clamp b (b * current_multiplier channel p / 1_000_000)
        (interval_within channel elapsed first p h).0.1 (scaled b (current_multiplier channel p) m)

  capped : (i j : ℕ) → i ≤ j → min i 8 ≤ min j 8
  capped i j h = omega (arith, h)

  compute_mono :
      (e f : ℕ) (st : PollStats)
      → e ≤ f
      → compute_interval limits e st false ≤ compute_interval limits f st false
  unfolding compute_interval
  compute_mono e f st h = elim (Bool-cases st.warm) [
    | inl warm ↦ rw warm (
        clamp_mono _ _ (
          mul-le-mul_left limits.base (
            pow-le-pow_right {n = 2} (omega arith) (
              capped (e / max st.p50 limits.minimum) (f / max st.p50 limits.minimum)
                (div_mono (max st.p50 limits.minimum) h)))))
    | inr cold ↦ rw cold (omega arith)
  ]

  -- A task that has been running for longer is never polled sooner, its first poll and the
  -- multiplier aside.
  base_interval_mono :
      (channel : String) (e f : ℕ) (p : Adaptive)
      → e ≤ f
      → base_interval limits channel e false p ≤ base_interval limits channel f false p
  unfolding base_interval
  base_interval_mono channel e f p h = compute_mono e f (stats limits channel p) h
