-- ===== src/Infra/Polling/Multipliers.antt =====
-- The multipliers that a controller can come to, over every sequence of its operations, and how a
-- channel recovers.
use async_task.Prelude.{
  ℕ, zero, suc, ◌+◌, ◌*◌, ◌/◌, ◌≤◌, max, Bool, String, str_eq, Option, none, some, [], ◌∷◌, ◌≡◌,
  refl, eq_iff, eq_refl, if◌then◌else◌, Bool-cases, inl, inr, arith, subst,
}
use native.Mathlib.Nat.{le-div_iff_mul-le, mul-le-mul_right, mul_comm}
use async_task.Infra.Limiter.Counters.{Counts, put, delete}
use async_task.Infra.Polling.{
  PollLimits, Adaptive, aimd_min, or_min, entry, current_multiplier, aimd_up, aimd_down,
  record_terminal, note_rate_limited, note_clean_period, decay_if_clean, is_noisy, reset,
  base_interval, next_interval,
}
use async_task.Infra.Polling.Intervals.{next-slower}

abbrev pub nothing : Adaptive
nothing = record { buckets = []; multiplier = []; pause_until = []; last_rate_limited = [] }

-- The states that a controller can come to.
pub data Reachable (limits : PollLimits) : Adaptive → Type 0 where
  fresh : Reachable limits nothing
  terminal :
      {p : Adaptive} (channel : String) (duration : ℕ)
      → Reachable limits p
      → Reachable limits (record_terminal channel duration p)
  rate_limited :
      {p : Adaptive} (channel : String) (retry_after : Option ℕ) (now : ℕ)
      → Reachable limits p
      → Reachable limits (note_rate_limited limits channel retry_after now p)
  decayed :
      {p : Adaptive} (channel : String) (quiet now : ℕ)
      → Reachable limits p
      → Reachable limits (decay_if_clean channel quiet now p)
  was_reset :
      {p : Adaptive} (channel : String) (include_samples : Bool)
      → Reachable limits p
      → Reachable limits (reset limits channel include_samples p)

entry-put :
    (k j : String) (n : ℕ) (c : Counts)
    → entry j (put k n c) ≡ (if str_eq k j then some n else entry j c)
unfolding entry put
entry-put k j n [] = refl
entry-put k j n ((i, m) ∷ rest) =
    ground (arith, eq_iff k j, eq_iff i k, eq_iff i j, entry-put k j n rest)

entry-delete :
    (k j : String) (c : Counts) → entry j (delete k c) ≡ (if str_eq k j then none else entry j c)
unfolding entry delete
entry-delete k j [] = ground arith
entry-delete k j ((i, m) ∷ rest) =
    ground (arith, eq_iff k j, eq_iff i k, eq_iff i j, entry-delete k j rest)

module _ (limits : PollLimits) where
  -- The greatest multiplier: `self.maximum / max(self.base, 1e-6)`.
  abbrev pub max_multiplier : ℕ
  max_multiplier = limits.maximum * 1_000_000 / max limits.base 1

  abbrev Fits : ℕ → Type 0
  Fits m = (aimd_min ≤ m) × (m ≤ max_multiplier)

  least-Fits : max limits.base 1 ≤ limits.maximum → aimd_min ≤ max_multiplier
  least-Fits h = (le-div_iff_mul-le (omega arith)).1 (
      subst (λ x. x ≤ limits.maximum * 1_000_000) (mul_comm (max limits.base 1) 1_000_000)
        (mul-le-mul_right 1_000_000 h))

  up-Fits : (m : ℕ) → aimd_min ≤ max_multiplier → Fits (aimd_up limits m)
  unfolding aimd_up
  up-Fits m h = (omega (arith, h), omega arith)

  down-Fits : (m : ℕ) → aimd_min ≤ max_multiplier → m ≤ max_multiplier → Fits (aimd_down m)
  unfolding aimd_down
  down-Fits m h k = (omega arith, omega (arith, h, k))

  put-Fits :
      (k j : String) (n : ℕ) (c : Counts)
      → Fits n
      → Fits (or_min (entry j c))
      → Fits (or_min (entry j (put k n c)))
  put-Fits k j n c f g = elim (Bool-cases (str_eq k j)) [
    | inl e ↦ rw (entry-put k j n c, e) f
    | inr e ↦ rw (entry-put k j n c, e) g
  ]

  clean-Fits :
      (channel c : String) (p : Adaptive)
      → aimd_min ≤ max_multiplier
      → ((j : String) → Fits (current_multiplier j p))
      → Fits (current_multiplier c (note_clean_period channel p))
  unfolding current_multiplier note_clean_period
  clean-Fits channel c p h all =
      put-Fits channel c _ p.multiplier (down-Fits _ h (all channel).1) (all c)

  Reachable-Fits :
      {p : Adaptive}
      → aimd_min ≤ max_multiplier
      → Reachable limits p
      → (c : String) → Fits (current_multiplier c p)
  unfolding current_multiplier entry record_terminal note_rate_limited reset decay_if_clean
  Reachable-Fits h fresh c = (omega arith, h)
  Reachable-Fits h (terminal channel duration r) c = Reachable-Fits h r c
  Reachable-Fits h (rate_limited {p = p} channel retry_after now r) c =
      put-Fits channel c _ p.multiplier (up-Fits _ h) (Reachable-Fits h r c)
  Reachable-Fits h (decayed {p = p} channel quiet now r) c =
      elim (Bool-cases (is_noisy (entry channel p.last_rate_limited) quiet now)) [
        | inl e ↦ rw e (Reachable-Fits h r c)
        | inr e ↦ rw e (clean-Fits channel c p h (Reachable-Fits h r))
      ]
  Reachable-Fits h (was_reset {p = p} channel include_samples r) c =
      elim (Bool-cases (str_eq channel c)) [
        | inl e ↦ rw (entry-delete channel c p.multiplier, e) (omega arith, h)
        | inr e ↦ rw (entry-delete channel c p.multiplier, e) (Reachable-Fits h r c)
      ]

  -- In every state that the controller can come to from nothing, by terminal samples, rate limits,
  -- quiet periods and resets in any order, each channel's multiplier is at least one and at most
  -- the quotient of the greatest and the base interval; and so the interval with the multiplier
  -- is no shorter than the one without. The limits are in order, and the greatest interval is at
  -- least the base.
  pub multiplier-Reachable :
      {p : Adaptive} (channel : String) (elapsed : ℕ) (first : Bool)
      → limits.minimum ≤ limits.maximum
      → max limits.base 1 ≤ limits.maximum
      → Reachable limits p
      → (aimd_min ≤ current_multiplier channel p)
        × (current_multiplier channel p ≤ max_multiplier)
        × (base_interval limits channel elapsed first p
            ≤ next_interval limits channel elapsed first p)
  multiplier-Reachable {p = p} channel elapsed first order base r =
      let (low, high) = Reachable-Fits (least-Fits base) r channel in
      (low, high, next-slower limits channel elapsed first p order low)

-- `n` quiet periods in a row.
unfoldable pub clean_periods : ℕ → String → Adaptive → Adaptive
clean_periods zero channel p = p
clean_periods (suc n) channel p = clean_periods n channel (note_clean_period channel p)

current-clean :
    (channel : String) (p : Adaptive)
    → current_multiplier channel (note_clean_period channel p)
      ≡ aimd_down (current_multiplier channel p)
unfolding current_multiplier note_clean_period
current-clean channel p = rw (entry-put channel channel _ p.multiplier, eq_refl channel) refl

down-step :
    (n m : ℕ)
    → aimd_min ≤ m
    → m ≤ aimd_min + suc n * 100_000
    → (aimd_min ≤ aimd_down m) × (aimd_down m ≤ aimd_min + n * 100_000)
unfolding aimd_down
down-step n m h k = (omega arith, omega (arith, h, k))

-- A channel recovers: a multiplier of at least one that exceeds one by no more than `n` tenths is
-- exactly one after `n` quiet periods in a row.
pub recovers :
    (n : ℕ) (channel : String) (p : Adaptive)
    → aimd_min ≤ current_multiplier channel p
    → current_multiplier channel p ≤ aimd_min + n * 100_000
    → current_multiplier channel (clean_periods n channel p) ≡ aimd_min
unfolding clean_periods
recovers zero channel p h k = omega (arith, h, k)
recovers (suc n) channel p h k =
    let (low, high) = down-step n (current_multiplier channel p) h k in
    recovers n channel (note_clean_period channel p) (rw (current-clean channel p) low)
      (rw (current-clean channel p) high)
