-- ===== src/Infra/Polling.antt =====
-- src/async_gateway/infra/polling.py: `_BasePolling` and `MemoryPollingController`. Durations and
-- instants are in microseconds, multipliers in millionths; a float that is no such number is
-- rounded down. `minimum` is positive where `compute_interval` divides by it.
pub mod Intervals
pub mod Multipliers
pub mod Percentiles
use async_task.Prelude.{
  ℕ, zero, suc, ◌+◌, ◌-◌, ◌*◌, ◌/◌, ◌^◌, min, max, Bool, false, not, ◌==◌, ltb, leb, String, str_eq,
  Option, none, some, List, [], ◌∷◌, if◌then◌else◌,
}
use async_task.Infra.Limiter.Counters.{Counts, count, put, delete}

abbrev pub bucket_size : ℕ
bucket_size = 10_000_000

-- `AIMD_MIN`
abbrev pub aimd_min : ℕ
aimd_min = 1_000_000

pub record PollStats : Type 0 where
  pub p10 : ℕ
  pub p50 : ℕ
  pub p95 : ℕ
  pub samples : ℕ
  pub warm : Bool

-- A channel's histogram: from a bucket's label to its count.
abbrev pub Buckets : Type 0
Buckets = List (ℕ × ℕ)

-- `label`
unfoldable pub bucket_label : ℕ → ℕ
bucket_label duration = duration / bucket_size * bucket_size

-- `buckets[label] = buckets.get(label, 0) + 1`
unfoldable pub add_sample : ℕ → Buckets → Buckets
add_sample label [] = (label, 1) ∷ []
add_sample label ((l, n) ∷ rest) =
    let added = add_sample label rest in if l == label then (l, n + 1) ∷ rest else (l, n) ∷ added

-- `sorted(...)` of pairs with different labels
unfoldable pub place_bucket : ℕ × ℕ → Buckets → Buckets
place_bucket b [] = b ∷ []
place_bucket b (c ∷ rest) =
    let later = place_bucket b rest in if leb b.0 c.0 then b ∷ c ∷ rest else c ∷ later

unfoldable pub sort_buckets : Buckets → Buckets
unfolding place_bucket
sort_buckets [] = []
sort_buckets (b ∷ rest) = place_bucket b (sort_buckets rest)

unfoldable pub total_of : Buckets → ℕ
total_of [] = 0
total_of (b ∷ rest) = b.1 + total_of rest

abbrev pub last_label : Buckets → ℕ → ℕ
last_label [] fallback = fallback
last_label (b ∷ rest) fallback = last_label rest b.0

-- The loop of `_percentile`; the quantile is in hundredths, and `target` a hundredfold.
unfoldable pub find_bucket : ℕ → ℕ → Buckets → Option ℕ
find_bucket target acc [] = none
find_bucket target acc (b ∷ rest) =
    let further = find_bucket target (acc + b.1) rest in
    if leb target ((acc + b.1) * 100) then some (max b.0 bucket_size) else further

unfoldable pub percentile : Buckets → ℕ → ℕ → ℕ → ℕ
unfolding find_bucket
percentile buckets zero q fallback = fallback
percentile buckets (suc total) q fallback = elim (find_bucket (suc total * q) 0 buckets) [
  | some label ↦ label
  | none ↦ last_label buckets fallback
]

pub record PollLimits : Type 0 where
  pub base : ℕ
  pub minimum : ℕ
  pub maximum : ℕ
  pub initial : ℕ
  pub hot_start_samples : ℕ

pub record Adaptive : Type 0 where
  pub buckets : List (String × Buckets)
  pub multiplier : Counts
  pub pause_until : Counts
  pub last_rate_limited : Counts

-- `dict.get(channel, {})`, and an assignment to the key
unfoldable pub buckets_of : String → List (String × Buckets) → Buckets
buckets_of channel [] = []
buckets_of channel ((c, b) ∷ rest) = if str_eq c channel then b else buckets_of channel rest

unfoldable pub put_buckets : String → Buckets → List (String × Buckets) → List (String × Buckets)
put_buckets channel b [] = (channel, b) ∷ []
put_buckets channel b ((c, x) ∷ rest) =
    let others = put_buckets channel b rest in
    if str_eq c channel then (c, b) ∷ rest else (c, x) ∷ others

unfoldable pub drop_buckets : String → List (String × Buckets) → List (String × Buckets)
drop_buckets channel [] = []
drop_buckets channel ((c, x) ∷ rest) =
    let others = drop_buckets channel rest in if str_eq c channel then others else (c, x) ∷ others

-- `dict.get(channel)`
unfoldable pub entry : String → Counts → Option ℕ
entry channel [] = none
entry channel ((c, n) ∷ rest) = if str_eq c channel then some n else entry channel rest

abbrev pub or_min : Option ℕ → ℕ
or_min none = aimd_min
or_min (some m) = m

-- `self.multiplier.get(channel, AIMD_MIN)`
unfoldable pub current_multiplier : String → Adaptive → ℕ
unfolding entry
current_multiplier channel p = or_min (entry channel p.multiplier)

unfoldable pub record_terminal : String → ℕ → Adaptive → Adaptive
unfolding bucket_label add_sample buckets_of put_buckets
record_terminal channel duration p = record p {
  buckets =
      put_buckets channel (add_sample (bucket_label duration) (buckets_of channel p.buckets))
        p.buckets;
}

unfoldable pub aimd_down : ℕ → ℕ
aimd_down multiplier = max aimd_min (multiplier * 9 / 10)

unfoldable pub note_clean_period : String → Adaptive → Adaptive
unfolding aimd_down current_multiplier
note_clean_period channel p = record p {
  multiplier = put channel (aimd_down (current_multiplier channel p)) p.multiplier;
}

-- `last is not None and now - last < quiet`
abbrev pub is_noisy : Option ℕ → ℕ → ℕ → Bool
is_noisy none quiet now = false
is_noisy (some last) quiet now = ltb (now - last) quiet

unfoldable pub decay_if_clean : String → ℕ → ℕ → Adaptive → Adaptive
unfolding note_clean_period entry
decay_if_clean channel quiet now p =
    if is_noisy (entry channel p.last_rate_limited) quiet now
    then p
    else note_clean_period channel p

unfoldable pub paused_for : String → ℕ → Adaptive → ℕ
paused_for channel now p = count channel p.pause_until - now

-- `if retry_after: ...`
abbrev pub pause : String → Option ℕ → ℕ → Counts → Counts
pause channel none now c = c
pause channel (some zero) now c = c
pause channel (some (suc r)) now c = put channel (now + suc r) c

module _ (limits : PollLimits) where
  unfoldable pub clamp : ℕ → ℕ
  clamp value = max limits.minimum (min limits.maximum value)

  unfoldable pub aimd_up : ℕ → ℕ
  aimd_up multiplier =
      min (limits.maximum * 1_000_000 / max limits.base 1) (max aimd_min (multiplier * 2))

  unfoldable pub note_rate_limited : String → Option ℕ → ℕ → Adaptive → Adaptive
  unfolding aimd_up current_multiplier
  note_rate_limited channel retry_after now p = record p {
    multiplier = put channel (aimd_up (current_multiplier channel p)) p.multiplier;
    last_rate_limited = put channel now p.last_rate_limited;
    pause_until = pause channel retry_after now p.pause_until;
  }

  unfoldable pub stats : String → Adaptive → PollStats
  unfolding sort_buckets total_of percentile buckets_of
  stats channel p =
      let items = sort_buckets (buckets_of channel p.buckets) in
      let total = total_of items in
      record {
        p10 = percentile items total 10 limits.initial;
        p50 = percentile items total 50 limits.initial;
        p95 = percentile items total 95 limits.initial;
        samples = total;
        warm = leb limits.hot_start_samples total;
      }

  unfoldable pub compute_interval : ℕ → PollStats → Bool → ℕ
  unfolding clamp
  compute_interval elapsed st first_poll =
      if not st.warm
      then clamp (if first_poll then limits.initial else max limits.initial limits.minimum)
      else if first_poll
      then clamp (max st.p10 limits.minimum)
      else clamp (limits.base * 2 ^ min (elapsed / max st.p50 limits.minimum) 8)

  unfoldable pub base_interval : String → ℕ → Bool → Adaptive → ℕ
  unfolding compute_interval stats
  base_interval channel elapsed first_poll p = compute_interval elapsed (stats channel p) first_poll

  unfoldable pub next_interval : String → ℕ → Bool → Adaptive → ℕ
  unfolding base_interval current_multiplier clamp
  next_interval channel elapsed first_poll p =
      clamp (base_interval channel elapsed first_poll p * current_multiplier channel p / 1_000_000)

  -- `reset`, without the two snapshots that it returns.
  unfoldable pub reset : String → Bool → Adaptive → Adaptive
  unfolding drop_buckets
  reset channel include_samples p = record p {
    multiplier = delete channel p.multiplier;
    pause_until = delete channel p.pause_until;
    last_rate_limited = delete channel p.last_rate_limited;
    buckets = if include_samples then drop_buckets channel p.buckets else p.buckets;
  }
