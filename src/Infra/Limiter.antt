-- ===== src/Infra/Limiter.antt =====
-- src/async_gateway/infra/concurrency.py: the two levels of concurrency slots. The counters are a
-- dict from keys to numbers, in the process or in Redis; a Redis script runs as one step, and the
-- expiry of a key is left out. Durations are in microseconds.
pub mod Counters
pub mod Laws
pub mod Scripts
use async_task.Prelude.{
  ℕ, ◌+◌, ◌-◌, Bool, true, false, String, Option, none, some, leb, ltb, if◌then◌else◌,
}
use Prim.Native.String
use async_task.Infra.Limiter.Counters.{Counts, count, put}

pub record SlotDecision : Type 0 where
  pub granted : Bool
  pub reason : String
  pub retry_after : Option ℕ

-- `_keys`
unfoldable pub channel_key : String → String
channel_key channel = String.◌++◌ "conc:{" (String.◌++◌ channel "}")

unfoldable pub tenant_key : String → String → String
unfolding channel_key
tenant_key channel tenant =
    String.◌++◌ (channel_key channel) (String.◌++◌ ":{" (String.◌++◌ tenant "}"))

abbrev pub grant : SlotDecision
grant = record { granted = true; reason = "ok"; retry_after = none }

abbrev pub refuse : String → SlotDecision
refuse reason = record { granted = false; reason = reason; retry_after = some 1_000_000 }

-- `MemoryConcurrencyLimiter`
unfoldable pub acquire : String → String → ℕ → ℕ → Counts → SlotDecision × Counts
acquire channel tenant channel_limit tenant_limit c =
    let ch = channel_key channel in
    let tn = tenant_key channel tenant in
    if leb channel_limit (count ch c)
    then (refuse "channel_concurrency", c)
    else if leb tenant_limit (count tn c)
    then (refuse "tenant_concurrency", c)
    else let c' = put ch (count ch c + 1) c in (grant, put tn (count tn c' + 1) c')

-- One round of the loop of `release`.
unfoldable pub release_key : String → Counts → Counts
release_key key c = if ltb 0 (count key c) then put key (count key c - 1) c else c

unfoldable pub release : String → String → Counts → Counts
unfolding release_key
release channel tenant c =
    release_key (tenant_key channel tenant) (release_key (channel_key channel) c)

unfoldable pub calibrate_channel : String → ℕ → Counts → ℕ × Counts
calibrate_channel channel real_active c =
    let ch = channel_key channel in
    let current = count ch c in
    if ltb real_active current then (current - real_active, put ch real_active c) else (0, c)
