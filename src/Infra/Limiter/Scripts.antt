-- ===== src/Infra/Limiter/Scripts.antt =====
-- src/async_gateway/infra/concurrency.py: the Redis scripts ACQUIRE_LUA, RELEASE_LUA and
-- CALIBRATE_LUA, and the Redis limiter that runs them. A script is one step on the store.
use async_task.Prelude.{
  ℕ, ◌+◌, ◌-◌, String, leb, ltb, ◌==◌, if◌then◌else◌, ◌≡◌, arith, eq_iff, List, [], ◌∷◌,
}
use async_task.Infra.Limiter.{
  channel_key, tenant_key, acquire, release, calibrate_channel, SlotDecision, grant, refuse,
}
use async_task.Infra.Limiter.Counters.{Counts, count, put, delete, count-put, count-delete}

-- `INCR`
unfoldable pub incr : String → Counts → Counts
incr key c = put key (count key c + 1) c

-- The script's code: 0 granted, 1 channel full, 2 tenant full.
unfoldable pub acquire_script : String → String → ℕ → ℕ → Counts → ℕ × Counts
unfolding incr
acquire_script ch tn ch_limit tn_limit c =
    if leb ch_limit (count ch c)
    then (1, c)
    else if leb tn_limit (count tn c)
    then (2, c)
    else (0, incr tn (incr ch c))

unfoldable pub release_script : List String → ℕ → Counts → ℕ × Counts
release_script [] changed c = (changed, c)
release_script (key ∷ keys) changed c =
    let hit = ltb 0 (count key c) in
    release_script keys (if hit then changed + 1 else changed)
      (if hit then put key (count key c - 1) c else c)

unfoldable pub calibrate_script : String → ℕ → Counts → ℕ × Counts
calibrate_script key real c =
    let v = count key c in
    if ltb real v then (v - real, if ltb 0 real then put key real c else delete key c) else (0, c)

-- `RedisConcurrencyLimiter.acquire`
unfoldable pub redis_decision : ℕ → SlotDecision
redis_decision code =
    if code == 0
    then grant
    else refuse (if code == 1 then "channel_concurrency" else "tenant_concurrency")

unfoldable pub redis_acquire : String → String → ℕ → ℕ → Counts → SlotDecision × Counts
unfolding acquire_script redis_decision
redis_acquire channel tenant channel_limit tenant_limit c =
    let (code, c') =
      acquire_script (channel_key channel) (tenant_key channel tenant) channel_limit tenant_limit
        c in
    (redis_decision code, c')

unfoldable pub redis_release : String → String → Counts → Counts
unfolding release_script
redis_release channel tenant c =
    (release_script (channel_key channel ∷ tenant_key channel tenant ∷ []) 0 c).1

-- The limiter over Redis and the one in the process decide alike and leave the same counters,
-- when they take a slot, when they give it back and when they are calibrated; only a counter
-- calibrated to zero is deleted in the one and kept at zero in the other.
pub redis_agrees :
    (channel tenant k : String) (channel_limit tenant_limit real : ℕ) (c : Counts)
    → (redis_acquire channel tenant channel_limit tenant_limit c
        ≡ acquire channel tenant channel_limit tenant_limit c)
      × (redis_release channel tenant c ≡ release channel tenant c)
      × ((calibrate_script (channel_key channel) real c).0 ≡ (calibrate_channel channel real c).0)
      × (count k (calibrate_script (channel_key channel) real c).1
          ≡ count k (calibrate_channel channel real c).1)
unfolding redis_acquire acquire redis_release release calibrate_script calibrate_channel
redis_agrees channel tenant k channel_limit tenant_limit real c = (
  ground arith,
  ground arith,
  ground arith,
  ground (
    arith,
    count-put (channel_key channel) k real c,
    count-delete (channel_key channel) k c,
    eq_iff (channel_key channel) k,
  ),
)
