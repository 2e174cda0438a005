-- ===== src/Examples/Infra.antt =====
-- The theorems on the concurrency slots at concrete inputs.
use async_task.Prelude.{◌+◌, ◌≤◌, ◌<◌, true, false, [], ◌∷◌, ◌≡◌, ◌↔◌}
use async_task.Infra.Limiter.Counters.{Counts, count}
use async_task.Infra.Limiter.{
  SlotDecision, channel_key, tenant_key, acquire, release, calibrate_channel,
}
use async_task.Infra.Limiter.Laws.{acquire_slots}
use async_task.Infra.Limiter.Scripts.{redis_acquire, redis_release, calibrate_script, redis_agrees}

abbrev one_taken : Counts
one_taken = ("conc:{video}", 1) ∷ ("conc:{video}:{acme}", 1) ∷ []

abbrev taken : SlotDecision × Counts
taken = acquire "video" "zeta" 2 1 one_taken

acquire_slots_example :
    ((taken.0.granted ≡ true) ↔ (
      (count (channel_key "video") one_taken < 2)
      × (count (tenant_key "video" "zeta") one_taken < 1)))
    × (taken.0.granted ≡ true
        → (count (channel_key "video") taken.1 ≡ count (channel_key "video") one_taken + 1)
          × (count (tenant_key "video" "zeta") taken.1
              ≡ count (tenant_key "video" "zeta") one_taken + 1)
          × (count (channel_key "video") taken.1 ≤ 2)
          × (count (tenant_key "video" "zeta") taken.1 ≤ 1))
    × (taken.0.granted ≡ false → taken.1 ≡ one_taken)
acquire_slots_example = acquire_slots "video" "zeta" 2 1 one_taken

redis_agrees_example :
    (redis_acquire "video" "zeta" 2 1 one_taken ≡ acquire "video" "zeta" 2 1 one_taken)
    × (redis_release "video" "zeta" one_taken ≡ release "video" "zeta" one_taken)
    × ((calibrate_script (channel_key "video") 0 one_taken).0
        ≡ (calibrate_channel "video" 0 one_taken).0)
    × (count "conc:{video}" (calibrate_script (channel_key "video") 0 one_taken).1
        ≡ count "conc:{video}" (calibrate_channel "video" 0 one_taken).1)
redis_agrees_example = redis_agrees "video" "zeta" "conc:{video}" 2 1 0 one_taken
