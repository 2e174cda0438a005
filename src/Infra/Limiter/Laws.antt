-- ===== src/Infra/Limiter/Laws.antt =====
-- The slots keep their limits, and a slot taken and given back leaves every counter as it was.
use async_task.Prelude.{
  ◌↔◌, ℕ, ◌+◌, ◌-◌, ◌≤◌, ◌<◌, true, false, String, str_eq, ◌≡◌, ◌≢◌, sym, ap, eq_iff, eq_refl,
  if◌then◌else◌, min, arith,
}
use Prim.Native.String
use text.Mathlib.TextLemmas.{length-append}
use async_task.Infra.Limiter.Counters.{Counts, count, put, count-put}
use async_task.Infra.Limiter.{
  channel_key, tenant_key, acquire, release, release_key, calibrate_channel, SlotDecision,
}

-- The two keys of a request are never one key.
pub keys_differ : (channel tenant : String) → channel_key channel ≢ tenant_key channel tenant
unfolding tenant_key
keys_differ channel tenant e = omega (
  arith,
  ap String.count e,
  length-append (channel_key channel) (String.◌++◌ ":{" (String.◌++◌ tenant "}")),
  length-append ":{" (String.◌++◌ tenant "}"),
)

differ :
    (channel tenant : String) → str_eq (channel_key channel) (tenant_key channel tenant) ≡ false
differ channel tenant =
    ground
      (arith, eq_iff (channel_key channel) (tenant_key channel tenant), keys_differ channel tenant)

differ' :
    (channel tenant : String) → str_eq (tenant_key channel tenant) (channel_key channel) ≡ false
differ' channel tenant = ground (
  arith,
  eq_iff (tenant_key channel tenant) (channel_key channel),
  λ (e : tenant_key channel tenant ≡ channel_key channel). keys_differ channel tenant (sym e),
)

-- A release lowers its key's counter by one, stopping at 0, and no other.
count-release_key :
    (key k : String) (c : Counts)
    → count k (release_key key c) ≡ (if str_eq key k then count key c - 1 else count k c)
unfolding release_key
count-release_key key k c = ground (arith, count-put key k (count key c - 1) c, eq_iff key k)

count-release :
    (channel tenant k : String) (c : Counts)
    → count k (release channel tenant c) ≡ (
        if str_eq (tenant_key channel tenant) k
        then count (tenant_key channel tenant) c - 1
        else if str_eq (channel_key channel) k
        then count (channel_key channel) c - 1
        else count k c)
unfolding release
count-release channel tenant k c =
    let ch = channel_key channel in
    let tn = tenant_key channel tenant in
    ground (
      arith,
      count-release_key tn k (release_key ch c),
      count-release_key ch k c,
      count-release_key ch tn c,
      differ channel tenant,
    )

module _ (channel tenant : String) (channel_limit tenant_limit : ℕ) (c : Counts) where
  abbrev ch : String
  ch = channel_key channel

  abbrev tn : String
  tn = tenant_key channel tenant

  abbrev after : SlotDecision × Counts
  after = acquire channel tenant channel_limit tenant_limit c

  -- The counters after a grant, in closed form.
  acquire-count :
      (k : String)
      → after.0.granted ≡ true
      → count k after.1 ≡ (
          if str_eq tn k then count tn c + 1 else if str_eq ch k then count ch c + 1 else count k c)
  unfolding acquire
  acquire-count k h = ground (
    arith,
    count-put tn k (count tn (put ch (count ch c + 1) c) + 1) (put ch (count ch c + 1) c),
    count-put ch k (count ch c + 1) c,
    count-put ch tn (count ch c + 1) c,
    differ channel tenant,
  )

  -- A slot is granted exactly when both levels are below their limits; then both counters go up
  -- by one and stay within the limits. Otherwise no counter changes, so a full tenant leaks no
  -- slot of the channel.
  pub acquire_slots :
      ((after.0.granted ≡ true) ↔ ((count ch c < channel_limit) × (count tn c < tenant_limit)))
      × (after.0.granted ≡ true
          → (count ch after.1 ≡ count ch c + 1)
            × (count tn after.1 ≡ count tn c + 1)
            × (count ch after.1 ≤ channel_limit)
            × (count tn after.1 ≤ tenant_limit))
      × (after.0.granted ≡ false → after.1 ≡ c)
  unfolding acquire
  acquire_slots = ground (
    arith,
    count-put tn ch (count tn (put ch (count ch c + 1) c) + 1) (put ch (count ch c + 1) c),
    count-put tn tn (count tn (put ch (count ch c + 1) c) + 1) (put ch (count ch c + 1) c),
    count-put ch ch (count ch c + 1) c,
    count-put ch tn (count ch c + 1) c,
    differ channel tenant,
    differ' channel tenant,
    eq_refl ch,
    eq_refl tn,
  )

  -- A slot that was granted and is released leaves every counter as it was before.
  pub release-acquire :
      (k : String) → after.0.granted ≡ true → count k (release channel tenant after.1) ≡ count k c
  release-acquire k h = ground (
    arith,
    count-release channel tenant k after.1,
    acquire-count k h,
    acquire-count ch h,
    acquire-count tn h,
    differ channel tenant,
    differ' channel tenant,
    eq_refl ch,
    eq_refl tn,
    eq_iff tn k,
    eq_iff ch k,
  )

-- Calibration only ever lowers the channel's counter: it becomes the smaller of itself and the
-- real number, the drift that is reported is what was taken off, and no other counter changes.
calibrate_lowers :
    (channel k : String) (real : ℕ) (c : Counts)
    → (count (channel_key channel) (calibrate_channel channel real c).1
        ≡ min (count (channel_key channel) c) real)
      × ((calibrate_channel channel real c).0 ≡ count (channel_key channel) c - real)
      × (k ≢ channel_key channel → count k (calibrate_channel channel real c).1 ≡ count k c)
unfolding calibrate_channel
calibrate_lowers channel k real c = ground (
  arith,
  count-put (channel_key channel) (channel_key channel) real c,
  count-put (channel_key channel) k real c,
  eq_refl (channel_key channel),
  eq_iff (channel_key channel) k,
)
