-- ===== src/Infra/AcceptLimiter/Laws.antt =====
-- How many requests a token bucket lets pass, and when it lets the next one pass.
use async_task.Prelude.{
  ℕ, suc, ◌+◌, ◌-◌, ◌*◌, ◌/◌, ◌≤◌, ◌<◌, min, Bool, true, false, some, List, [], ◌∷◌, ◌≡◌, refl, sym,
  subst, ap, ◌∙◌, leb, Bool-cases, inl, inr, if◌then◌else◌, arith,
}
use native.Mathlib.Nat.{add-mul, mul-le-mul_right, div-lt_iff_lt-mul}
use mathlib.Core.Option.{some-injective}
use async_task.Infra.AcceptLimiter.{Bucket, token, full_bucket, wait_for, refill, try_acquire}

-- Requests of one token each at the given instants: how many pass, and the bucket afterwards.
unfoldable pub admit_all : ℕ → ℕ → List ℕ → Bucket → ℕ × Bucket
admit_all rate burst [] b = (0, b)
admit_all rate burst (now ∷ rest) b =
    let (d, b') = try_acquire rate burst 1 now b in
    let (n, last) = admit_all rate burst rest b' in ((if d.granted then n + 1 else n), last)

-- Instants in order, none before the first one.
abbrev pub InOrder : ℕ → List ℕ → Type 0
InOrder at [] = Unit
InOrder at (now ∷ rest) = (at ≤ now) × InOrder now rest

step-ts : (rate burst now : ℕ) (b : Bucket) → (try_acquire rate burst 1 now b).1.ts ≡ now
unfolding try_acquire
step-ts rate burst now b = elim (Bool-cases (leb token (refill rate burst now b).tokens)) [
  | inl e ↦ rw e refl
  | inr e ↦ rw e refl
]

enough : (x : ℕ) → leb token x ≡ true → token ≤ x
enough x h = ground (arith, h)

-- What a request costs is paid from what has flowed in.
step-paid :
    (rate burst now : ℕ) (b : Bucket)
    → (if (try_acquire rate burst 1 now b).0.granted then 1 else 0) * token
        + (try_acquire rate burst 1 now b).1.tokens
      ≤ b.tokens + (now - b.ts) * rate
unfolding try_acquire refill
step-paid rate burst now b = elim (Bool-cases (leb token (refill rate burst now b).tokens)) [
  | inl e ↦ rw e (omega (arith, enough _ e))
  | inr e ↦ rw e (omega arith)
]

last-ts :
    (rate burst : ℕ) (nows : List ℕ) (b : Bucket)
    → InOrder b.ts nows
    → b.ts ≤ (admit_all rate burst nows b).1.ts
unfolding admit_all
last-ts rate burst [] b o = omega arith
last-ts rate burst (now ∷ rest) b o =
    let b' = (try_acquire rate burst 1 now b).1 in
    let at = step-ts rate burst now b in
    let later = last-ts rate burst rest b' (subst (λ t. InOrder t rest) (sym at) o.1) in
    omega (arith, later, at, o.0)

count_step :
    (g : Bool) (n : ℕ) → (if g then n + 1 else n) * token ≡ (if g then 1 else 0) * token + n * token
count_step true n = omega arith
count_step false n = omega arith

elapsed : (a b c rate : ℕ) → a ≤ b → b ≤ c → (c - b) * rate + (b - a) * rate ≡ (c - a) * rate
elapsed a b c rate h k =
    sym (add-mul (c - b) (b - a) rate) ∙ ap (λ x. x * rate) (omega (arith, h, k))

paid :
    (rate burst : ℕ) (nows : List ℕ) (b : Bucket)
    → InOrder b.ts nows
    → (admit_all rate burst nows b).0 * token + (admit_all rate burst nows b).1.tokens
      ≤ b.tokens + ((admit_all rate burst nows b).1.ts - b.ts) * rate
unfolding admit_all
paid rate burst [] b o = omega arith
paid rate burst (now ∷ rest) b o =
    let (d, b') = try_acquire rate burst 1 now b in
    let (n, last) = admit_all rate burst rest b' in
    let at : b'.ts ≡ now = step-ts rate burst now b in
    let order = subst (λ t. InOrder t rest) (sym at) o.1 in
    let rec : n * token + last.tokens ≤ b'.tokens + (last.ts - now) * rate =
      subst (λ t. n * token + last.tokens ≤ b'.tokens + (last.ts - t) * rate) at
        (paid rate burst rest b' order) in
    let late : now ≤ last.ts = subst (λ t. t ≤ last.ts) at (last-ts rate burst rest b' order) in
    omega (
      arith,
      rec,
      step-paid rate burst now b,
      elapsed b.ts now last.ts rate o.0 late,
      count_step d.granted n,
    )

-- From a full bucket, requests of one token each that come in order pass at most the burst, and
-- what the rate gives in the time between the first instant and the last request.
pub admitted_bound :
    (rate burst at : ℕ) (nows : List ℕ)
    → InOrder at nows
    → let (n, last) = admit_all rate burst nows (full_bucket burst at) in
      n * token ≤ burst * token + (last.ts - at) * rate
unfolding full_bucket
admitted_bound rate burst at nows o =
    let got = paid rate burst nows (full_bucket burst at) o in omega (arith, got)

waited : (rate missing w span : ℕ) → w ≡ missing / suc rate → w < span → missing ≤ span * suc rate
waited rate missing w span e h =
    let more =
      (div-lt_iff_lt-mul {k = suc rate} {x = missing} {y = span} (omega arith)).0
        (subst (λ x. x < span) e h) in
    omega (arith, more)

room : (c f x top : ℕ) → c ≤ top → c - f ≤ x → c ≤ min top (f + x)
room c f x top h k = omega (arith, h, k)

leb_of : (a b : ℕ) → a ≤ b → leb a b ≡ true
leb_of a b h = ground (arith, h)

granted-if :
    (rate burst cost now : ℕ) (b : Bucket)
    → cost * token ≤ (refill rate burst now b).tokens
    → (try_acquire rate burst cost now b).0.granted ≡ true
unfolding try_acquire
granted-if rate burst cost now b h =
    rw (leb_of (cost * token) (refill rate burst now b).tokens h) refl

-- A request that is refused and comes again after its wait is over passes, if no other request
-- came in between, it costs no more than the burst, and the rate is positive.
retry_passes :
    (rate burst cost now later : ℕ) (b : Bucket) {w : ℕ}
    → cost ≤ burst
    → (try_acquire (suc rate) burst cost now b).0.retry_after ≡ some w
    → now + w < later
    → (try_acquire
        (suc rate)
        burst
        cost
        later
        (try_acquire (suc rate) burst cost now b).1).0.granted
      ≡ true
unfolding try_acquire
retry_passes rate burst cost now later b {w = w} fits e h =
    let filled = refill (suc rate) burst now b in
    elim (Bool-cases (leb (cost * token) filled.tokens)) [
      | inl yes_ ↦ cc (rw (yes_, try_acquire) at e)
      | inr no_ ↦
          let same : wait_for (suc rate) (cost * token - filled.tokens) ≡ w =
            some-injective _ w (rw (no_, try_acquire) at e) in
          let flow =
            waited rate (cost * token - filled.tokens) w (later - now) (sym same)
              (omega (arith, h)) in
          rw (no_, try_acquire)
            (granted-if (suc rate) burst cost later filled (
              room (cost * token) filled.tokens ((later - now) * suc rate) (burst * token)
                (mul-le-mul_right token fits) flow))
    ]
