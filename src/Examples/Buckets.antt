-- ===== src/Examples/Buckets.antt =====
-- The theorems on the token bucket at concrete inputs.
use async_task.Prelude.{ℕ, ◌+◌, ◌-◌, ◌*◌, ◌≤◌, List, [], ◌∷◌, arith}
use async_task.Infra.AcceptLimiter.{token, full_bucket}
use async_task.Infra.AcceptLimiter.Laws.{admit_all, admitted_bound}

abbrev nows : List ℕ
nows = 1_000_000 ∷ 1_000_000 ∷ 1_000_000 ∷ 1_600_000 ∷ []

admitted_bound_example :
    (admit_all 2 2 nows (full_bucket 2 1_000_000)).0 * token
    ≤ 2 * token + ((admit_all 2 2 nows (full_bucket 2 1_000_000)).1.ts - 1_000_000) * 2
admitted_bound_example =
    admitted_bound 2 2 1_000_000 nows (omega arith, (omega arith, (omega arith, (omega arith, tt))))
