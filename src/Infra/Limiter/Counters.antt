-- ===== src/Infra/Limiter/Counters.antt =====
-- A dict of counters; a missing key counts 0 (`counts.get(key, 0)`, `GET key or '0'`).
use async_task.Prelude.{ℕ, String, str_eq, List, [], ◌∷◌, ◌≡◌, refl, eq_iff, if◌then◌else◌, arith}

abbrev pub Counts : Type 0
Counts = List (String × ℕ)

unfoldable pub count : String → Counts → ℕ
count key [] = 0
count key ((k, n) ∷ rest) = if str_eq k key then n else count key rest

unfoldable pub put : String → ℕ → Counts → Counts
put key n [] = (key, n) ∷ []
put key n ((k, m) ∷ rest) = if str_eq k key then (k, n) ∷ rest else (k, m) ∷ put key n rest

-- `DEL key`
unfoldable pub delete : String → Counts → Counts
delete key [] = []
delete key ((k, n) ∷ rest) =
    let others = delete key rest in if str_eq k key then others else (k, n) ∷ others

pub count-put :
    (k j : String) (n : ℕ) (c : Counts)
    → count j (put k n c) ≡ (if str_eq k j then n else count j c)
unfolding count put
count-put k j n [] = refl
count-put k j n ((i, m) ∷ rest) =
    ground (arith, eq_iff k j, eq_iff i k, eq_iff i j, count-put k j n rest)

pub count-delete :
    (k j : String) (c : Counts) → count j (delete k c) ≡ (if str_eq k j then 0 else count j c)
unfolding count delete
count-delete k j [] = ground arith
count-delete k j ((i, m) ∷ rest) =
    ground (arith, eq_iff k j, eq_iff i k, eq_iff i j, count-delete k j rest)
