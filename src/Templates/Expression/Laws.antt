-- ===== src/Templates/Expression/Laws.antt =====
-- Evaluation of a path: what it finds, and that it never reads outside the document.
use async_task.Prelude.{
  subst, ℕ, zero, suc, ◌-◌, ◌≤◌, Bool, none, some, [], ◌∷◌, ◌≡◌, ◌↔◌, arith, length, Option-cases,
  inl, inr, Bool-cases,
}
use async_task.Db.Json.{Json, arr, Items, nil, cons}
use async_task.Templates.Expression.{
  Step, index, index_back, JsonPath, item_count, nth, descend, extract, try_extract,
  max_result_bytes,
}

-- The node that a path leads to, step by step.
pub data Leads : JsonPath → Json → Json → Type 0 where
  end : {j : Json} → Leads [] j j
  down :
      {s : Step} {p : JsonPath} {j k l : Json}
      → descend s j ≡ some k
      → Leads p k l
      → Leads (s ∷ p) j l

nth-none_iff : (n : ℕ) (xs : Items) → (nth n xs ≡ none) ↔ (item_count xs ≤ n)
unfolding nth item_count
nth-none_iff n nil = ground arith
nth-none_iff zero (cons x xs) = ground arith
nth-none_iff (suc n) (cons x xs) = ground (arith, nth-none_iff n xs)

-- An index finds an item exactly inside the array: `[n]` for `n` below its length, `[-n]` for `n`
-- from 1 up to its length.
index_in_range :
    (n : ℕ) (xs : Items)
    → ((descend (index n) (arr xs) ≡ none) ↔ (item_count xs ≤ n))
      × ((descend (index_back (suc n)) (arr xs) ≡ none) ↔ (item_count xs ≤ n))
unfolding descend
index_in_range n xs = ground (arith, nth-none_iff n xs, nth-none_iff (item_count xs - suc n) xs)

module _ (dump_size : Json → ℕ) (late : ℕ → Bool) where
  extract_base :
      (j k : Json)
      → try_extract dump_size late [] j ≡ some k
      → (j ≡ k) × (dump_size j ≤ max_result_bytes)
  unfolding try_extract
  extract_base j k h = ground arith

  extract_step :
      (s : Step) (p : JsonPath) (j k : Json)
      → try_extract dump_size late (s ∷ p) j ≡ some k
      → (next : Json) × (descend s j ≡ some next) × (try_extract dump_size late p next ≡ some k)
  unfolding try_extract extract
  extract_step s p j k h = elim (Bool-cases (late (length (s ∷ p)))) [
    | inl over ↦ absurd (ground arith)
    | inr fine ↦ elim (Option-cases (descend s j)) [
      | inl e ↦ absurd (ground arith)
      | inr (next, e) ↦ (next, e, ground arith)
    ]
  ]

  -- What is extracted is the node that the path leads to, and it is no larger than the limit.
  pub extract_sound :
      (p : JsonPath) (j k : Json)
      → try_extract dump_size late p j ≡ some k
      → Leads p j k × (dump_size k ≤ max_result_bytes)
  extract_sound [] j k h =
      let (same, small) = extract_base j k h in
      (subst (λ x. Leads [] j x) same end, subst (λ x. dump_size x ≤ max_result_bytes) same small)
  extract_sound (s ∷ p) j k h =
      let (next, e, rest) = extract_step s p j k h in
      let (leads, small) = extract_sound p next k rest in (down e leads, small)
