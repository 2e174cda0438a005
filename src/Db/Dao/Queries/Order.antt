-- ===== src/Db/Dao/Queries/Order.antt =====
-- Filters, orders and limits of the queries: what a limited query leaves out comes no earlier than
-- what it lists.
use mathlib.Core.List.{Memᴰ}
use async_task.Prelude.{
  ℕ, zero, suc, ◌≤◌, Bool, true, List, [], ◌∷◌, All, ◌≡◌, refl, sym, subst, leb, Bool-cases, ◌⊎◌,
  inl, inr, take, arith,
}
use async_task.Db.Task.{Task, Table}
use async_task.Db.Dao.Queries.{select, place, order_by}

module _ (p : Task → Bool) where
  pub select_sound : (t : Table) → All (λ r. p r ≡ true) (select p t)
  unfolding select
  select_sound [] = tt
  select_sound (r ∷ t) = elim (Bool-cases (p r)) [
    | inl yes_ ↦ rw yes_ (yes_, select_sound t)
    | inr no_ ↦ rw no_ (select_sound t)
  ]

  pub select_complete : {x : Task} {t : Table} → Memᴰ x t → p x ≡ true → Memᴰ x (select p t)
  unfolding select
  select_complete {t = []} m h = elim m [ ]
  select_complete {t = r ∷ t} (Memᴰ.head e) h = rw (subst (λ y. p y ≡ true) e h) (Memᴰ.head e)
  select_complete {t = r ∷ t} (Memᴰ.tail m) h = elim (Bool-cases (p r)) [
    | inl yes_ ↦ rw yes_ (Memᴰ.tail (select_complete m h))
    | inr no_ ↦ rw no_ (select_complete m h)
  ]

module _ (Q : Task → Type 0) where
  pub take-All : (n : ℕ) (t : Table) → All Q t → All Q (take n t)
  take-All zero t a = tt
  take-All (suc n) [] a = tt
  take-All (suc n) (r ∷ t) a = (a.0, take-All n t a.1)

  pub All-Mem : {x : Task} {t : Table} → All Q t → Memᴰ x t → Q x
  All-Mem {t = []} a m = elim m [ ]
  All-Mem {t = r ∷ t} a (Memᴰ.head e) = subst Q (sym e) a.0
  All-Mem {t = r ∷ t} a (Memᴰ.tail m) = All-Mem a.1 m

module _ (key : Task → ℕ) where
  abbrev pub Ordered : List Task → Type 0
  Ordered [] = Unit
  Ordered (r ∷ t) = All (λ s. key r ≤ key s) t × Ordered t

  module _ (Q : Task → Type 0) where
    place-All : (r : Task) (t : List Task) → Q r → All Q t → All Q (place key r t)
    unfolding place
    place-All r [] q a = (q, tt)
    place-All r (s ∷ t) q a = elim (Bool-cases (leb (key r) (key s))) [
      | inl yes_ ↦ rw yes_ (q, a)
      | inr no_ ↦ rw no_ (a.0, place-All r t q a.1)
    ]

    pub order_by-All : (t : List Task) → All Q t → All Q (order_by key t)
    unfolding order_by
    order_by-All [] a = tt
    order_by-All (r ∷ t) a = place-All r (order_by key t) a.0 (order_by-All t a.1)

  place-here : (r : Task) (t : List Task) → Memᴰ r (place key r t)
  unfolding place
  place-here r [] = Memᴰ.head refl
  place-here r (s ∷ t) = elim (Bool-cases (leb (key r) (key s))) [
    | inl yes_ ↦ rw yes_ (Memᴰ.head refl)
    | inr no_ ↦ rw no_ (Memᴰ.tail (place-here r t))
  ]

  place-there : {x : Task} (r : Task) (t : List Task) → Memᴰ x t → Memᴰ x (place key r t)
  unfolding place
  place-there r [] m = elim m [ ]
  place-there r (s ∷ t) (Memᴰ.head e) = elim (Bool-cases (leb (key r) (key s))) [
    | inl yes_ ↦ rw yes_ (Memᴰ.tail (Memᴰ.head e))
    | inr no_ ↦ rw no_ (Memᴰ.head e)
  ]
  place-there r (s ∷ t) (Memᴰ.tail m) = elim (Bool-cases (leb (key r) (key s))) [
    | inl yes_ ↦ rw yes_ (Memᴰ.tail (Memᴰ.tail m))
    | inr no_ ↦ rw no_ (Memᴰ.tail (place-there r t m))
  ]

  pub order_by-Mem : {x : Task} (t : List Task) → Memᴰ x t → Memᴰ x (order_by key t)
  unfolding order_by
  order_by-Mem [] m = elim m [ ]
  order_by-Mem (r ∷ t) (Memᴰ.head e) =
      subst (λ y. Memᴰ y (order_by key (r ∷ t))) (sym e) (place-here r (order_by key t))
  order_by-Mem (r ∷ t) (Memᴰ.tail m) = place-there r (order_by key t) (order_by-Mem t m)

  All-above : (a b : ℕ) (t : List Task) → a ≤ b → All (λ s. b ≤ key s) t → All (λ s. a ≤ key s) t
  All-above a b [] h q = tt
  All-above a b (s ∷ t) h q = (omega (arith, h, q.0), All-above a b t h q.1)

  place-Ordered : (r : Task) (t : List Task) → Ordered t → Ordered (place key r t)
  unfolding place
  place-Ordered r [] o = (tt, tt)
  place-Ordered r (s ∷ t) o = elim (Bool-cases (leb (key r) (key s))) [
    | inl yes_ ↦
        let below : key r ≤ key s = ground (arith, yes_) in
        rw yes_ ((below, All-above (key r) (key s) t below o.0), o)
    | inr no_ ↦
        let below : key s ≤ key r = ground (arith, no_) in
        rw no_ (place-All (λ q. key s ≤ key q) r t below o.0, place-Ordered r t o.1)
  ]

  pub order_by-Ordered : (t : List Task) → Ordered (order_by key t)
  unfolding order_by
  order_by-Ordered [] = tt
  order_by-Ordered (r ∷ t) = place-Ordered r (order_by key t) (order_by-Ordered t)

  -- A row of an ordered list is among the first ones, or none of these comes later than it.
  pub take-first :
      {x : Task} (n : ℕ) (t : List Task)
      → Ordered t
      → Memᴰ x t
      → Memᴰ x (take n t) ⊎ All (λ s. key s ≤ key x) (take n t)
  take-first zero t o m = inr tt
  take-first (suc n) (r ∷ t) o (Memᴰ.head e) = inl (Memᴰ.head e)
  take-first (suc n) [] o m = elim m [ ]
  take-first {x = x} (suc n) (r ∷ t) o (Memᴰ.tail m) =
      let below = All-Mem (λ s. key r ≤ key s) o.0 m in
      elim (take-first n t o.1 m) [
        | inl found ↦ inl (Memᴰ.tail found)
        | inr earlier ↦ inr (below, earlier)
      ]
