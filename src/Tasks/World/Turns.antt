-- ===== src/Tasks/World/Turns.antt =====
-- Actions that turn one property of the world into a weaker one, whether they return or raise.
use async_task.Prelude.{Bool, true, false, if◌then◌else◌}
use async_task.Outcome.{Result, ok, raised}
use async_task.Tasks.World.{World, M, finally, ◌>>=◌, continue}
use async_task.Tasks.World.Keeps.{Keeps, continue-K, after-K}

pub record Turns {P A : Type 0} (K L : World P → Type 0) (m : M P A) : Type 0 where
  pub at : (w : World P) → K w → L (m w).1

module _ {P A B : Type 0} {K L : World P → Type 0} where
  pub Turns-first :
      {m : M P A} {f : A → M P B} → Turns K L m → ((a : A) → Keeps L (f a)) → Turns K L (m >>= f)
  unfolding ◌>>=◌
  Turns-first {m} {f} h g = record { at = λ w k. continue-K (m w).0 f (m w).1 g (h.at w k) }

  pub Turns-finally : {m : M P A} {n : M P B} → Turns K L m → Keeps L n → Turns K L (finally m n)
  unfolding finally
  Turns-finally {m} {n} h g = record {
    at = λ w k. after-K L (m w).0 (n (m w).1) (g.at (m w).1 (h.at w k));
  }

module _ {P A B : Type 0} {K L : World P → Type 0} (weaker : (w : World P) → K w → L w) where
  kept :
      (r : Result A) (f : A → M P B) (w : World P)
      → ((a : A) → Turns K L (f a))
      → K w
      → L (continue r f w).1
  kept (ok a) f w h k = (h a).at w k
  kept (raised e) f w h k = weaker w k

  pub Turns-then :
      {m : M P A} {f : A → M P B} → Keeps K m → ((a : A) → Turns K L (f a)) → Turns K L (m >>= f)
  unfolding ◌>>=◌
  Turns-then {m} {f} h g = record { at = λ w k. kept (m w).0 f (m w).1 g (h.at w k) }

pub Turns-keep :
    {P A : Type 0} {K L : World P → Type 0}
    → ((w : World P) → K w → L w)
    → {m : M P A} → Keeps K m
    → Turns K L m
Turns-keep weaker {m} h = record { at = λ w k. weaker (m w).1 (h.at w k) }

pub Turns-if :
    {P A : Type 0} {K L : World P → Type 0} (b : Bool) {m n : M P A}
    → Turns K L m
    → Turns K L n
    → Turns K L (if b then m else n)
Turns-if true h g = h
Turns-if false h g = g
