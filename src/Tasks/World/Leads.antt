-- ===== src/Tasks/World/Leads.antt =====
-- Actions that lead from one condition on the world to a weaker one.
use async_task.Prelude.{Bool, true, false, if◌then◌else◌}
use async_task.Outcome.{Result, ok, raised}
use async_task.Tasks.World.{World, M, ◌>>=◌, finally, continue, after_body}
use async_task.Tasks.World.Keeps.{Keeps}

pub record Leads {P A : Type 0} (L R : World P → Type 0) (m : M P A) : Type 0 where
  pub at : (w : World P) → L w → R (m w).1

module _ {P : Type 0} {L R : World P → Type 0} (weak : (w : World P) → L w → R w) where
  pub Leads-Keeps : {A : Type 0} {m : M P A} → Keeps R m → Leads L R m
  Leads-Keeps h = record { at = λ w l. h.at w (weak w l) }

  module _ {A B : Type 0} where
    continue-Leads :
        (r : Result A) (f : A → M P B) (w : World P)
        → ((a : A) → Leads L R (f a))
        → L w
        → R (continue r f w).1
    continue-Leads (ok a) f w h l = (h a).at w l
    continue-Leads (raised e) f w h l = weak w l

    -- A first step that keeps the stronger condition.
    pub Leads-bind :
        {m : M P A} {f : A → M P B} → Keeps L m → ((a : A) → Leads L R (f a)) → Leads L R (m >>= f)
    unfolding ◌>>=◌
    Leads-bind {m = m} {f = f} h g = record {
      at = λ w l. continue-Leads (m w).0 f (m w).1 g (h.at w l);
    }

after-R :
    {P A B : Type 0} (R : World P → Type 0) (r : Result A) (s : Result B × World P)
    → R s.1
    → R (after_body r s).1
after-R R r (ok b, w) k = k
after-R R r (raised e, w) k = k

module _ {P A : Type 0} {L R : World P → Type 0} where
  pub Leads-if :
      (b : Bool) {m n : M P A} → Leads L R m → Leads L R n → Leads L R (if b then m else n)
  Leads-if true h g = h
  Leads-if false h g = g

  pub Leads-finally :
      {B : Type 0} {m : M P A} {n : M P B} → Leads L R m → Keeps R n → Leads L R (finally m n)
  unfolding finally
  Leads-finally {m = m} {n = n} h g = record {
    at = λ w l. after-R R (m w).0 (n (m w).1) (g.at (m w).1 (h.at w l));
  }
