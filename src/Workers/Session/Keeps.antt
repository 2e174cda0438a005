-- ===== src/Workers/Session/Keeps.antt =====
-- A loop over rows keeps what each round keeps.
use async_task.Prelude.{ℕ, List, [], ◌∷◌}
use async_task.Db.Task.{Task}
use async_task.Tasks.World.{World, M}
use async_task.Tasks.World.Keeps.{Keeps, Keeps-pure, Keeps-bind}
use async_task.Workers.Session.{for_each}

pub for_each-Keeps :
    {P : Type 0} {K : World P → Type 0} {body : Task → M P ℕ} (rows : List Task)
    → ((r : Task) → Keeps K (body r))
    → Keeps K (for_each body rows)
unfolding for_each
for_each-Keeps [] h = Keeps-pure 0
for_each-Keeps (r ∷ rows) h =
    Keeps-bind (h r) (λ n. Keeps-bind (for_each-Keeps rows h) (λ k. Keeps-pure _))
