-- ===== src/Db/Dao/Steps.antt =====
-- The steps that one conditional update makes, from what its values and its WHERE clause say.
use async_task.Prelude.{
  ℕ, Bool, true, false, ◌&&◌, String, str_eq, none, List, [], ◌∷◌, any, ◌≡◌, inl, inr, ◌∙◌,
  Bool-cases, arith,
}
use async_task.Domain.Status.{TaskStatus, mem_status, status_eq-eq}
use async_task.Domain.Transitions.{can_transition, allowed_targets}
use async_task.Domain.Transitions.Paths.{here, step}
use async_task.Db.Task.{Task, Table}
use async_task.Db.Assign.{Assign, assign_all}
use async_task.Db.Dao.Cas.{matches, write, update, hit, cas, first_refused, sources_of}
use async_task.Db.Dao.Rows.{
  RowStep, TableStep, TableStep-refl, RowStep-refl, sets_status, sets_result, assign_all-id,
  assign_all-request, assign_all-version, assign_all-cancel, assign_all-status, assign_all-result,
}

-- A write that leaves the status alone.
pub write-still :
    (now : ℕ) (vs : List Assign) (r : Task)
    → any sets_status vs ≡ false
    → any sets_result vs ≡ false
    → RowStep r (write now vs r)
unfolding write
write-still now vs r h k = record {
  same_id = assign_all-id vs r;
  same_request = assign_all-request vs r;
  path = rw (assign_all-status vs r h) here;
  version = omega (arith, assign_all-version vs r);
  cancel_kept = assign_all-cancel vs r;
  result_kept = λ x e. assign_all-result vs r k ∙ e;
}

-- A write that moves the status along the whitelist.
pub write-to :
    (now : ℕ) (dst : TaskStatus) (vs : List Assign) (r : Task)
    → (assign_all vs r).status ≡ dst
    → can_transition r.status dst ≡ true
    → any sets_result vs ≡ false
    → RowStep r (write now vs r)
unfolding write
write-to now dst vs r h c k = record {
  same_id = assign_all-id vs r;
  same_request = assign_all-request vs r;
  path = rw h (step here c);
  version = omega (arith, assign_all-version vs r);
  cancel_kept = assign_all-cancel vs r;
  result_kept = λ x e. assign_all-result vs r k ∙ e;
}

pub update-TableStep :
    (p : Task → Bool) (f : Task → Task) (t : Table)
    → ((r : Task) → p r ≡ true → RowStep r (f r))
    → TableStep t (update p f t)
unfolding update
update-TableStep p f [] h = tt
update-TableStep p f (r ∷ t) h = elim (Bool-cases (p r)) [
  | inl hit ↦ rw hit (h r hit, update-TableStep p f t h)
  | inr miss ↦ rw miss (RowStep-refl r, update-TableStep p f t h)
]

and_parts : (a b c : Bool) → (a && b && c) ≡ true → (b ≡ true) × (c ≡ true)
and_parts a b c h = ground arith

pub cas-TableStep :
    (now : ℕ) (id : String) (expected : List TaskStatus) (vs : List Assign) (extra : Task → Bool)
    (t : Table)
    → ((r : Task)
        → mem_status r.status expected ≡ true
        → extra r ≡ true
        → RowStep r (write now vs r))
    → TableStep t (cas now id expected vs extra t).1
unfolding cas matches
cas-TableStep now id [] vs extra t h = TableStep-refl t
cas-TableStep now id (s ∷ expected) vs extra t h =
    update-TableStep _ _ t (λ r m. let (a, b) = split r m in h r a b)
  where
    split :
        (r : Task)
        → (str_eq r.task_id id && mem_status r.status (s ∷ expected) && extra r) ≡ true
        → (mem_status r.status (s ∷ expected) ≡ true) × (extra r ≡ true)
    split r m = and_parts (str_eq r.task_id id) (mem_status r.status (s ∷ expected)) (extra r) m

-- The whitelist holds from every source that `advance` lets through.
pub first_refused-none :
    (expected : List TaskStatus) (dst s : TaskStatus)
    → first_refused expected dst ≡ none
    → mem_status s expected ≡ true
    → can_transition s dst ≡ true
unfolding first_refused
first_refused-none [] dst s h m = cc
first_refused-none (e ∷ expected) dst s h m =
    ground (arith, first_refused-none expected dst s, status_eq-eq s e)

pub sources_of-allowed :
    (dst : TaskStatus) (all : List TaskStatus) (s : TaskStatus)
    → mem_status s (sources_of dst all) ≡ true
    → can_transition s dst ≡ true
unfolding sources_of can_transition
sources_of-allowed dst [] s m = cc
sources_of-allowed dst (e ∷ all) s m = elim (Bool-cases (mem_status dst (allowed_targets e))) [
  | inl yes_ ↦ ground (arith, sources_of-allowed dst all s, status_eq-eq s e)
  | inr no_ ↦ sources_of-allowed dst all s (rw no_ at m)
]
