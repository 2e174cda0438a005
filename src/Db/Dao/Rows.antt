-- ===== src/Db/Dao/Rows.antt =====
-- How one UPDATE changes a row: `RowStep` is what every write keeps, row by row.
use async_task.Prelude.{
  ℕ, ◌≤◌, Bool, true, false, ◌||◌, String, str_eq, Option, some, List, [], ◌∷◌, ◌++◌, any, ◌≡◌, inl,
  inr, refl, sym, subst, ◌∙◌, Bool-cases, arith,
}
use async_task.Domain.Transitions.Paths.{◌⟶*◌, here, ⟶*-trans}
use async_task.Db.Task.{Task, Table}
use mathlib.Core.Option.{some-injective}
use async_task.Db.Assign.{
  Assign, set_status, put_result_ref, raise_cancel_requested, assign, assign_all,
}
use async_task.Db.Dao.Cas.{get}

pub or_left : (a : Bool) (b : Bool) → (a || b) ≡ false → a ≡ false
or_left a b h = ground arith

pub or_right : (a : Bool) (b : Bool) → (a || b) ≡ false → b ≡ false
or_right a b h = ground arith

-- Under which key a task was accepted, in which window, and with which body.
abbrev pub request_of : Task → String × ℕ × Option String
request_of r = (r.idempotency_key, r.idempotency_bucket, r.create_req_digest)

-- What every write to a row keeps: the key, the request it was accepted for, the whitelist, the version's order, a raised
-- cancellation and a stored result.
pub record RowStep (r s : Task) : Type 0 where
  pub same_id : s.task_id ≡ r.task_id
  pub same_request : request_of s ≡ request_of r
  pub path : r.status ⟶* s.status
  pub version : r.row_version ≤ s.row_version
  pub cancel_kept : r.cancel_requested ≡ true → s.cancel_requested ≡ true
  pub result_kept : (x : String) → r.result_ref ≡ some x → s.result_ref ≡ some x

pub RowStep-refl : (r : Task) → RowStep r r
RowStep-refl r = record {
  same_id = refl;
  same_request = refl;
  path = here;
  version = omega arith;
  cancel_kept = λ h. h;
  result_kept = λ x h. h;
}

pub RowStep-trans : {r s t : Task} → RowStep r s → RowStep s t → RowStep r t
RowStep-trans p q = record {
  same_id = cc (p.same_id, q.same_id);
  same_request = q.same_request ∙ p.same_request;
  path = ⟶*-trans p.path q.path;
  version = omega (arith, p.version, q.version);
  cancel_kept = λ h. q.cancel_kept (p.cancel_kept h);
  result_kept = λ x h. q.result_kept x (p.result_kept x h);
}

-- Two tables with as many rows, each row moved by a step.
abbrev pub TableStep : Table → Table → Type 0
TableStep [] [] = Unit
TableStep (r ∷ t) (s ∷ u) = RowStep r s × TableStep t u
TableStep _ _ = ⊥

pub TableStep-refl : (t : Table) → TableStep t t
TableStep-refl [] = tt
TableStep-refl (r ∷ t) = (RowStep-refl r, TableStep-refl t)

pub TableStep-trans : (t u v : Table) → TableStep t u → TableStep u v → TableStep t v
TableStep-trans [] [] [] p q = tt
TableStep-trans (r ∷ t) (s ∷ u) (w ∷ v) p q = (RowStep-trans p.0 q.0, TableStep-trans t u v p.1 q.1)
TableStep-trans [] [] (w ∷ v) p q = absurd q
TableStep-trans [] (s ∷ u) _ p q = absurd p
TableStep-trans (r ∷ t) [] _ p q = absurd p
TableStep-trans (r ∷ t) (s ∷ u) [] p q = absurd q

pub get-here :
    (id : String) (r : Task) (t : Table) → str_eq r.task_id id ≡ true → get id (r ∷ t) ≡ some r
unfolding get
get-here id r t h = rw h

pub get-there :
    (id : String) (r : Task) (t : Table) → str_eq r.task_id id ≡ false → get id (r ∷ t) ≡ get id t
unfolding get
get-there id r t h = rw h

-- A row that is there stays there, and has made a step.
pub get-TableStep :
    (id : String) (t u : Table) {r : Task}
    → TableStep t u
    → get id t ≡ some r
    → (s : Task) × (get id u ≡ some s) × RowStep r s
unfolding get
get-TableStep id [] [] p e = cc
get-TableStep id [] (s ∷ u) p e = absurd p
get-TableStep id (r ∷ t) [] p e = absurd p
get-TableStep id (r ∷ t) (s ∷ u) p e = elim (Bool-cases (str_eq r.task_id id)) [
  | inl same ↦ (
    s,
    get-here id s u (rw p.0.same_id same),
    subst (λ x. RowStep x s) (some-injective r _ (sym (get-here id r t same) ∙ e)) p.0,
  )
  | inr other ↦
      let (s', e', st) = get-TableStep id t u p.1 (sym (get-there id r t other) ∙ e) in
      (s', get-there id s u (rw p.0.same_id other) ∙ e', st)
]

abbrev pub sets_status : Assign → Bool
sets_status (set_status _) = true
sets_status _ = false

abbrev pub sets_result : Assign → Bool
sets_result (put_result_ref _) = true
sets_result _ = false

assign-id : (v : Assign) (r : Task) → (assign v r).task_id ≡ r.task_id
unfolding assign
assign-id (set_status x) r = refl
assign-id _ r = refl

assign-request : (v : Assign) (r : Task) → request_of (assign v r) ≡ request_of r
unfolding assign
assign-request (set_status x) r = refl
assign-request _ r = refl

assign-version : (v : Assign) (r : Task) → (assign v r).row_version ≡ r.row_version
unfolding assign
assign-version (set_status x) r = refl
assign-version _ r = refl

assign-cancel :
    (v : Assign) (r : Task) → r.cancel_requested ≡ true → (assign v r).cancel_requested ≡ true
unfolding assign
assign-cancel (set_status x) r h = h
assign-cancel raise_cancel_requested r h = refl
assign-cancel _ r h = h

assign-status : (v : Assign) (r : Task) → sets_status v ≡ false → (assign v r).status ≡ r.status
unfolding assign
assign-status (set_status x) r h = cc
assign-status _ r h = refl

assign-result :
    (v : Assign) (r : Task) → sets_result v ≡ false → (assign v r).result_ref ≡ r.result_ref
unfolding assign
assign-result (put_result_ref x) r h = cc
assign-result _ r h = refl

pub assign_all-id : (vs : List Assign) (r : Task) → (assign_all vs r).task_id ≡ r.task_id
unfolding assign_all
assign_all-id [] r = refl
assign_all-id (v ∷ vs) r = assign_all-id vs (assign v r) ∙ assign-id v r

pub assign_all-request : (vs : List Assign) (r : Task) → request_of (assign_all vs r) ≡ request_of r
unfolding assign_all
assign_all-request [] r = refl
assign_all-request (v ∷ vs) r = assign_all-request vs (assign v r) ∙ assign-request v r

pub assign_all-append :
    (vs ws : List Assign) (r : Task) → assign_all (vs ++ ws) r ≡ assign_all ws (assign_all vs r)
unfolding assign_all
assign_all-append [] ws r = refl
assign_all-append (v ∷ vs) ws r = assign_all-append vs ws (assign v r)

pub assign_all-version :
    (vs : List Assign) (r : Task) → (assign_all vs r).row_version ≡ r.row_version
unfolding assign_all
assign_all-version [] r = refl
assign_all-version (v ∷ vs) r = assign_all-version vs (assign v r) ∙ assign-version v r

pub assign_all-cancel :
    (vs : List Assign) (r : Task)
    → r.cancel_requested ≡ true
    → (assign_all vs r).cancel_requested ≡ true
unfolding assign_all
assign_all-cancel [] r h = h
assign_all-cancel (v ∷ vs) r h = assign_all-cancel vs (assign v r) (assign-cancel v r h)

pub assign_all-status :
    (vs : List Assign) (r : Task) → any sets_status vs ≡ false → (assign_all vs r).status ≡ r.status
unfolding assign_all
assign_all-status [] r h = refl
assign_all-status (v ∷ vs) r h =
    assign_all-status vs (assign v r) (or_right (sets_status v) _ h)
    ∙ assign-status v r (or_left (sets_status v) _ h)

pub assign_all-result :
    (vs : List Assign) (r : Task)
    → any sets_result vs ≡ false
    → (assign_all vs r).result_ref ≡ r.result_ref
unfolding assign_all
assign_all-result [] r h = refl
assign_all-result (v ∷ vs) r h =
    assign_all-result vs (assign v r) (or_right (sets_result v) _ h)
    ∙ assign-result v r (or_left (sets_result v) _ h)
