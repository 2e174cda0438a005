-- ===== src/Db/Dao/Inserts.antt =====
-- src/async_gateway/db/dao.py: `find_by_idempotency` and `insert`. An insert that breaks a unique
-- constraint of the table raises `IntegrityError`, here `none`. The constraints are those of
-- src/async_gateway/db/models.py; scripts/partition_async_task.sql, which partitions the table, puts
-- `created_at` into the index on key and window, and is not modelled.
use mathlib.Core.Option.{some-injective}
use async_task.Prelude.{
  ℕ, Bool, true, false, ◌&&◌, ◌||◌, ◌==◌, String, str_eq, eq_refl, Option, none, some, List, [],
  ◌∷◌, ◌++◌, any, get_or, ◌≡◌, refl, sym, subst, ap, ◌∙◌, Bool-cases, inl, inr, if◌then◌else◌,
  arith,
}
use async_task.Db.Task.{Task, Table}
use async_task.Db.Dao.Rows.{RowStep, TableStep}

abbrev pub is_for : String → ℕ → Task → Bool
is_for key bucket r = str_eq r.idempotency_key key && r.idempotency_bucket == bucket

unfoldable pub find_by_idempotency : String → ℕ → Table → Option Task
find_by_idempotency key bucket [] = none
find_by_idempotency key bucket (r ∷ t) =
    if is_for key bucket r then some r else find_by_idempotency key bucket t

abbrev pub same_token : Option String → Option String → Bool
same_token (some a) (some b) = str_eq a b
same_token _ _ = false

-- The primary key, `uq_task_idem_window` and the unique callback token.
unfoldable pub clashes : Task → Task → Bool
clashes r s =
    str_eq s.task_id r.task_id
    || (is_for r.idempotency_key r.idempotency_bucket s
        || same_token s.callback_token r.callback_token)

unfoldable pub insert_row : Task → Table → Option Table
unfolding clashes
insert_row r t = if any (clashes r) t then none else some (t ++ r ∷ [])

-- What other requests insert, those that fail left out.
unfoldable pub insert_all : List Task → Table → Table
unfolding insert_row
insert_all [] t = t
insert_all (r ∷ rivals) t = insert_all rivals (get_or (insert_row r t) t)

module _ (key : String) (bucket : ℕ) where
  find-here :
      (r : Task) (t : Table)
      → is_for key bucket r ≡ true
      → find_by_idempotency key bucket (r ∷ t) ≡ some r
  unfolding find_by_idempotency
  find-here r t h = rw h refl

  find-there :
      (r : Task) (t : Table)
      → is_for key bucket r ≡ false
      → find_by_idempotency key bucket (r ∷ t) ≡ find_by_idempotency key bucket t
  unfolding find_by_idempotency
  find-there r t h = rw h refl

  pub find-is_for :
      (t : Table) {r : Task}
      → find_by_idempotency key bucket t ≡ some r
      → is_for key bucket r ≡ true
  unfolding find_by_idempotency
  find-is_for [] e = cc
  find-is_for (x ∷ t) {r = r} e = elim (Bool-cases (is_for key bucket x)) [
    | inl here ↦
        subst (λ y. is_for key bucket y ≡ true) (some-injective x r (sym (find-here x t here) ∙ e))
          here
    | inr other ↦ find-is_for t (sym (find-there x t other) ∙ e)
  ]

  pub for_step : {x y : Task} → RowStep x y → is_for key bucket y ≡ is_for key bucket x
  for_step st = ap (λ q. str_eq q.0 key && q.1 == bucket) st.same_request

  -- A row stays the one that its key and window find, through every step of the table.
  pub find-TableStep :
      (t u : Table) {r : Task}
      → TableStep t u
      → find_by_idempotency key bucket t ≡ some r
      → (s : Task) × (find_by_idempotency key bucket u ≡ some s) × RowStep r s
  unfolding find_by_idempotency
  find-TableStep [] [] p e = cc
  find-TableStep [] (s ∷ u) p e = absurd p
  find-TableStep (r ∷ t) [] p e = absurd p
  find-TableStep (x ∷ t) (y ∷ u) {r = r} p e = elim (Bool-cases (is_for key bucket x)) [
    | inl here ↦ (
      y,
      find-here y u (for_step p.0 ∙ here),
      subst (λ z. RowStep z y) (some-injective x r (sym (find-here x t here) ∙ e)) p.0,
    )
    | inr other ↦
        let (s, e', st) = find-TableStep t u p.1 (sym (find-there x t other) ∙ e) in
        (s, find-there y u (for_step p.0 ∙ other) ∙ e', st)
  ]

  find-append :
      (t u : Table) {r : Task}
      → find_by_idempotency key bucket t ≡ some r
      → find_by_idempotency key bucket (t ++ u) ≡ some r
  unfolding find_by_idempotency
  find-append [] u e = cc
  find-append (x ∷ t) u {r = r} e = elim (Bool-cases (is_for key bucket x)) [
    | inl here ↦ find-here x (t ++ u) here ∙ (sym (find-here x t here) ∙ e)
    | inr other ↦ find-there x (t ++ u) other ∙ find-append t u (sym (find-there x t other) ∙ e)
  ]

  find-insert :
      (x : Task) (t : Table) {r : Task}
      → find_by_idempotency key bucket t ≡ some r
      → find_by_idempotency key bucket (get_or (insert_row x t) t) ≡ some r
  unfolding insert_row
  find-insert x t e = elim (Bool-cases (any (clashes x) t)) [
    | inl yes_ ↦ rw yes_ e
    | inr no_ ↦ rw no_ (find-append t (x ∷ []) e)
  ]

  pub find-insert_all :
      (rivals : List Task) (t : Table) {r : Task}
      → find_by_idempotency key bucket t ≡ some r
      → find_by_idempotency key bucket (insert_all rivals t) ≡ some r
  unfolding insert_all
  find-insert_all [] t e = e
  find-insert_all (x ∷ rivals) t e = find-insert_all rivals _ (find-insert x t e)

pub no_clash :
    (r x : Task) (rest : Bool)
    → (clashes r x || rest) ≡ false
    → (is_for r.idempotency_key r.idempotency_bucket x ≡ false) × (rest ≡ false)
unfolding clashes
no_clash r x rest h = (ground arith, ground arith)

own : (r : Task) → is_for r.idempotency_key r.idempotency_bucket r ≡ true
own r = ground (arith, eq_refl r.idempotency_key)

find-last :
    (r : Task) (t : Table)
    → any (clashes r) t ≡ false
    → find_by_idempotency r.idempotency_key r.idempotency_bucket (t ++ r ∷ []) ≡ some r
find-last r [] n = find-here r.idempotency_key r.idempotency_bucket r [] (own r)
find-last r (x ∷ t) n =
    let (other, rest) = no_clash r x (any (clashes r) t) n in
    find-there r.idempotency_key r.idempotency_bucket x (t ++ r ∷ []) other ∙ find-last r t rest

-- The row that an insert added is the one that its key and window find.
pub find-inserted :
    (r : Task) (t u : Table)
    → insert_row r t ≡ some u
    → find_by_idempotency r.idempotency_key r.idempotency_bucket u ≡ some r
unfolding insert_row
find-inserted r t u e = elim (Bool-cases (any (clashes r) t)) [
  | inl yes_ ↦ cc (rw yes_ at e)
  | inr no_ ↦
      subst (λ v. find_by_idempotency r.idempotency_key r.idempotency_bucket v ≡ some r)
        (some-injective _ _ (rw no_ at e)) (find-last r t no_)
]
