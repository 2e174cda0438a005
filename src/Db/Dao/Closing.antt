-- ===== src/Db/Dao/Closing.antt =====
-- What `advance` with one expected status does to a single row.
use mathlib.Core.Option.{some-injective}
use async_task.Prelude.{
  ℕ, Bool, true, false, String, str_eq, none, some, List, [], ◌∷◌, ◌≡◌, refl, sym, ap, ◌∙◌,
  Bool-cases, inl, inr, ◌⊎◌, if◌then◌else◌,
}
use async_task.Domain.Status.{TaskStatus, status_eq_self}
use async_task.Domain.Transitions.{can_transition}
use async_task.Db.Task.{Task, Table}
use async_task.Db.Assign.{Assign}
use async_task.Db.Dao.Cas.{
  get, update, cas, write, matches, no_extra, first_refused, advance, advance_payload,
}
use async_task.Db.Dao.Rows.{assign_all-id, get-here, get-there}
use async_task.Db.Dao.Advance.{table_after, advance_payload-EndsIn}

pub get-update :
    (id : String) (p : Task → Bool) (f : Task → Task) (t : Table) {r : Task}
    → ((x : Task) → (f x).task_id ≡ x.task_id)
    → get id t ≡ some r
    → get id (update p f t) ≡ some (if p r then f r else r)
unfolding get update
get-update id p f [] same e = cc
get-update id p f (x ∷ t) {r = r} same e = elim (Bool-cases (str_eq x.task_id id)) [
  | inl here ↦
      let found = some-injective x r (sym (get-here id x t here) ∙ e) in
      get-here id (if p x then f x else x) (update p f t) (moved (p x) here)
      ∙ ap (λ y. some (if p y then f y else y)) found
  | inr other ↦
      get-there id (if p x then f x else x) (update p f t) (moved (p x) other)
      ∙ get-update id p f t same (sym (get-there id x t other) ∙ e)
]
  where
    moved :
        {b : Bool} (c : Bool)
        → str_eq x.task_id id ≡ b
        → str_eq (if c then f x else x).task_id id ≡ b
    moved true h = rw (same x) h
    moved false h = h

pub get-id : (id : String) (t : Table) {r : Task} → get id t ≡ some r → str_eq r.task_id id ≡ true
unfolding get
get-id id [] e = cc
get-id id (x ∷ t) {r = r} e = elim (Bool-cases (str_eq x.task_id id)) [
  | inl here ↦ rw (sym (some-injective x r (sym (get-here id x t here) ∙ e))) here
  | inr other ↦ get-id id t (sym (get-there id x t other) ∙ e)
]

pub one_allowed :
    (s dst : TaskStatus) → can_transition s dst ≡ true → first_refused (s ∷ []) dst ≡ none
unfolding first_refused
one_allowed s dst h = rw h refl

pub one_refused :
    (s dst : TaskStatus) → can_transition s dst ≡ false → first_refused (s ∷ []) dst ≡ some s
unfolding first_refused
one_refused s dst h = rw h refl

module _ (now : ℕ) (dst : TaskStatus) (vs : List Assign) where
  abbrev writes : Task → Task
  writes = write now (advance_payload now dst vs)

  writes-id : (r : Task) → (writes r).task_id ≡ r.task_id
  unfolding write
  writes-id r = assign_all-id (advance_payload now dst vs) r

  writes-status : (r : Task) → (writes r).status ≡ dst
  unfolding write
  writes-status r = advance_payload-EndsIn now dst vs r

  abbrev after : String → TaskStatus → Table → Table
  after key s t = table_after (advance now key dst (some (s ∷ [])) vs t) t

  after-allowed :
      (key : String) (s : TaskStatus) (t : Table)
      → can_transition s dst ≡ true
      → after key s t ≡ update (matches key (s ∷ []) no_extra) writes t
  unfolding advance cas
  after-allowed key s t h = rw (one_allowed s dst h, advance) refl

  after-refused :
      (key : String) (s : TaskStatus) (t : Table) → can_transition s dst ≡ false → after key s t ≡ t
  unfolding advance
  after-refused key s t h = rw (one_refused s dst h, advance) refl

  -- Whatever row it is asked for, a row is as it was, or in the target status.
  pub advance_row :
      (key : String) (s : TaskStatus) (id : String) (t : Table) {r : Task}
      → get id t ≡ some r
      → (x : Task) × (get id (after key s t) ≡ some x) × ((x ≡ r) ⊎ (x.status ≡ dst))
  advance_row key s id t {r = r} e = elim (Bool-cases (can_transition s dst)) [
    | inl fine ↦
        let p = matches key (s ∷ []) no_extra in
        let found =
          ap (get id) (after-allowed key s t fine) ∙ get-update id p writes t writes-id e in
        (_, found, which (p r))
    | inr bad ↦ (r, ap (get id) (after-refused key s t bad) ∙ e, inl refl)
  ]
    where
      which :
          (b : Bool)
          → ((if b then writes r else r) ≡ r) ⊎ ((if b then writes r else r).status ≡ dst)
      which true = inr (writes-status r)
      which false = inl refl

  -- A row in the expected status is moved.
  pub advance_hit :
      (id : String) (t : Table) {r : Task}
      → get id t ≡ some r
      → can_transition r.status dst ≡ true
      → (x : Task) × (get id (after id r.status t) ≡ some x) × (x.status ≡ dst)
  unfolding matches
  advance_hit id t {r = r} e h =
      let p = matches id (r.status ∷ []) no_extra in
      (
        writes r,
        ap (get id) (after-allowed id r.status t h)
            ∙ get-update id p writes t writes-id e
            ∙ rw (get-id id t e, status_eq_self) refl,
        writes-status r,
      )
