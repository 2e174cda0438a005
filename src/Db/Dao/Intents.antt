-- ===== src/Db/Dao/Intents.antt =====
-- The submit intent: at most one worker holds it between two releases.
use async_task.Prelude.{
  ℕ, Bool, true, false, not, ◌||◌, String, str_eq, Option, none, some, is_some, List, [], ◌∷◌, any,
  All, ◌≡◌, refl, arith, Bool-cases, inl, inr, Option-cases, ◌∙◌,
}
use async_task.Domain.Status.{TaskStatus}
use async_task.Db.Json.{Json}
use async_task.Db.Task.{Task, Table}
use async_task.Db.Assign.{Assign, set_submit_started_at, assign, assign_all}
use async_task.Db.Dao.Cas.{cas, write, update, advance, first_refused}
use async_task.Db.Dao.Writes.{relocate_values}
use async_task.Db.Dao.Calls.{Call}
use async_task.Db.Dao.Rows.{assign_all-id}
use async_task.Db.Dao.Advance.{table_after, advance_payload-any}

abbrev pub sets_intent : Assign → Bool
sets_intent (set_submit_started_at v) = true
sets_intent _ = false

-- A call that does not give the intent back.
abbrev pub keeps_intent : Call → Bool
keeps_intent (Call.advance id dst expected vs) = not (any sets_intent vs)
keeps_intent
      (Call.release_submit_intent id expected at decr code message retryable attrs deadline) =
    false
keeps_intent _ = true

abbrev pub KeepsIntent : ℕ × Call → Type 0
KeepsIntent c = keeps_intent c.1 ≡ true

-- Every row with the key has its intent set.
abbrev pub Held : String → Table → Type 0
Held id t = All (λ r. str_eq r.task_id id ≡ true → is_some r.submit_started_at ≡ true) t

assign-intent :
    (v : Assign) (r : Task)
    → sets_intent v ≡ false
    → (assign v r).submit_started_at ≡ r.submit_started_at
unfolding assign
assign-intent (set_submit_started_at v) r h = cc
assign-intent _ r h = refl

or_parts : (a b : Bool) → (a || b) ≡ false → (a ≡ false) × (b ≡ false)
or_parts a b h = ground arith

assign_all-intent :
    (vs : List Assign) (r : Task)
    → any sets_intent vs ≡ false
    → (assign_all vs r).submit_started_at ≡ r.submit_started_at
unfolding assign_all
assign_all-intent [] r h = refl
assign_all-intent (v ∷ vs) r h =
    let (a, b) = or_parts (sets_intent v) (any sets_intent vs) h in
    assign_all-intent vs (assign v r) b ∙ assign-intent v r a

-- Values that leave a held intent held, on every row.
abbrev pub Safe : String → List Assign → Type 0
Safe id vs =
    (now : ℕ) (r : Task)
    → (str_eq r.task_id id ≡ true → is_some r.submit_started_at ≡ true)
    → str_eq (write now vs r).task_id id ≡ true
    → is_some (write now vs r).submit_started_at ≡ true

pub free-Safe : (id : String) (vs : List Assign) → any sets_intent vs ≡ false → Safe id vs
unfolding write
free-Safe id vs h now r held same = rw (assign_all-intent vs r h) (held (rw assign_all-id at same))

update-Held :
    (id : String) (p : Task → Bool) (now : ℕ) (vs : List Assign) (t : Table)
    → Safe id vs
    → Held id t
    → Held id (update p (write now vs) t)
unfolding update
update-Held id p now vs [] s h = tt
update-Held id p now vs (r ∷ t) s h = elim (Bool-cases (p r)) [
  | inl yes_ ↦ rw yes_ (s now r h.0, update-Held id p now vs t s h.1)
  | inr no_ ↦ rw no_ (h.0, update-Held id p now vs t s h.1)
]

pub cas-Held :
    (id : String) (now : ℕ) (key : String) (expected : List TaskStatus) (vs : List Assign)
    (extra : Task → Bool) (t : Table)
    → Safe id vs
    → Held id t
    → Held id (cas now key expected vs extra t).1
unfolding cas
cas-Held id now key [] vs extra t s h = h
cas-Held id now key (e ∷ expected) vs extra t s h = update-Held id _ now vs t s h

pub cas_free :
    (id : String) (now : ℕ) (key : String) (expected : List TaskStatus) (vs : List Assign)
    (extra : Task → Bool) (t : Table)
    → any sets_intent vs ≡ false
    → Held id t
    → Held id (cas now key expected vs extra t).1
cas_free id now key expected vs extra t n h =
    cas-Held id now key expected vs extra t (free-Safe id vs n) h

pub advance-Held :
    (id : String) (now : ℕ) (key : String) (dst : TaskStatus) (expected : Option (List TaskStatus))
    (vs : List Assign) (t : Table)
    → any sets_intent vs ≡ false
    → Held id t
    → Held id (table_after (advance now key dst expected vs t) t)
unfolding advance
advance-Held id now key dst none vs t n h =
    cas_free id now key _ _ _ t (advance_payload-any sets_intent now dst vs refl refl refl n) h
advance-Held id now key dst (some expected) vs t n h =
    elim (Option-cases (first_refused expected dst)) [
      | inl fine ↦
          rw (fine, advance)
            (cas_free id now key expected _ _ t
              (advance_payload-any sets_intent now dst vs refl refl refl n) h)
      | inr (src, bad) ↦ rw (bad, advance) h
    ]

pub relocate_values-free :
    (now : ℕ) (up : Option String) (target : TaskStatus) (raw : Option String) (snap : Option Json)
    (at : Option ℕ) (why : Option String)
    → any sets_intent (relocate_values now up target raw snap at why) ≡ false
unfolding relocate_values
relocate_values-free now up target raw snap at why = ground arith
