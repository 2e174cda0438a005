-- ===== src/Db/Dao/Advance.antt =====
-- What `advance` writes: the target status whatever the caller's values, along the whitelist.
use async_task.Outcome.{ok, raised}
use async_task.Db.Dao.Steps.{write-to, cas-TableStep, first_refused-none, sources_of-allowed}
use async_task.Prelude.{
  Option, Option-cases, Option, not, ◌||◌, refl, some, if◌then◌else◌, ◌++◌, ℕ, Bool, true, false,
  ◌&&◌, String, none, List, [], ◌∷◌, any, ◌≡◌, inl, inr, ◌∙◌, Bool-cases, arith,
}
use async_task.Domain.Status.{
  all_statuses, cancelled, succeeded, status_eq, internal_terminal, TaskStatus, mem_status,
}
use async_task.Db.Task.{Task, Table}
use async_task.Db.Assign.{
  set_next_poll_at, sets_next_poll_at, set_finished_at, sets_finished_at, set_status, Assign,
  assign_all,
}
use async_task.Db.Dao.Cas.{
  no_extra, advance, Written, set_default, advance_payload, first_refused, sources_of,
}
use async_task.Db.Dao.Rows.{
  assign_all-append, TableStep, TableStep-refl, sets_status, sets_result, assign_all-status,
}

any_append :
    (p : Assign → Bool) (vs ws : List Assign)
    → any p vs ≡ false
    → any p ws ≡ false
    → any p (vs ++ ws) ≡ false
any_append p [] ws h k = k
any_append p (v ∷ vs) ws h k = ground (arith, any_append p vs ws)

abbrev EndsIn : TaskStatus → List Assign → Type 0
EndsIn dst vs = (r : Task) → (assign_all vs r).status ≡ dst

-- A default that is no status leaves the final status as it is.
set_default-EndsIn :
    (f : Assign → Bool) (a : Assign) (vs : List Assign) (dst : TaskStatus)
    → sets_status a ≡ false
    → EndsIn dst vs
    → EndsIn dst (set_default f a vs)
set_default-EndsIn f a vs dst n h r = elim (Bool-cases (any f vs)) [
  | inl there ↦ rw there (h r)
  | inr missing ↦
      rw (missing, assign_all-append)
        (assign_all-status (a ∷ []) (assign_all vs r) (rw n refl) ∙ h r)
]

set_default-any :
    (p f : Assign → Bool) (a : Assign) (vs : List Assign)
    → p a ≡ false
    → any p vs ≡ false
    → any p (set_default f a vs) ≡ false
set_default-any p f a vs n h = elim (Bool-cases (any f vs)) [
  | inl there ↦ rw there h
  | inr missing ↦ rw missing (any_append p vs (a ∷ []) h (rw n refl))
]

-- Whatever the caller's values say, `advance` writes the target status.
pub advance_payload-EndsIn :
    (now : ℕ) (dst : TaskStatus) (vs : List Assign) → EndsIn dst (advance_payload now dst vs)
unfolding advance_payload
advance_payload-EndsIn now dst vs =
    defaults
      (mem_status dst internal_terminal || status_eq dst succeeded || status_eq dst cancelled)
      (not (status_eq dst succeeded)
        && (mem_status dst internal_terminal || status_eq dst cancelled))
  where
    base : EndsIn dst (vs ++ set_status dst ∷ [])
    base r = rw assign_all-append (unfold assign_all in refl)

    with_finished :
        (b : Bool)
        → EndsIn dst (
            if b
            then set_default sets_finished_at
                (set_finished_at (some now))
                (vs ++ set_status dst ∷ [])
            else vs ++ set_status dst ∷ [])
    with_finished true = set_default-EndsIn sets_finished_at _ _ dst refl base
    with_finished false = base

    defaults :
        (b c : Bool)
        → EndsIn dst (
            let finished =
              if b
              then set_default sets_finished_at
                  (set_finished_at (some now))
                  (vs ++ set_status dst ∷ [])
              else vs ++ set_status dst ∷ [] in
            if c then set_default sets_next_poll_at (set_next_poll_at none) finished else finished)
    defaults b true = set_default-EndsIn sets_next_poll_at _ _ dst refl (with_finished b)
    defaults b false = with_finished b

-- A test that the caller's values fail, and the status and the defaults too, the payload fails.
pub advance_payload-any :
    (p : Assign → Bool) (now : ℕ) (dst : TaskStatus) (vs : List Assign)
    → p (set_status dst) ≡ false
    → p (set_finished_at (some now)) ≡ false
    → p (set_next_poll_at none) ≡ false
    → any p vs ≡ false
    → any p (advance_payload now dst vs) ≡ false
unfolding advance_payload
advance_payload-any p now dst vs a b c h =
    defaults
      (mem_status dst internal_terminal || status_eq dst succeeded || status_eq dst cancelled)
      (not (status_eq dst succeeded)
        && (mem_status dst internal_terminal || status_eq dst cancelled))
  where
    base : any p (vs ++ set_status dst ∷ []) ≡ false
    base = any_append p vs (set_status dst ∷ []) h (rw a refl)

    with_finished :
        (x : Bool)
        → any p (
            if x
            then set_default sets_finished_at
                (set_finished_at (some now))
                (vs ++ set_status dst ∷ [])
            else vs ++ set_status dst ∷ [])
          ≡ false
    with_finished true =
        set_default-any p sets_finished_at (set_finished_at (some now)) (vs ++ set_status dst ∷ [])
          b base
    with_finished false = base

    defaults :
        (x y : Bool)
        → any p (
            let finished =
              if x
              then set_default sets_finished_at
                  (set_finished_at (some now))
                  (vs ++ set_status dst ∷ [])
              else vs ++ set_status dst ∷ [] in
            if y then set_default sets_next_poll_at (set_next_poll_at none) finished else finished)
          ≡ false
    defaults x true =
        set_default-any p sets_next_poll_at (set_next_poll_at none)
          (if x
            then set_default sets_finished_at (set_finished_at (some now))
                (vs ++ set_status dst ∷ [])
            else vs ++ set_status dst ∷ [])
          c (with_finished x)
    defaults x false = with_finished x

advance_payload-result :
    (now : ℕ) (dst : TaskStatus) (vs : List Assign)
    → any sets_result vs ≡ false
    → any sets_result (advance_payload now dst vs) ≡ false
advance_payload-result now dst vs h = advance_payload-any sets_result now dst vs refl refl refl h

-- The table after a method that may raise: a raise rolls the session back.
abbrev pub table_after : Written → Table → Table
table_after (ok (done, u)) t = u
table_after (raised e) t = t

-- `advance`, whatever it is asked, moves rows along the whitelist or raises.
pub advance-TableStep :
    (now : ℕ) (id : String) (dst : TaskStatus) (expected : Option (List TaskStatus))
    (vs : List Assign) (t : Table)
    → any sets_result vs ≡ false
    → TableStep t (table_after (advance now id dst expected vs t) t)
unfolding advance
advance-TableStep now id dst none vs t h =
    cas-TableStep now id (sources_of dst all_statuses) (advance_payload now dst vs) no_extra t
      (λ r m _.
        write-to now dst (advance_payload now dst vs) r (advance_payload-EndsIn now dst vs r)
          (sources_of-allowed dst all_statuses r.status m) (advance_payload-result now dst vs h))
advance-TableStep now id dst (some expected) vs t h =
    elim (Option-cases (first_refused expected dst)) [
      | inl fine ↦
          rw (fine, advance)
            (cas-TableStep now id expected (advance_payload now dst vs) no_extra t (λ r m _.
              write-to now dst (advance_payload now dst vs) r (advance_payload-EndsIn now dst vs r)
                (first_refused-none expected dst r.status fine m)
                (advance_payload-result now dst vs h)))
      | inr (src, bad) ↦ rw (bad, advance) (TableStep-refl t)
    ]
