-- ===== src/Workers/Scheduler/Lease.antt =====
-- The lease of a dispatch: within it no scheduler dispatches the task again.
use async_task.Prelude.{
  ℕ, ◌+◌, ◌≤◌, ◌<◌, max, Bool, true, false, String, str_eq, some, List, [], ◌∷◌, All, ◌≡◌, refl,
  subst, Bool-cases, inl, inr, arith,
}
use async_task.Domain.Status.{TaskStatus}
use async_task.Db.Task.{Task, Table}
use async_task.Db.Assign.{Assign, set_next_poll_at}
use async_task.Db.Dao.Cas.{cas, write, update, hit, matches}
use async_task.Db.Dao.Writes.{lease_dispatch, is_due}
use async_task.Db.Dao.Calls.{Call, perform, run}
use async_task.Db.Dao.Exclusion.{AtMostOne, Absent}

-- The calls of schedulers.
abbrev pub is_lease : Call → Bool
is_lease (Call.lease_dispatch id lease expected) = true
is_lease _ = false

abbrev pub IsLease : ℕ × Call → Type 0
IsLease c = is_lease c.1 ≡ true

-- The row is not due before `until`.
abbrev Later : ℕ → Task → Type 0
Later until r = (at : ℕ) × (r.next_poll_at ≡ some at) × (until ≤ at)

abbrev Leased : String → ℕ → Table → Type 0
Leased id until t = All (λ r. str_eq r.task_id id ≡ true → Later until r) t

abbrev test : ℕ → String → List TaskStatus → Task → Bool
test now key expected = matches key expected (λ r. is_due now r.next_poll_at)

abbrev lease_value : ℕ → ℕ → List Assign
lease_value now lease = set_next_poll_at (some (now + max 1_000_000 lease)) ∷ []

due_by : (now at : ℕ) → is_due now (some at) ≡ true → at ≤ now
due_by now at h = ground (arith, h)

test-due :
    (now : ℕ) (key : String) (expected : List TaskStatus) (r : Task)
    → test now key expected r ≡ true
    → (str_eq r.task_id key ≡ true) × (is_due now r.next_poll_at ≡ true)
unfolding matches
test-due now key expected r h = (ground arith, ground arith)

false_of : {A : Type 0} {b : Bool} → b ≡ true → b ≡ false → A
false_of h k = cc

fresh :
    (now lease : ℕ) (r : Task)
    → Later (now + max 1_000_000 lease) (write now (lease_value now lease) r)
unfolding write
fresh now lease r = (now + max 1_000_000 lease, refl, omega arith)

module _ (id : String) (until : ℕ) where
  written-Later :
      (now lease at : ℕ) (r : Task)
      → until ≤ at
      → at ≤ now
      → Later until (write now (lease_value now lease) r)
  unfolding write
  written-Later now lease at r a b = (now + max 1_000_000 lease, refl, omega (arith, a, b))

  row-Leased :
      (now : ℕ) (key : String) (lease : ℕ) (expected : List TaskStatus) (r : Task)
      → (str_eq r.task_id id ≡ true → Later until r)
      → test now key expected r ≡ true
      → str_eq r.task_id id ≡ true
      → Later until (write now (lease_value now lease) r)
  row-Leased now key lease expected r h p same =
      let (at, e, late) = h same in
      let due : is_due now (some at) ≡ true =
        subst (λ x. is_due now x ≡ true) e (test-due now key expected r p).1 in
      written-Later now lease at r late (due_by now at due)

  same_key : (now lease : ℕ) (r : Task) → (write now (lease_value now lease) r).task_id ≡ r.task_id
  unfolding write
  same_key now lease r = refl

  update-Leased :
      (now : ℕ) (key : String) (lease : ℕ) (expected : List TaskStatus) (t : Table)
      → Leased id until t
      → Leased id until (update (test now key expected) (write now (lease_value now lease)) t)
  unfolding update
  update-Leased now key lease expected [] h = tt
  update-Leased now key lease expected (r ∷ t) h = elim (Bool-cases (test now key expected r)) [
    | inl yes_ ↦ rw yes_ (
      (λ same.
          row-Leased now key lease expected r h.0 yes_
            (subst (λ x. str_eq x id ≡ true) (same_key now lease r) same)),
      update-Leased now key lease expected t h.1,
    )
    | inr no_ ↦ rw no_ (h.0, update-Leased now key lease expected t h.1)
  ]

  lease-Leased :
      (now : ℕ) (key : String) (lease : ℕ) (expected : List TaskStatus) (t : Table)
      → Leased id until t
      → Leased id until (lease_dispatch now key lease expected t).1
  unfolding lease_dispatch cas
  lease-Leased now key lease [] t h = h
  lease-Leased now key lease (s ∷ expected) t h = update-Leased now key lease (s ∷ expected) t h

  run-Leased :
      (calls : List (ℕ × Call)) (t : Table)
      → All IsLease calls
      → Leased id until t
      → Leased id until (run calls t)
  unfolding run perform
  run-Leased [] t k h = h
  run-Leased ((now, Call.lease_dispatch key lease expected) ∷ rest) t k h =
      run-Leased rest _ k.1 (lease-Leased now key lease expected t h)
  run-Leased ((now, _) ∷ rest) t k h = cc k.0

  too_early : (now at : ℕ) → until ≤ at → now < until → at ≤ now → ⊥
  too_early now at a b c = omega (arith, a, b, c)

  no_hit :
      (now : ℕ) (expected : List TaskStatus) (t : Table)
      → now < until
      → Leased id until t
      → hit (test now id expected) t ≡ false
  unfolding hit
  no_hit now expected [] n h = refl
  no_hit now expected (r ∷ t) n h = elim (Bool-cases (test now id expected r)) [
    | inl yes_ ↦
        let (same, due) = test-due now id expected r yes_ in
        let (at, e, late) = h.0 same in
        absurd (too_early now at late n (due_by now at (subst (λ x. is_due now x ≡ true) e due)))
    | inr no_ ↦ rw no_ (no_hit now expected t n h.1)
  ]

  Absent-Leased : (t : Table) → Absent id t → Leased id until t
  Absent-Leased [] a = tt
  Absent-Leased (r ∷ t) a = ((λ same. false_of same a.0), Absent-Leased t a.1)

  Absent-no_hit :
      (now : ℕ) (expected : List TaskStatus) (t : Table)
      → Absent id t
      → hit (test now id expected) t ≡ false
  unfolding hit matches
  Absent-no_hit now expected [] a = refl
  Absent-no_hit now expected (r ∷ t) a = rw a.0 (Absent-no_hit now expected t a.1)

-- The row that was hit is leased.
win-Leased :
    (id : String) (now lease : ℕ) (expected : List TaskStatus) (t : Table)
    → AtMostOne id t
    → hit (test now id expected) t ≡ true
    → Leased id
        (now + max 1_000_000 lease)
        (update (test now id expected) (write now (lease_value now lease)) t)
unfolding hit update
win-Leased id now lease expected [] one won = tt
win-Leased id now lease expected (r ∷ t) (inr absent) won =
    elim (Bool-cases (test now id expected r)) [
      | inl mine ↦ rw mine (
        (λ same. fresh now lease r),
        update-Leased id _ now id lease expected t (Absent-Leased id _ t absent),
      )
      | inr missed ↦ false_of (rw missed at won) (Absent-no_hit id 0 now expected t absent)
    ]
win-Leased id now lease expected (r ∷ t) (inl (other, one)) won =
    elim (Bool-cases (test now id expected r)) [
      | inl mine ↦ false_of (test-due now id expected r mine).0 other
      | inr missed ↦
          rw missed (
            (λ same. false_of same other),
            win-Leased id now lease expected t one (rw missed at won),
          )
    ]

-- Of two schedulers that lease one task for dispatch, the second fails as long as the first's
-- lease runs, whatever leases are taken in between and whatever lease and statuses the second
-- asks for. The key is unique in the table.
pub lease_exclusive :
    (id : String) (now later lease lease' : ℕ) (expected expected' : List TaskStatus)
    (calls : List (ℕ × Call)) (t : Table)
    → AtMostOne id t
    → (lease_dispatch now id lease expected t).0 ≡ true
    → All IsLease calls
    → later < now + max 1_000_000 lease
    → (lease_dispatch later id lease' expected'
        (run calls (lease_dispatch now id lease expected t).1)).0
      ≡ false
unfolding lease_dispatch cas
lease_exclusive id now later lease lease' [] expected' calls t one won k early = cc won
lease_exclusive id now later lease lease' (s ∷ expected) [] calls t one won k early = refl
lease_exclusive id now later lease lease' (s ∷ expected) (s' ∷ expected') calls t one won k early =
    no_hit id (now + max 1_000_000 lease) later (s' ∷ expected') (run calls _) early
      (run-Leased id _ calls _ k (win-Leased id now lease (s ∷ expected) t one won))
