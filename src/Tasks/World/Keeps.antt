-- ===== src/Tasks/World/Keeps.antt =====
-- Invariants of handlers: one rule for each way to build an action, and what an invariant has to
-- respect for every handler to keep it.
use async_task.Prelude.{
  ℕ, Bool, true, false, String, Option, none, some, List, [], ◌∷◌, ◌≡◌, refl, if◌then◌else◌,
}
use async_task.Domain.Errors.{Context}
use async_task.Outcome.{Fault, Result, ok, raised}
use async_task.Db.Dao.Calls.{Call, is_plain}
use async_task.Templates.Schema.{ResolvedTemplate}
use async_task.Tasks.World.{
  Request, create, Event, AuditKind, Env, World, M, pure, raise, gets, finally, ◌>>=◌, continue,
  after_body,
}
use async_task.Tasks.World.Actions.{
  load, apply, note, audit, drop_credential, set_polls, enqueue, send, fetch, credential, backoff,
}

pub record Keeps {P A : Type 0} (K : World P → Type 0) (m : M P A) : Type 0 where
  pub at : (w : World P) → K w → K (m w).1

abbrev pub is_create : Request → Bool
is_create (create body callback) = true
is_create _ = false

-- The events that a handler records by itself.
abbrev pub is_record : Event → Bool
is_record (Event.audited kind subject) = true
is_record (Event.archived key body) = true
is_record (Event.stored key) = true
is_record _ = false

module _ {P A : Type 0} {K : World P → Type 0} where
  pub Keeps-pure : (a : A) → Keeps K (pure a)
  unfolding pure
  Keeps-pure a = record { at = λ w k. k }

  pub Keeps-raise : (e : Fault) → Keeps K (raise {A = A} e)
  unfolding raise
  Keeps-raise e = record { at = λ w k. k }

  pub Keeps-gets : (f : World P → A) → Keeps K (gets f)
  unfolding gets
  Keeps-gets f = record { at = λ w k. k }

  pub Keeps-if : (b : Bool) {m n : M P A} → Keeps K m → Keeps K n → Keeps K (if b then m else n)
  Keeps-if true h g = h
  Keeps-if false h g = g

  pub Keeps-elim :
      {X : Type 0} (o : Option X) {n : M P A} {f : X → M P A}
      → Keeps K n
      → ((x : X) → Keeps K (f x))
      → Keeps K (elim o [ none ↦ n | some x ↦ f x ])
  Keeps-elim none h g = h
  Keeps-elim (some x) h g = g x

pub after-K :
    {P A B : Type 0} (K : World P → Type 0) (r : Result A) (s : Result B × World P)
    → K s.1
    → K (after_body r s).1
after-K K r (ok b, w) k = k
after-K K r (raised e, w) k = k

module _ {P A B : Type 0} {K : World P → Type 0} where
  pub continue-K :
      (r : Result A) (f : A → M P B) (w : World P)
      → ((a : A) → Keeps K (f a))
      → K w
      → K (continue r f w).1
  continue-K (ok a) f w h k = (h a).at w k
  continue-K (raised e) f w h k = k

  pub Keeps-bind :
      {m : M P A} {f : A → M P B} → Keeps K m → ((a : A) → Keeps K (f a)) → Keeps K (m >>= f)
  unfolding ◌>>=◌
  Keeps-bind {m = m} {f = f} h g = record { at = λ w k. continue-K (m w).0 f (m w).1 g (h.at w k) }

  pub Keeps-finally : {m : M P A} {n : M P B} → Keeps K m → Keeps K n → Keeps K (finally m n)
  unfolding finally
  Keeps-finally {m = m} {n = n} h g = record {
    at = λ w k. after-K K (m w).0 (n (m w).1) (g.at (m w).1 (h.at w k));
  }

-- What an invariant respects: the accesses to the table, the records in the trace, and the
-- requests that create nothing.
pub record Respects {P : Type 0} (env : Env P) (K : World P → Type 0) : Type 0 where
  pub loads : (id : String) → Keeps K (load {P = P} id)
  pub applies : (c : Call) → is_plain c ≡ true → Keeps K (apply {P = P} c)
  pub notes : (e : Event) → is_record e ≡ true → Keeps K (note {P = P} e)
  pub drops : (id : String) → Keeps K (drop_credential {P = P} id)
  pub polls : (f : P → P) → Keeps K (set_polls f)
  pub enqueues :
      (queue name id : String) (attempt : Option ℕ) → Keeps K (enqueue env queue name id attempt)
  pub sends :
      (t : ResolvedTemplate) (r : Request) (c : Context)
      → is_create r ≡ false
      → Keeps K (send env t r c)
  pub fetches : (url : String) → Keeps K (fetch env url)

module _ {P : Type 0} {env : Env P} {K : World P → Type 0} (k : Respects env K) where
  pub Keeps-audit : (kind : AuditKind) (subject : String) → Keeps K (audit {P = P} kind subject)
  unfolding audit
  Keeps-audit kind subject = k.notes (Event.audited kind subject) refl

  pub Keeps-credential : (id : String) → Keeps K (credential {P = P} id)
  unfolding credential
  Keeps-credential id = Keeps-gets _

  pub Keeps-backoff : (attempt base cap : ℕ) → Keeps K (backoff env attempt base cap)
  unfolding backoff
  Keeps-backoff attempt base cap = Keeps-gets _

pub ruleset keeps_rules = (
  Keeps-pure, Keeps-raise, Keeps-gets, Keeps-if, Keeps-elim, Keeps-bind, Keeps-audit,
  Keeps-credential, Keeps-backoff, refl,
)
