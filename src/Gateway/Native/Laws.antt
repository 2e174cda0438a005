-- ===== src/Gateway/Native/Laws.antt =====
-- The value that output.py works out for the status of a task that has ended belongs to the class of
-- the task's own status. It need not be what the answer has there: see Gateway.Native.Class.
use async_task.Prelude.{
  Bool, true, false, get_or, if◌then◌else◌, ◌&&◌, ◌||◌, String, str_eq, eq_iff, eq_refl, Option,
  none, some, List, [], ◌∷◌, any, ◌≡◌, refl, arith, Bool-cases, inl, inr,
}
use mathlib.Core.Option
use async_task.Domain.Status.{
  TaskStatus, out_failed, out_succeeded, status_eq, succeeded, cancelled, timeout, dead,
  dead_awaiting_confirm,
}
use async_task.Domain.Transitions.{is_business_terminal, output_terminal}
use async_task.Templates.Schema.{TerminalMapping, ResolvedTemplate, maps_status}
use async_task.Templates.Validator.{is_nil, check_terminal, overlap}
use async_task.Gateway.Native.{
  effective_failure_status, effective_status_value, first_or, status_of_success, status_of_cancel,
  status_of_internal,
}

any_self : (x : String) (xs : List String) → any (str_eq x) (x ∷ xs) ≡ true
any_self x xs = rw (eq_refl x)

overlap_apart :
    (x : String) (a b : List String)
    → overlap a b ≡ false
    → any (str_eq x) b ≡ true
    → any (str_eq x) a ≡ false
overlap_apart x [] b h k = refl
overlap_apart x (y ∷ a) b h k = ground (arith, eq_iff x y, overlap_apart x a b)

-- What the validator's checks of the mapping say, with nothing both a success and expired.
pub record IsSound (t : TerminalMapping) : Type 0 where
  pub some_success : any (str_eq (first_or t.success "succeeded")) t.success ≡ true
  pub rewrite_fails :
      any (str_eq (effective_failure_status t)) t.failure
        || any (str_eq (effective_failure_status t)) t.expired
      ≡ true
  pub apart_failure : overlap t.success t.failure ≡ false
  pub apart_expired : overlap t.success t.expired ≡ false

first_some :
    (xs : List String) (d : String) → is_nil xs ≡ false → any (str_eq (first_or xs d)) xs ≡ true
first_some [] d h = absurd (cc h)
first_some (x ∷ xs) d h = any_self x xs

pub checked-IsSound :
    (t : TerminalMapping) → check_terminal t ≡ [] → overlap t.success t.expired ≡ false → IsSound t
unfolding check_terminal effective_failure_status
checked-IsSound t h k = record {
  some_success = first_some t.success "succeeded" (ground arith);
  rewrite_fails = ground arith;
  apart_failure = ground arith;
  apart_expired = k;
}

unsuccessful :
    {t : TerminalMapping}
    → IsSound t
    → (x : String) → any (str_eq x) t.failure || any (str_eq x) t.expired ≡ true
    → any (str_eq x) t.success ≡ false
unsuccessful {t} s x h = ground (
  arith,
  overlap_apart x t.success t.failure s.apart_failure,
  overlap_apart x t.success t.expired s.apart_expired,
)

-- What a value in the mapping's failures or expirations is read as.
reads_failed :
    (t : ResolvedTemplate) (x : String)
    → IsSound t.terminal
    → any (str_eq x) t.terminal.failure || any (str_eq x) t.terminal.expired ≡ true
    → Option.map output_terminal (maps_status t x) ≡ some out_failed
unfolding maps_status output_terminal
reads_failed t x s h = rw (unsuccessful s x h) (ground arith)

reads_succeeded :
    (t : ResolvedTemplate) (x : String)
    → any (str_eq x) t.terminal.success ≡ true
    → Option.map output_terminal (maps_status t x) ≡ some out_succeeded
unfolding maps_status output_terminal
reads_succeeded t x h = rw h

success_value :
    (raw : Option String) (t : TerminalMapping)
    → IsSound t
    → any (str_eq (status_of_success raw t).0) t.success ≡ true
success_value none t s = s.some_success
success_value (some raw) t s = ground (arith, s.some_success)

cancel_value :
    (raw : Option String) (t : TerminalMapping)
    → IsSound t
    → any (str_eq (status_of_cancel raw t).0) t.failure
        || any (str_eq (status_of_cancel raw t).0) t.expired
      ≡ true
cancel_value none t s = s.rewrite_fails
cancel_value (some raw) t s = ground (arith, s.rewrite_fails)

internal_value :
    (st : TaskStatus) (raw : Option String) (t : TerminalMapping)
    → IsSound t
    → any (str_eq (status_of_internal st raw t).0) t.failure
        || any (str_eq (status_of_internal st raw t).0) t.expired
      ≡ true
internal_value st none t s = s.rewrite_fails
internal_value st (some raw) t s =
    elim (Bool-cases (
      (any (str_eq raw) t.failure || any (str_eq raw) t.expired)
      && status_eq st timeout
      && any (str_eq raw) t.expired)) [ inl e ↦ rw e (ground arith) | inr e ↦ rw e s.rewrite_fails ]

pub value_class :
    (t : ResolvedTemplate) (st : TaskStatus) (raw : Option String)
    → IsSound t.terminal
    → is_business_terminal st ≡ true
    → Option.map output_terminal (maps_status t (effective_status_value st raw t.terminal).0)
      ≡ some (output_terminal st)
unfolding effective_status_value is_business_terminal output_terminal
value_class t succeeded raw s h =
    reads_succeeded t (status_of_success raw t.terminal).0 (success_value raw t.terminal s)
value_class t cancelled raw s h =
    reads_failed t (status_of_cancel raw t.terminal).0 s (cancel_value raw t.terminal s)
value_class t timeout raw s h =
    reads_failed t (status_of_internal timeout raw t.terminal).0 s
      (internal_value timeout raw t.terminal s)
value_class t dead raw s h =
    reads_failed t (status_of_internal dead raw t.terminal).0 s
      (internal_value dead raw t.terminal s)
value_class t dead_awaiting_confirm raw s h =
    reads_failed t (status_of_internal dead_awaiting_confirm raw t.terminal).0 s
      (internal_value dead_awaiting_confirm raw t.terminal s)
value_class t _ raw s h = absurd (cc h)

kept :
    (b : Bool) (x y : String)
    → (if◌then◌else◌ {A = String × Bool} b (x, false) (y, true)).1 ≡ false
    → (if◌then◌else◌ {A = String × Bool} b (x, false) (y, true)).0 ≡ x
kept true x y h = refl
kept false x y h = absurd (cc h)

-- Where the value need not be written, it is what the upstream last said.
pub value_kept :
    (st : TaskStatus) (raw : Option String) (m : TerminalMapping)
    → is_business_terminal st ≡ true
    → (effective_status_value st raw m).1 ≡ false
    → (effective_status_value st raw m).0 ≡ get_or raw ""
unfolding effective_status_value is_business_terminal
value_kept succeeded raw m b h = kept _ _ _ h
value_kept cancelled raw m b h = kept _ _ _ h
value_kept timeout raw m b h = kept _ _ _ h
value_kept dead raw m b h = kept _ _ _ h
value_kept dead_awaiting_confirm raw m b h = kept _ _ _ h
value_kept _ raw m b h = absurd (cc b)
