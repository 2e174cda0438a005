-- ===== src/Domain/Status.antt =====
-- src/async_gateway/domain/enums.py: the state values and their named sets. A `frozenset` of
-- states is a list, and membership is `mem_status`.
use async_task.Prelude.{ℕ, Bool, true, ◌==◌, List, [], ◌∷◌, any, ◌≡◌, refl, arith}

pub data TaskStatus : Type 0 where
  accepted upstream_submitted in_progress submit_unknown poll_unrecognized failed : TaskStatus
  succeeded cancelled timeout dead dead_awaiting_confirm : TaskStatus

pub data OutputTerminal : Type 0 where
  out_in_progress out_succeeded out_failed : OutputTerminal

pub data ErrorClass : Type 0 where
  retry_safe fail_fast confirm_required rate_limited channel_fault : ErrorClass

pub data ErrorCode : Type 0 where
  upstream_4xx upstream_5xx upstream_terminal transport rate_limited : ErrorCode
  timeout cancelled transfer_failed unknown_exhausted request_lost : ErrorCode

-- The place of a member in the enumeration, to compare members by.
abbrev pub ordinal : TaskStatus → ℕ
ordinal accepted = 0
ordinal upstream_submitted = 1
ordinal in_progress = 2
ordinal submit_unknown = 3
ordinal poll_unrecognized = 4
ordinal failed = 5
ordinal succeeded = 6
ordinal cancelled = 7
ordinal timeout = 8
ordinal dead = 9
ordinal dead_awaiting_confirm = 10

-- `a is b`
abbrev pub status_eq : TaskStatus → TaskStatus → Bool
status_eq a b = ordinal a == ordinal b

-- `s in states`
abbrev pub mem_status : TaskStatus → List TaskStatus → Bool
mem_status s states = any (status_eq s) states

abbrev pub internal_terminal : List TaskStatus
internal_terminal = timeout ∷ dead ∷ dead_awaiting_confirm ∷ []

abbrev pub business_terminal : List TaskStatus
business_terminal = succeeded ∷ cancelled ∷ timeout ∷ dead ∷ dead_awaiting_confirm ∷ []

abbrev pub retry_pending : List TaskStatus
retry_pending = failed ∷ []

abbrev pub unknown_states : List TaskStatus
unknown_states = submit_unknown ∷ poll_unrecognized ∷ []

-- Every member, in the order of `for s in TaskStatus`.
abbrev pub all_statuses : List TaskStatus
all_statuses =
    accepted ∷ upstream_submitted ∷ in_progress ∷ submit_unknown ∷ poll_unrecognized ∷ failed
    ∷ succeeded ∷ cancelled ∷ timeout ∷ dead ∷ dead_awaiting_confirm ∷ []

pub status_eq-eq : (a b : TaskStatus) → status_eq a b ≡ true → a ≡ b
status_eq-eq a b h = ground arith

pub status_eq_self : (a : TaskStatus) → status_eq a a ≡ true
status_eq_self accepted = refl
status_eq_self _ = refl
