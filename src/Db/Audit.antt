-- ===== src/Db/Audit.antt =====
-- src/async_gateway/db/audit.py: the log of audit events as a chain of hashes, oldest row first.
-- `digest` is the hex digest of SHA-256 of a text, and `stamp` the fixed format of an instant; the
-- digest of a payload is an input.
pub mod Chain
pub mod Pins
use async_task.Prelude.{
  ℕ, zero, suc, Bool, true, false, not, ◌||◌, String, str_eq, Option, none, some, List, [], ◌∷◌,
  ◌++◌, get_or, take, if◌then◌else◌,
}
use async_task.Prelude.Text.{append, or_text}
use async_task.Db.Json.{Fields}

pub record AuditEvent : Type 0 where
  pub event_type : String
  pub actor : String
  pub actor_role : Option String
  pub subject_type : Option String
  pub subject_id : Option String
  pub payload_digest : Option String
  pub refs : Option Fields
  pub detail : Option String
  pub prev_hash : Option String
  pub hash : String
  pub created_at : ℕ

-- What `append` is called with, at an instant.
pub record Entry : Type 0 where
  pub event_type : String
  pub actor : String
  pub actor_role : Option String
  pub subject_type : Option String
  pub subject_id : Option String
  pub payload_digest : Option String
  pub refs : Option Fields
  pub detail : Option String
  pub created_at : ℕ

-- `"|".join(…)`
abbrev pub join : List String → String
join [] = ""
join (x ∷ []) = x
join (x ∷ y ∷ xs) = append x (append "|" (join (y ∷ xs)))

-- `a == b` on optional texts
abbrev pub opt_eq : Option String → Option String → Bool
opt_eq none none = true
opt_eq none (some b) = false
opt_eq (some a) none = false
opt_eq (some a) (some b) = str_eq a b

-- Why a chain is refused; the place is left out.
pub data Verdict : Type 0 where
  intact prev_hash_mismatch hash_mismatch : Verdict

-- The hash of the newest row, `tail_hash`.
unfoldable pub tail_hash : List AuditEvent → Option String
tail_hash [] = none
tail_hash (r ∷ []) = some r.hash
tail_hash (r ∷ s ∷ rest) = tail_hash (s ∷ rest)

module _ (digest : String → String) (stamp : ℕ → String) where
  abbrev pub material : Option String → String → String → Option String → Option String → ℕ → String
  material prev event_type actor subject_id payload_digest at = join (
      or_text prev "genesis"
      ∷ event_type
      ∷ actor
      ∷ or_text subject_id "-"
      ∷ or_text payload_digest "-"
      ∷ stamp at
      ∷ [])

  -- `append`: the new row is the last one, and its `prev_hash` the hash of the last one before it.
  unfoldable pub append_entry : Entry → List AuditEvent → List AuditEvent
  unfolding tail_hash
  append_entry e log =
      log
      ++ record {
        event_type = e.event_type;
        actor = e.actor;
        actor_role = e.actor_role;
        subject_type = e.subject_type;
        subject_id = e.subject_id;
        payload_digest = e.payload_digest;
        refs = e.refs;
        detail = e.detail;
        prev_hash = tail_hash log;
        hash = digest (
            material (tail_hash log) e.event_type e.actor e.subject_id e.payload_digest
              e.created_at);
        created_at = e.created_at;
      }
        ∷ []

  abbrev pub material_of : Option String → AuditEvent → String
  material_of prev r = material prev r.event_type r.actor r.subject_id r.payload_digest r.created_at

  -- The loop of `verify_chain`.
  unfoldable pub verify_rows : Option String → List AuditEvent → Verdict
  verify_rows prev [] = intact
  verify_rows prev (r ∷ rest) =
      let later = verify_rows (some r.hash) rest in
      if not (opt_eq r.prev_hash prev)
      then prev_hash_mismatch
      else if not (str_eq r.hash (digest (material_of prev r)))
      then hash_mismatch
      else later

  unfoldable pub verify_chain : ℕ → List AuditEvent → Verdict
  unfolding verify_rows
  verify_chain limit log = verify_rows none (take limit log)
