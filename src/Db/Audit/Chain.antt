-- ===== src/Db/Audit/Chain.antt =====
-- A log that was only appended to verifies.
use async_task.Prelude.{
  ℕ, zero, suc, true, String, str_eq, eq_iff, eq_refl, Option, none, some, List, [], ◌∷◌, ◌++◌,
  take, ◌≡◌, refl, sym, ap, subst, Bool-cases, inl, inr,
}
use async_task.Db.Audit.{
  AuditEvent, Entry, opt_eq, intact, tail_hash, material, material_of, append_entry, verify_rows,
  verify_chain,
}

opt_eq_self : (o : Option String) → opt_eq o o ≡ true
opt_eq_self none = refl
opt_eq_self (some a) = eq_refl a

opt_eq-eq : (a b : Option String) → opt_eq a b ≡ true → a ≡ b
opt_eq-eq none none h = refl
opt_eq-eq none (some b) h = cc
opt_eq-eq (some a) none h = cc
opt_eq-eq (some a) (some b) h = ap some ((eq_iff a b).0 h)

module _ (digest : String → String) (stamp : ℕ → String) where
  -- The log that the entries make.
  unfoldable pub append_all : List Entry → List AuditEvent → List AuditEvent
  append_all [] log = log
  append_all (e ∷ es) log = append_all es (append_entry digest stamp e log)

  -- The hash that the next row refers to.
  abbrev last_hash : Option String → List AuditEvent → Option String
  last_hash prev [] = prev
  last_hash prev (r ∷ rest) = last_hash (some r.hash) rest

  last_hash-tail :
      (r : AuditEvent) (rest : List AuditEvent) (p : Option String)
      → last_hash p (r ∷ rest) ≡ tail_hash (r ∷ rest)
  unfolding tail_hash
  last_hash-tail r [] p = refl
  last_hash-tail r (s ∷ rest) p = last_hash-tail s rest (some r.hash)

  tail-last : (log : List AuditEvent) → tail_hash log ≡ last_hash none log
  unfolding tail_hash
  tail-last [] = refl
  tail-last (r ∷ rest) = sym (last_hash-tail r rest none)

  pub verify_cons :
      (prev : Option String) (r : AuditEvent) (rest : List AuditEvent)
      → verify_rows digest stamp prev (r ∷ rest) ≡ intact
      → (r.prev_hash ≡ prev)
        × (r.hash ≡ digest (material_of digest stamp prev r))
        × (verify_rows digest stamp (some r.hash) rest ≡ intact)
  unfolding verify_rows
  verify_cons prev r rest h = elim (Bool-cases (opt_eq r.prev_hash prev)) [
    | inl e ↦ elim (Bool-cases (str_eq r.hash (digest (material_of digest stamp prev r)))) [
      | inl f ↦ (opt_eq-eq r.prev_hash prev e, (eq_iff r.hash _).0 f, rw (e, f) at h)
      | inr f ↦ absurd (cc (rw (e, f) at h))
    ]
    | inr e ↦ absurd (cc (rw e at h))
  ]

  verify_both :
      (prev : Option String) (r : AuditEvent) (rest : List AuditEvent)
      → r.prev_hash ≡ prev
      → r.hash ≡ digest (material_of digest stamp prev r)
      → verify_rows digest stamp (some r.hash) rest ≡ intact
      → verify_rows digest stamp prev (r ∷ rest) ≡ intact
  unfolding verify_rows
  verify_both prev r rest h k l =
      let a : opt_eq r.prev_hash prev ≡ true =
        subst (λ o. opt_eq r.prev_hash o ≡ true) h (opt_eq_self r.prev_hash) in
      let b : str_eq r.hash (digest (material_of digest stamp prev r)) ≡ true =
        (eq_iff r.hash (digest (material_of digest stamp prev r))).1 k in
      rw (a, b) l

  verify_append :
      (prev : Option String) (log : List AuditEvent) (n : AuditEvent)
      → verify_rows digest stamp prev log ≡ intact
      → n.prev_hash ≡ last_hash prev log
      → n.hash ≡ digest (material_of digest stamp (last_hash prev log) n)
      → verify_rows digest stamp prev (log ++ n ∷ []) ≡ intact
  verify_append prev [] n h k l = verify_both prev n [] k l (unfold verify_rows in refl)
  verify_append prev (r ∷ rest) n h k l =
      let (a, b, c) = verify_cons prev r rest h in
      verify_both prev r (rest ++ n ∷ []) a b (verify_append (some r.hash) rest n c k l)

  verify_entry :
      (e : Entry) (log : List AuditEvent)
      → verify_rows digest stamp none log ≡ intact
      → verify_rows digest stamp none (append_entry digest stamp e log) ≡ intact
  unfolding append_entry
  verify_entry e log h = verify_append none log _ h (tail-last log) (
      ap
        (λ p.
          digest (
            material digest stamp p e.event_type e.actor e.subject_id e.payload_digest
              e.created_at))
        (tail-last log))

  verify_all :
      (es : List Entry) (log : List AuditEvent)
      → verify_rows digest stamp none log ≡ intact
      → verify_rows digest stamp none (append_all es log) ≡ intact
  unfolding append_all
  verify_all [] log h = h
  verify_all (e ∷ es) log h = verify_all es (append_entry digest stamp e log) (verify_entry e log h)

  verify_take :
      (n : ℕ) (prev : Option String) (log : List AuditEvent)
      → verify_rows digest stamp prev log ≡ intact
      → verify_rows digest stamp prev (take n log) ≡ intact
  verify_take zero prev log h = unfold verify_rows in refl
  verify_take (suc n) prev [] h = unfold verify_rows in refl
  verify_take (suc n) prev (r ∷ rest) h =
      let (a, b, c) = verify_cons prev r rest h in
      verify_both prev r (take n rest) a b (verify_take n (some r.hash) rest c)

  -- A log that came about by appending entries only verifies, whatever the entries are and
  -- however many rows are looked at.
  appended_verifies :
      (limit : ℕ) (es : List Entry) → verify_chain digest stamp limit (append_all es []) ≡ intact
  unfolding verify_chain
  appended_verifies limit es =
      verify_take limit none (append_all es []) (verify_all es [] (unfold verify_rows in refl))
