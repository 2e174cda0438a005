-- ===== src/Db/Audit/Pins.antt =====
-- The hash of the last row of a log pins what was hashed.
use async_task.Prelude.{
  ℕ, String, str_eq, eq_iff, Option, none, some, List, [], ◌∷◌, take, length, ◌≡◌, ◌≢◌, ◌⊎◌, refl,
  sym, ap, ◌∙◌, subst, arith, Bool-cases, inl, inr,
}
use async_task.Prelude.Text.{append, size, or_text}
use async_task.Db.Audit.{AuditEvent, intact, tail_hash, material_of, verify_rows, verify_chain}
use async_task.Db.Audit.Chain.{verify_cons}

module _ (digest : String → String) (stamp : ℕ → String) where
  -- What was hashed, row by row, where the first row refers to `prev`.
  abbrev pub materials : Option String → List AuditEvent → List String
  materials prev [] = []
  materials prev (r ∷ rest) = material_of digest stamp prev r ∷ materials (some r.hash) rest

take-length {ℓ} : {A : Type ℓ} (xs : List A) → take (length xs) xs ≡ xs
take-length [] = refl
take-length (x ∷ xs) = ap (λ t. x ∷ t) (take-length xs)

append_split : (a b x y : String) → size a ≡ size b → append a x ≡ append b y → (a ≡ b) × (x ≡ y)
append_split String.[] String.[] x y h e = (refl, e)
append_split String.[] (String.◌∷◌ d b) x y h e = absurd (omega arith)
append_split (String.◌∷◌ c a) String.[] x y h e = absurd (omega arith)
append_split (String.◌∷◌ c a) (String.◌∷◌ d b) x y h e =
    let heads : c ≡ d = cc in
    let tails : append a x ≡ append b y = cc in
    let (p, q) = append_split a b x y (omega arith) tails in (cc, q)

-- At one place of the two lists stand different texts of one digest.
pub data Colliding (digest : String → String) : List String → List String → Type 0 where
  here :
      {x y : String} {xs ys : List String}
      → x ≢ y
      → digest x ≡ digest y
      → Colliding digest (x ∷ xs) (y ∷ ys)
  later :
      {x y : String} {xs ys : List String}
      → Colliding digest xs ys
      → Colliding digest (x ∷ xs) (y ∷ ys)

text-cases : (x y : String) → (x ≢ y) ⊎ (x ≡ y)
text-cases x y = elim (Bool-cases (str_eq x y)) [
  | inl e ↦ inr ((eq_iff x y).0 e)
  | inr e ↦ inl (λ same. cc ((eq_iff x y).1 same))
]

-- Of hashes of one length both or neither count as missing.
or_text-size :
    (x y d : String) → size x ≡ size y → size (or_text (some x) d) ≡ size (or_text (some y) d)
or_text-size String.[] String.[] d h = refl
or_text-size String.[] (String.◌∷◌ c y) d h = absurd (omega arith)
or_text-size (String.◌∷◌ c x) String.[] d h = absurd (omega arith)
or_text-size (String.◌∷◌ c x) (String.◌∷◌ e y) d h = h

or_text-eq : (x y d : String) → size x ≡ size y → or_text (some x) d ≡ or_text (some y) d → x ≡ y
or_text-eq String.[] String.[] d h e = refl
or_text-eq String.[] (String.◌∷◌ c y) d h e = absurd (omega arith)
or_text-eq (String.◌∷◌ c x) String.[] d h e = absurd (omega arith)
or_text-eq (String.◌∷◌ c x) (String.◌∷◌ b y) d h e = e

module _ (digest : String → String) (stamp : ℕ → String)
    (same_length : (x y : String) → size (digest x) ≡ size (digest y)) where
  whole_log :
      (r : AuditEvent) (a : List AuditEvent)
      → verify_chain digest stamp (length (r ∷ a)) (r ∷ a) ≡ intact
      → verify_rows digest stamp none (r ∷ a) ≡ intact
  unfolding verify_chain
  whole_log r a v = subst (λ x. verify_rows digest stamp none x ≡ intact) (take-length (r ∷ a)) v

  same_prev :
      (p q : Option String) (r s : AuditEvent)
      → size (or_text p "genesis") ≡ size (or_text q "genesis")
      → material_of digest stamp p r ≡ material_of digest stamp q s
      → or_text p "genesis" ≡ or_text q "genesis"
  same_prev p q r s h e = (append_split (or_text p "genesis") (or_text q "genesis") _ _ h e).0

  -- What follows for two chains that start from `p` and `q`.
  abbrev Agree : Option String → Option String → List AuditEvent → List AuditEvent → Type 0
  Agree p q a b =
      Colliding digest (materials digest stamp p a) (materials digest stamp q b)
      ⊎ ((materials digest stamp p a ≡ materials digest stamp q b)
          × (or_text p "genesis" ≡ or_text q "genesis"))

  Agree-row :
      (p q : Option String) (r s : AuditEvent) (a b : List AuditEvent)
      → size (or_text p "genesis") ≡ size (or_text q "genesis")
      → r.hash ≡ digest (material_of digest stamp p r)
      → s.hash ≡ digest (material_of digest stamp q s)
      → size r.hash ≡ size s.hash
      → Agree (some r.hash) (some s.hash) a b
      → Agree p q (r ∷ a) (s ∷ b)
  Agree-row p q r s a b h k l z (inl c) = inl (later c)
  Agree-row p q r s a b h k l z (inr (ms, same)) =
      elim (text-cases (material_of digest stamp p r) (material_of digest stamp q s)) [
        | inl differ ↦ inl (here differ (sym k ∙ or_text-eq r.hash s.hash "genesis" z same ∙ l))
        | inr m ↦ inr (cc (m, ms), same_prev p q r s h m)
      ]

  same_chain :
      (p q : Option String) (r s : AuditEvent) (a b : List AuditEvent)
      → size (or_text p "genesis") ≡ size (or_text q "genesis")
      → length a ≡ length b
      → verify_rows digest stamp p (r ∷ a) ≡ intact
      → verify_rows digest stamp q (s ∷ b) ≡ intact
      → tail_hash (r ∷ a) ≡ tail_hash (s ∷ b)
      → Agree p q (r ∷ a) (s ∷ b)
  unfolding tail_hash
  same_chain p q r s [] [] h l v w t =
      let (vp, vh, vr) = verify_cons digest stamp p r [] v in
      let (wp, wh, wr) = verify_cons digest stamp q s [] w in
      let heads : r.hash ≡ s.hash = cc in
      Agree-row p q r s [] [] h vh wh (ap size heads)
        (inr (refl, ap (λ x. or_text (some x) "genesis") heads))
  same_chain p q r s [] (y ∷ b) h l v w t = absurd (omega arith)
  same_chain p q r s (x ∷ a) [] h l v w t = absurd (omega arith)
  same_chain p q r s (x ∷ a) (y ∷ b) h l v w t =
      let (vp, vh, vr) = verify_cons digest stamp p r (x ∷ a) v in
      let (wp, wh, wr) = verify_cons digest stamp q s (y ∷ b) w in
      let sizes : size r.hash ≡ size s.hash = ap size vh ∙ same_length _ _ ∙ ap size (sym wh) in
      Agree-row p q r s (x ∷ a) (y ∷ b) h vh wh sizes (
        same_chain (some r.hash) (some s.hash) x y a b (or_text-size r.hash s.hash "genesis" sizes)
          (omega arith) vr wr t)

  Agree-materials :
      (a b : List AuditEvent)
      → Agree none none a b
      → Colliding digest (materials digest stamp none a) (materials digest stamp none b)
        ⊎ (materials digest stamp none a ≡ materials digest stamp none b)
  Agree-materials a b (inl c) = inl c
  Agree-materials a b (inr (ms, same)) = inr ms

  -- If two logs of one length both verify and end in one hash, then they have hashed the same
  -- texts, row by row, or at one row they have hashed different texts with one digest: the hash of
  -- the last row, kept elsewhere, shows every change of what a row's hash covers but one that comes
  -- with such a pair. All digests have one length.
  pub tail_pins_log :
      (r s : AuditEvent) (a b : List AuditEvent)
      → length a ≡ length b
      → verify_chain digest stamp (length (r ∷ a)) (r ∷ a) ≡ intact
      → verify_chain digest stamp (length (s ∷ b)) (s ∷ b) ≡ intact
      → tail_hash (r ∷ a) ≡ tail_hash (s ∷ b)
      → Colliding digest (materials digest stamp none (r ∷ a)) (materials digest stamp none (s ∷ b))
        ⊎ (materials digest stamp none (r ∷ a) ≡ materials digest stamp none (s ∷ b))
  tail_pins_log r s a b l v w t =
      Agree-materials (r ∷ a) (s ∷ b)
        (same_chain none none r s a b refl l (whole_log r a v) (whole_log s b w) t)
