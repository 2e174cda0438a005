-- ===== src/Gateway/Callbacks/Dedup.antt =====
-- A callback event is applied at most once.
use async_task.Prelude.{
  Bool, true, false, String, eq_refl, Option, none, some, List, [], ◌∷◌, ◌++◌, any, ◌≡◌, sym, ap,
  subst, ◌∙◌, arith, Bool-cases, inl, inr, if◌then◌else◌,
}
use async_task.Db.Task.{Task, Table}
use async_task.Tasks.World.{Env}
use async_task.Gateway.Callbacks.{
  Delivery, Inbox, unsigned, duplicate, find_by_callback_token, insert_callback_event, stash_orphan,
  same_event, settle_event, receive_verified, receive_callback, channel_of, key_of,
}

abbrev pub noted : String → Inbox → Bool
noted key b = any (same_event key) b.events

any_end :
    (key c k : String) (es : List (String × String))
    → any (same_event key) es ≡ true
    → any (same_event key) (es ++ (c, k) ∷ []) ≡ true
any_end key c k [] h = cc
any_end key c k (e ∷ es) h = elim (Bool-cases (same_event key e)) [
  | inl f ↦ rw f
  | inr f ↦ rw f (any_end key c k es (rw f at h))
]

any_new :
    (channel key : String) (es : List (String × String))
    → any (same_event key) (es ++ (channel, key) ∷ []) ≡ true
any_new channel key [] = rw (eq_refl key)
any_new channel key (e ∷ es) = elim (Bool-cases (same_event key e)) [
  | inl f ↦ rw f
  | inr f ↦ rw f (any_new channel key es)
]

-- What an insert leaves noted.
insert_keeps :
    (key c k : String) (b : Inbox)
    → noted key b ≡ true
    → noted key (insert_callback_event c k b).1 ≡ true
unfolding insert_callback_event
insert_keeps key c k b h = elim (Bool-cases (any (same_event k) b.events)) [
  | inl e ↦ rw e h
  | inr e ↦ rw e (any_end key c k b.events h)
]

insert_notes : (c k : String) (b : Inbox) → noted k (insert_callback_event c k b).1 ≡ true
unfolding insert_callback_event
insert_notes c k b = elim (Bool-cases (any (same_event k) b.events)) [
  | inl e ↦ rw e e
  | inr e ↦ rw e (any_new c k b.events)
]

stash_noted :
    (key c : String) (id raw : Option String) (b : Inbox)
    → noted key b ≡ true
    → noted key (stash_orphan c id raw b) ≡ true
unfolding stash_orphan
stash_noted key c none raw b h = h
stash_noted key c (some id) raw b h = ground arith

chosen : {A : Type 0} (Q : A → Type 0) (b : Bool) (x y : A) → Q x → Q y → Q (if b then x else y)
chosen Q true x y h k = h
chosen Q false x y h k = k

module _ {P : Type 0} (env : Env P) where
  settle_noted :
      (key : String) (task : Option Task) (d : Delivery) (r : Bool × Inbox)
      → noted key r.1 ≡ true
      → noted key (settle_event env task d r).1 ≡ true
  settle_noted key task d (false, b) h = h
  settle_noted key none d (true, b) h = stash_noted key _ _ _ b h
  settle_noted key (some task) d (true, b) h = h

  verified_keeps :
      (key : String) (task : Option Task) (d : Delivery) (b : Inbox)
      → noted key b ≡ true
      → noted key (receive_verified env task d b).1 ≡ true
  verified_keeps key task d b h =
      settle_noted key task d (insert_callback_event (channel_of task d) (key_of env task d) b)
        (insert_keeps key (channel_of task d) (key_of env task d) b h)

  receive_keeps :
      (key : String) (d : Delivery) (t : Table) (b : Inbox)
      → noted key b ≡ true
      → noted key (receive_callback env d t b).1 ≡ true
  unfolding receive_callback
  receive_keeps key d t b h =
      chosen (λ r. noted key r.1 ≡ true) d.verified
        (receive_verified env (find_by_callback_token d.token t) d b) (unsigned, b)
        (verified_keeps key (find_by_callback_token d.token t) d b h) h

  receive_true :
      (d : Delivery) (t : Table) (b : Inbox)
      → d.verified ≡ true
      → receive_callback env d t b ≡ receive_verified env (find_by_callback_token d.token t) d b
  unfolding receive_callback
  receive_true d t b h =
      ap
        (λ v.
          if v then receive_verified env (find_by_callback_token d.token t) d b else (unsigned, b))
        h

  -- The deliveries and the state of the table at each of them.
  unfoldable pub receive_all : List (Delivery × Table) → Inbox → Inbox
  receive_all [] b = b
  receive_all ((d, t) ∷ rest) b = receive_all rest (receive_callback env d t b).1

  all_keep :
      (key : String) (ds : List (Delivery × Table)) (b : Inbox)
      → noted key b ≡ true
      → noted key (receive_all ds b) ≡ true
  unfolding receive_all
  all_keep key [] b h = h
  all_keep key ((d, t) ∷ rest) b h =
      all_keep key rest (receive_callback env d t b).1 (receive_keeps key d t b h)

  repeated :
      (task : Option Task) (d : Delivery) (b : Inbox)
      → noted (key_of env task d) b ≡ true
      → receive_verified env task d b ≡ (duplicate, b)
  unfolding insert_callback_event
  repeated task d b h = rw h

  -- A delivery whose signature verifies is the only one of its event that has an effect: whatever
  -- deliveries come in between and whatever becomes of the table, a later delivery of the same key
  -- is answered as a duplicate and changes nothing, also where it is for another channel.
  pub event_applied_once :
      (d e : Delivery) (t u : Table) (between : List (Delivery × Table)) (b : Inbox)
      → d.verified ≡ true
      → e.verified ≡ true
      → key_of env (find_by_callback_token e.token u) e
        ≡ key_of env (find_by_callback_token d.token t) d
      → (let before = receive_all between (receive_callback env d t b).1 in
          receive_callback env e u before ≡ (duplicate, before))
  event_applied_once d e t u between b hd he hk =
      let first = find_by_callback_token d.token t in
      let second = find_by_callback_token e.token u in
      let before = receive_all between (receive_callback env d t b).1 in
      let noted_first : noted (key_of env first d) (receive_callback env d t b).1 ≡ true =
        subst (λ r. noted (key_of env first d) r.1 ≡ true) (sym (receive_true d t b hd))
          (settle_noted (key_of env first d) first d
            (insert_callback_event (channel_of first d) (key_of env first d) b)
            (insert_notes (channel_of first d) (key_of env first d) b)) in
      let still =
        all_keep (key_of env first d) between (receive_callback env d t b).1 noted_first in
      receive_true e u before he
      ∙ repeated second e before (subst (λ k. noted k before ≡ true) (sym hk) still)
