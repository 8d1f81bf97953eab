-- ===== src/Tx/Tracking.antt =====
-- What `update` leaves alone when a transaction follows a commit.
use nplex_cpp.Prelude.{
  ◌≡◌, refl, ap, ◌∙◌, Bool, true, false, List, [], ◌∷◌, none, some, inl, inr, Bool-cases,
  Option-cases,
}
use nplex_cpp.Prelude.Order.{Bytes, bytes_order, same-cases}
use nplex_cpp.OrderedMap.{find, find-emplace}
use nplex_cpp.Types.{Change}
use nplex_cpp.User.{Glob}
use nplex_cpp.Tx.{Tx, Item, Isolation, is_open}
use nplex_cpp.Tx.Track
use nplex_cpp.Tx.Track.{
  update_by, any_held, update_default, track_item, track_change, update_serializable, breaks_ensure,
  check_ensures, value_before,
}
use nplex_cpp.Tx.View.{SameFrame, SameFrame-record, SameFrame-trans}

-- The item under a key stays, whatever the commit does.
abbrev pub Held : Bytes → Item → Tx → Type 0
Held k item t = find k t.items ≡ some item

-- A call keeps the frame, and every item that is there.
pub record Follows (t t' : Tx) : Type 0 where
  pub frame : SameFrame t t'
  pub held : (k : Bytes) (item : Item) → Held k item t → Held k item t'

Follows-dirty : (t : Tx) (dirty : Bool) → Follows t (record t { dirty = dirty })
Follows-dirty t dirty = record { frame = SameFrame-record t _ _ _; held = λ k item h. h }

Follows-trans : {t t' t'' : Tx} → Follows t t' → Follows t' t'' → Follows t t''
Follows-trans f g = record {
  frame = SameFrame-trans f.frame g.frame;
  held = λ k item h. g.held k item (f.held k item h);
}

pub track_change-Follows : (c : Change) (t : Tx) → Follows t (track_change c t)
unfolding track_change
track_change-Follows c t = elim (Option-cases (find c.key t.items)) [
  | inr (i, e) ↦ rw (e, track_item) (Follows-dirty t true)
  | inl e ↦
      rw (e, track_item)
        (record {
          frame = SameFrame-record t _ _ _;
          held = λ k item h. elim (same-cases k c.key) [
            | inl (b, eq) ↦ absurd (clash item (rw eq at h) e)
            | inr b ↦ rw (find-emplace, e) (rw b h)
          ];
        })
]
  where
    clash : (item : Item) → find c.key t.items ≡ some item → find c.key t.items ≡ none → ⊥
    clash item p q = cc

update_serializable-Follows : (cs : List Change) (t : Tx) → Follows t (update_serializable cs t)
unfolding update_serializable
update_serializable-Follows [] t = Follows-dirty t t.dirty
update_serializable-Follows (c ∷ cs) t =
    Follows-trans (track_change-Follows c t) (update_serializable-Follows cs (track_change c t))

update_default-Follows : (cs : List Change) (t : Tx) → Follows t (update_default cs t)
unfolding update_default
update_default-Follows cs t = elim (Bool-cases t.dirty) [
  | inl d ↦ simp d (Follows-dirty t t.dirty)
  | inr d ↦ elim (Bool-cases (any_held t cs)) [
    | inl a ↦ simp (d, a) (Follows-dirty t true)
    | inr a ↦ simp (d, a) (Follows-dirty t t.dirty)
  ]
]

update_by-Follows : (i : Isolation) (cs : List Change) (t : Tx) → Follows t (update_by i cs t)
unfolding update_by
update_by-Follows Isolation.serializable cs t = update_serializable-Follows cs t
update_by-Follows Isolation.read_committed cs t = update_default-Follows cs t
update_by-Follows Isolation.repeatable_read cs t = update_default-Follows cs t

check_ensures-dirty :
    (glob : Glob) (cs : List Change) (t : Tx)
    → (dirty : Bool) × (check_ensures glob cs t ≡ record t { dirty = dirty })
unfolding check_ensures
check_ensures-dirty glob cs t = elim (Bool-cases t.dirty) [
  | inl d ↦ (t.dirty, already d)
  | inr d ↦ elim (Bool-cases (breaks_ensure glob t.ensures cs)) [
    | inl a ↦ (true, simp (d, a))
    | inr a ↦ (t.dirty, unbroken d a)
  ]
]
  where
    already : t.dirty ≡ true → check_ensures glob cs t ≡ t
    already d = simp d

    unbroken :
        t.dirty ≡ false → breaks_ensure glob t.ensures cs ≡ false → check_ensures glob cs t ≡ t
    unbroken d a = simp (d, a)

module _ (glob : Glob) (cs : List Change) (t : Tx) where
  -- Following a commit keeps the state and the isolation level, and never changes or drops an item.
  pub update-Follows : Follows t (Track.update glob cs t)
  unfolding Track.update
  update-Follows = elim (Bool-cases (is_open t.state)) [
    | inr o ↦ rw o (Follows-dirty t t.dirty)
    | inl o ↦
        let t' = update_by t.isolation cs t in
        let (dirty, e) = check_ensures-dirty glob cs t' in
        rw o (rw e (Follows-trans (update_by-Follows t.isolation cs t) (Follows-dirty t' dirty)))
  ]

  -- An open serializable transaction takes its items from `update_serializable`.
  pub items-update :
      is_open t.state ≡ true
      → t.isolation ≡ Isolation.serializable
      → (Track.update glob cs t).items ≡ (update_serializable cs t).items
  unfolding Track.update
  items-update o i =
      let t' = update_by t.isolation cs t in
      let (dirty, e) = check_ensures-dirty glob cs t' in
      rw o (rw e (ap (λ i. (update_by i cs t).items) i ∙ unfold update_by in refl))
