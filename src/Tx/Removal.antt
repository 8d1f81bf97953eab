-- ===== src/Tx/Removal.antt =====
-- remove(const char *) of src/transaction_impl.cpp against what the transaction sees.
use nplex_cpp.Prelude.{
  ℕ, ◌+◌, ◌≡◌, refl, ◌∙◌, ap, Bool, true, false, not, ◌&&◌, List, [], ◌∷◌, Option, none, some,
  is_some, inl, inr, length, if◌then◌else◌, Bool-cases, Option-cases, arith,
}
use nplex_cpp.Prelude.Order.{Bytes, bytes_order, same, same_self, same-cases}
use nplex_cpp.OrderedMap.{Map, find, find-nil, find-insert, find-emplace}
use nplex_cpp.OrderedMap.Sorted.{IsSorted, find-head, find-tail}
use nplex_cpp.Result.{Result, ok, pure, follow-returns}
use nplex_cpp.Types.{Value}
use nplex_cpp.Key.{Utf8, is_valid_key}
use nplex_cpp.User.{Glob, crud_delete}
use nplex_cpp.Store.{Store}
use nplex_cpp.Tx.{Tx, Item, is_open}
use nplex_cpp.Tx.Access.{
  is_delete, is_empty, is_refused, is_read_or_snapshot, deletion, remove_found, remove,
}
use nplex_cpp.Tx.View.{SameFrame, SameFrame-refl, SameFrame-record, SameFrame-trans, seen}
use nplex_cpp.Tx.Scan.{for_each_internal, call_each, for_each, remove_key, remove_all}
use nplex_cpp.Tx.Scanned.{matches, ScansAs, for_each_internal-ScansAs}

-- The transaction sees nothing under the keys of `gone`, and what it saw under the others.
pub record Removes (s : Store) (gone : Bytes → Bool) (t t' : Tx) : Type 0 where
  pub frame : SameFrame t t'
  pub seen_after : (k : Bytes) → seen t' s k ≡ (if gone k then none else seen t s k)

module _ (s : Store) where
  Removes-none : (key : Bytes) (t : Tx) → seen t s key ≡ none → Removes s (λ k. same k key) t t
  Removes-none key t h = record {
    frame = SameFrame-refl t;
    seen_after = λ k. elim (same-cases k key) [ inl (e, q) ↦ rw (e, q) h | inr e ↦ rw e refl ];
  }

  Removes-written :
      (key : Bytes) (t : Tx) (items : Map Bytes Item)
      → ((k : Bytes) → find k items ≡ (if same k key then some deletion else find k t.items))
      → Removes s (λ k. same k key) t (record t { items = items })
  Removes-written key t items h = record {
    frame = SameFrame-record t items t.ensures t.dirty;
    seen_after =
        λ k. elim (same-cases k key) [ inl (e, q) ↦ rw (h k, e) refl | inr e ↦ rw (h k, e) refl ];
  }

  -- A call that does not throw, and what it leaves.
  abbrev Removed : Bytes → Tx → Result Bool × Tx → Type 0
  Removed key t r = ((b : Bool) × (r.0 ≡ ok b)) × Removes s (λ k. same k key) t r.1

  remove_found-Removed :
      (key : Bytes) (t : Tx) (o : Option Item)
      → find key t.items ≡ o
      → Removed key t (remove_found s key o t)
  unfolding remove_found
  remove_found-Removed key t (some item) e =
      elim (Bool-cases (is_read_or_snapshot item.action && not (is_some item.value))) [
        | inl n ↦ rw n ((false, refl), Removes-none key t (rw e (ground arith)))
        | inr n ↦ rw n (elim (Bool-cases (is_delete item.action)) [
          | inl d ↦ rw d ((false, refl), Removes-none key t (rw (e, d) refl))
          | inr d ↦
              rw d ((true, refl), Removes-written key t _ (λ k. find-insert key k deletion t.items))
        ])
      ]
  remove_found-Removed key t none e = elim (Option-cases (find key s.entries)) [
    | inl n ↦ rw n ((false, refl), Removes-none key t (rw (e, n) refl))
    | inr (v, n) ↦
        rw n ((true, refl), Removes-written key t _ (λ k. find-emplace key k deletion t.items e))
  ]

  remove-Removed :
      (u : Utf8) (glob : Glob) (key : Bytes) (t : Tx)
      → is_valid_key u key ≡ true
      → t.read_only ≡ false
      → is_open t.state ≡ true
      → is_refused glob t.user crud_delete key ≡ false
      → Removed key t (remove u glob s key t)
  unfolding remove
  remove-Removed u glob key t v r o a =
      simp (v, r, o, a) (remove_found-Removed key t (find key t.items) refl)

  Removes-trans :
      {g h : Bytes → Bool} {t t' t'' : Tx} (both : Bytes → Bool)
      → ((k : Bytes) → both k ≡ (if h k then true else g k))
      → Removes s g t t'
      → Removes s h t' t''
      → Removes s both t t''
  Removes-trans {g} {h} both e a b = record {
    frame = SameFrame-trans a.frame b.frame;
    seen_after = λ k. b.seen_after k ∙ rw (a.seen_after k, e k) (ground arith);
  }

  module _ (u : Utf8) (glob : Glob) where
    -- The user of an open, writable transaction may remove every key of the list.
    pub record MayRemove (t : Tx) (kvs : List (Bytes × Value)) : Type 0 where
      pub writable : t.read_only ≡ false
      pub opened : is_open t.state ≡ true
      pub keys :
          (k : Bytes)
          → is_some (find k kvs) ≡ true
          → (is_valid_key u k ≡ true) × (is_refused glob t.user crud_delete k ≡ false)

    MayRemove-tail :
        (k : Bytes) (v : Value) (kvs : List (Bytes × Value)) {t t' : Tx}
        → SameFrame t t'
        → MayRemove t ((k, v) ∷ kvs)
        → MayRemove t' kvs
    MayRemove-tail k v kvs {t} {t'} f h = record {
      writable = f.read_only ∙ h.writable;
      opened = ap is_open f.state ∙ h.opened;
      keys = λ j p. let r = h.keys j (still j p) in (r.0, rw f.user r.1);
    }
      where
        still : (j : Bytes) → is_some (find j kvs) ≡ true → is_some (find j ((k, v) ∷ kvs)) ≡ true
        still j p = elim (same-cases j k) [
          | inl (e, q) ↦ rw (q, find-head k v kvs) refl
          | inr e ↦ rw (find-tail j k v kvs e) p
        ]

    remove_key-Removed :
        (k : Bytes) (v : Value) (kvs : List (Bytes × Value)) (t : Tx)
        → MayRemove t ((k, v) ∷ kvs)
        → ((remove_key u glob s k v t).0 ≡ ok true)
          × Removes s (λ j. same j k) t (remove_key u glob s k v t).1
    unfolding remove_key
    remove_key-Removed k v kvs t h =
        let may = h.keys k (rw (find-head k v kvs) refl) in
        let r = remove-Removed u glob k t may.0 h.writable h.opened may.1 in
        rw (follow-returns (remove u glob s k t) (λ _. pure true) r.0.0 r.0.1) (refl, r.1)

    pub call_each-Removes :
        (n : ℕ) (kvs : List (Bytes × Value)) (t : Tx)
        → MayRemove t kvs
        → ((call_each (remove_key u glob s) n kvs t).0 ≡ ok (n + length kvs))
          × Removes s (λ k. is_some (find k kvs)) t (call_each (remove_key u glob s) n kvs t).1
    unfolding call_each
    call_each-Removes n [] t h = (
      ap ok (omega arith),
      record { frame = SameFrame-refl t; seen_after = λ k. rw (find-nil {V = Value} k) refl },
    )
    call_each-Removes n ((k, v) ∷ kvs) t h =
        let r = remove_key-Removed k v kvs t h in
        let c =
          call_each-Removes (n + 1) kvs (remove_key u glob s k v t).1
            (MayRemove-tail k v kvs (r.1).frame h) in
        rw (follow-returns (remove_key u glob s k v t) _ true r.0) (
          c.0 ∙ ap ok (omega arith),
          Removes-trans (λ j. is_some (find j ((k, v) ∷ kvs))) (λ j. among j) r.1 c.1,
        )
      where
        among :
            (j : Bytes)
            → is_some (find j ((k, v) ∷ kvs)) ≡ (if is_some (find j kvs) then true else same j k)
        among j = elim (same-cases j k) [
          | inl (e, q) ↦ rw (q, find-head k v kvs, same_self k) (ground arith)
          | inr e ↦ rw (find-tail j k v kvs e, e) (ground arith)
        ]

    -- A key matches here when glob_match accepts it and it starts with the part of the pattern before its
    -- first * or ?, as it is written. remove(pattern) returns the number of keys that it found, and the
    -- transaction then sees nothing under a matching key and what it saw under every other, also one that
    -- only glob_match accepts. The transaction is open and writable, its items and the entries of the store
    -- are in order, the pattern is not empty, and the user may delete each matching key that is seen, all
    -- of them valid.
    pub remove_all-Removes :
        (pattern : Bytes) (t : Tx)
        → IsSorted t.items
        → IsSorted s.entries
        → is_empty pattern ≡ false
        → t.read_only ≡ false
        → is_open t.state ≡ true
        → ((k : Bytes)
            → matches glob pattern k ≡ true
            → is_some (seen t s k) ≡ true
            → (is_valid_key u k ≡ true) × (is_refused glob t.user crud_delete k ≡ false))
        → ((remove_all u glob s (some pattern) t).0
            ≡ ok (length (for_each_internal glob s pattern t).0))
          × Removes s (matches glob pattern) t (remove_all u glob s (some pattern) t).1
    unfolding remove_all for_each
    remove_all-Removes pattern t h e p r o keys =
        let a = for_each_internal-ScansAs glob s pattern t h e in
        let f = a.frame in
        let c =
          call_each-Removes 0 (for_each_internal glob s pattern t).0
            (for_each_internal glob s pattern t).1
            (record {
              writable = f.read_only ∙ r;
              opened = ap is_open f.state ∙ o;
              keys = λ k m. rw f.user (allowed a keys k m);
            }) in
        simp (p, r, o)
          (
            c.0 ∙ ap ok (omega arith),
            record {
              frame = SameFrame-trans f (c.1).frame;
              seen_after = λ k. (c.1).seen_after k ∙ gone a k;
            },
          )
      where
        allowed :
            ScansAs glob s pattern t (for_each_internal glob s pattern t)
            → ((k : Bytes)
                → matches glob pattern k ≡ true
                → is_some (seen t s k) ≡ true
                → (is_valid_key u k ≡ true) × (is_refused glob t.user crud_delete k ≡ false))
            → (k : Bytes) → is_some (find k (for_each_internal glob s pattern t).0) ≡ true
            → (is_valid_key u k ≡ true) × (is_refused glob t.user crud_delete k ≡ false)
        allowed a keys k m = elim (Bool-cases (matches glob pattern k)) [
          | inl b ↦ keys k b (rw (a.found k, b) at m)
          | inr b ↦ let q : false ≡ true = rw (a.found k, b) at m in cc
        ]

        gone :
            ScansAs glob s pattern t (for_each_internal glob s pattern t)
            → (k : Bytes)
            → (if is_some (find k (for_each_internal glob s pattern t).0)
                then none
                else seen (for_each_internal glob s pattern t).1 s k)
              ≡ (if matches glob pattern k then none else seen t s k)
        gone a k = rw (a.found k, a.unmoved k) (ground arith)
