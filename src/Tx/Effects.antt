-- ===== src/Tx/Effects.antt =====
-- What the visits of for_each_internal do to the transaction and to the two lists: src/transaction_impl.cpp.
use Prim.Native.Nat.Ordering.{lt}
use nplex_cpp.Prelude.{
  ◌≡◌, refl, sym, ◌∙◌, ap, true, List, [], ◌∷◌, ◌++◌, append_assoc, append-nil, Option, none, some,
  inl, inr, if◌then◌else◌, Bool-cases, Option-cases, arith,
}
use nplex_cpp.Prelude.Order.{Bytes, bytes_order, same, same_self, same-cases, compare_bytes}
use nplex_cpp.OrderedMap.{Map, find, find-nil, emplace, find-insert, find-emplace}
use nplex_cpp.OrderedMap.Sorted.{Above, IsSorted, find-Above, find-head, find-tail}
use nplex_cpp.Types.{Value}
use nplex_cpp.Tx.{Item, ItemAction}
use nplex_cpp.Tx.Access.{is_read_committed, is_snapshot}
use nplex_cpp.Tx.View.{SameFrame, SameFrame-refl, SameFrame-record, SameFrame-trans}
use nplex_cpp.Tx.Scan.{Scan, add_found, shown_value, touch, visit_item, visit_entry, pin_all}
use nplex_cpp.Tx.Visits.{Visit, own, stored, visit, visit_all}

-- What a visit puts into `ret`, and what into `pinned`.
abbrev pub shown_visit : Option Visit → Option Value
shown_visit none = none
shown_visit (some (own item)) = shown_value item
shown_visit (some (stored value)) = some value

abbrev pub pinned_visit : Option Visit → Option Value
pinned_visit none = none
pinned_visit (some (own item)) = none
pinned_visit (some (stored value)) = some value

abbrev pub with_key : Bytes → Option Value → List (Bytes × Value) → List (Bytes × Value)
with_key k none rest = rest
with_key k (some value) rest = (k, value) ∷ rest

-- The list that such values make.
abbrev pub collect : (Option Visit → Option Value) → Map Bytes Visit → List (Bytes × Value)
collect f [] = []
collect f ((k, v) ∷ vs) = with_key k (f (some v)) (collect f vs)

with_key-Above :
    (b k : Bytes) (o : Option Value) (rest : List (Bytes × Value))
    → compare_bytes b k ≡ lt
    → Above b rest
    → Above b (with_key k o rest)
with_key-Above b k none rest h a = a
with_key-Above b k (some value) rest h a = (h, a)

module _ (f : Option Visit → Option Value) where
  collect-Above : (b : Bytes) (vs : Map Bytes Visit) → Above b vs → Above b (collect f vs)
  collect-Above b [] a = tt
  collect-Above b ((k, v) ∷ vs) a =
      with_key-Above b k (f (some v)) (collect f vs) a.0 (collect-Above b vs a.1)

  with_key-IsSorted :
      (k : Bytes) (o : Option Value) (rest : List (Bytes × Value))
      → Above k rest
      → IsSorted rest
      → IsSorted (with_key k o rest)
  with_key-IsSorted k none rest a h = h
  with_key-IsSorted k (some value) rest a h = (a, h)

  pub collect-IsSorted : (vs : Map Bytes Visit) → IsSorted vs → IsSorted (collect f vs)
  collect-IsSorted [] h = tt
  collect-IsSorted ((k, v) ∷ vs) h =
      with_key-IsSorted k (f (some v)) (collect f vs) (collect-Above k vs h.0)
        (collect-IsSorted vs h.1)

  find-with_key :
      (j k : Bytes) (o : Option Value) (rest : List (Bytes × Value))
      → find k rest ≡ none
      → find j (with_key k o rest) ≡ (if same j k then o else find j rest)
  find-with_key j k none rest h = elim (same-cases j k) [
    | inl (e, q) ↦ rw (q, same_self k) h
    | inr e ↦ rw e refl
  ]
  find-with_key j k (some value) rest h = unfold find in refl

  pub find-collect :
      f none ≡ none
      → (j : Bytes) (vs : Map Bytes Visit) → IsSorted vs
      → find j (collect f vs) ≡ f (find j vs)
  find-collect n j [] h = unfold find in sym n
  find-collect n j ((k, v) ∷ vs) h =
      find-with_key j k (f (some v)) (collect f vs)
        (find-Above k (collect f vs) (collect-Above k vs h.0))
      ∙ elim (same-cases j k) [
        | inl (e, q) ↦ rw (e, q, find-head k v vs) refl
        | inr e ↦ rw (e, find-tail j k v vs e) (find-collect n j vs h.1)
      ]

-- What a visit leaves of an item.
abbrev pub after_visit : Option Visit → Option Item → Option Item
after_visit none old = old
after_visit (some (own item)) old =
    if is_snapshot item.action then some (record item { action = ItemAction.read }) else old
after_visit (some (stored value)) old = old

-- An item, or the one that `pinned` makes where there is none.
abbrev pub or_pinned : Option Item → Option Value → Option Item
or_pinned (some item) pinned = some item
or_pinned none (some value) = some (record { action = ItemAction.read; value = some value })
or_pinned none none = none

unpinned : (o : Option Item) → o ≡ or_pinned o none
unpinned none = refl
unpinned (some item) = refl

emplace-kept :
    (k : Bytes) (item : Item) (m : Map Bytes Item) {old : Item}
    → find k m ≡ some old
    → emplace k item m ≡ m
unfolding emplace
emplace-kept k item m h = ground arith

pub find-pin_all :
    (k : Bytes) (ps : List (Bytes × Value)) (m : Map Bytes Item)
    → find k (pin_all ps m) ≡ or_pinned (find k m) (find k ps)
unfolding pin_all
find-pin_all k [] m = rw (find-nil {V = Value} k) (unpinned (find k m))
find-pin_all k ((j, value) ∷ ps) m =
    find-pin_all k ps (emplace j (record { action = ItemAction.read; value = some value }) m)
    ∙ elim (Option-cases (find j m)) [
      | inl e ↦
          rw (find-emplace j k (record { action = ItemAction.read; value = some value }) m e)
            (elim (same-cases k j) [
              | inl (b, q) ↦ rw (b, q, e, find-head j value ps) refl
              | inr b ↦ rw (b, find-tail k j value ps b) refl
            ])
      | inr (old, e) ↦
          rw (emplace-kept j (record { action = ItemAction.read; value = some value }) m e)
            (elim (same-cases k j) [
              | inl (b, q) ↦ rw (q, e) refl
              | inr b ↦ rw (find-tail k j value ps b) refl
            ])
    ]

-- The frame, the items and the two lists after all visits.
pub record Visited (vs : Map Bytes Visit) (st st' : Scan) : Type 0 where
  pub frame : SameFrame st.tx st'.tx
  pub items : (k : Bytes) → find k st'.tx.items ≡ after_visit (find k vs) (find k st.tx.items)
  pub found : st'.found ≡ st.found ++ collect shown_visit vs
  pub pinned : st'.pinned ≡ (
      if is_read_committed st.tx.isolation then st.pinned else st.pinned ++ collect pinned_visit vs)

visit-SameFrame : (k : Bytes) (v : Visit) (st : Scan) → SameFrame st.tx (visit k v st).tx
unfolding visit_item visit_entry touch
visit-SameFrame k (own item) st = elim (Bool-cases (is_snapshot item.action)) [
  | inl e ↦ rw e (SameFrame-record st.tx _ st.tx.ensures true)
  | inr e ↦ rw e (SameFrame-refl st.tx)
]
visit-SameFrame k (stored value) st = SameFrame-refl st.tx

items-visit :
    (j k : Bytes) (v : Visit) (st : Scan)
    → find j (visit k v st).tx.items
      ≡ (if same j k then after_visit (some v) (find j st.tx.items) else find j st.tx.items)
unfolding visit_item visit_entry touch
items-visit j k (own item) st = elim (Bool-cases (is_snapshot item.action)) [
  | inl e ↦ rw e (find-insert k j (record item { action = ItemAction.read }) st.tx.items)
  | inr e ↦ rw e (ground arith)
]
items-visit j k (stored value) st = ground arith

found-visit :
    (k : Bytes) (v : Visit) (st : Scan)
    → (visit k v st).found ≡ st.found ++ with_key k (shown_visit (some v)) []
unfolding visit_item visit_entry
found-visit k (own item) st = add (shown_value item)
  where
    add : (o : Option Value) → add_found k o st.found ≡ st.found ++ with_key k o []
    add none = sym (append-nil st.found)
    add (some value) = refl
found-visit k (stored value) st = refl

pinned-visit :
    (k : Bytes) (v : Visit) (st : Scan)
    → (visit k v st).pinned ≡ (
        if is_read_committed st.tx.isolation
        then st.pinned
        else st.pinned ++ with_key k (pinned_visit (some v)) [])
unfolding visit_item visit_entry
pinned-visit k (own item) st = rw (append-nil st.pinned) (ground arith)
pinned-visit k (stored value) st = refl

collect_append :
    (f : Option Visit → Option Value) (k : Bytes) (v : Visit) (vs : Map Bytes Visit)
    (ps : List (Bytes × Value))
    → (ps ++ with_key k (f (some v)) []) ++ collect f vs ≡ ps ++ collect f ((k, v) ∷ vs)
collect_append f k v vs ps = add (f (some v))
  where
    add :
        (o : Option Value)
        → (ps ++ with_key k o []) ++ collect f vs ≡ ps ++ with_key k o (collect f vs)
    add none = ap (λ l. l ++ collect f vs) (append-nil ps)
    add (some value) = append_assoc ps ((k, value) ∷ []) (collect f vs)

Visited-cons :
    (k : Bytes) (v : Visit) (vs : Map Bytes Visit) (st st' : Scan)
    → Above k vs
    → Visited vs (visit k v st) st'
    → Visited ((k, v) ∷ vs) st st'
Visited-cons k v vs st st' a h = record {
  frame = SameFrame-trans (visit-SameFrame k v st) h.frame;
  items = λ j. h.items j ∙ elim (same-cases j k) [
    | inl (e, q) ↦ rw (items-visit j k v st, e, q, find-Above k vs a, find-head k v vs) refl
    | inr e ↦ rw (items-visit j k v st, e, find-tail j k v vs e) refl
  ];
  found = h.found ∙ rw (found-visit k v st) (collect_append shown_visit k v vs st.found);
  pinned =
      h.pinned
      ∙ rw ((visit-SameFrame k v st).isolation, pinned-visit k v st)
          (elim (Bool-cases (is_read_committed st.tx.isolation)) [
            | inl e ↦ rw e refl
            | inr e ↦ rw e (collect_append pinned_visit k v vs st.pinned)
          ]);
}

pub visit_all-Visited :
    (vs : Map Bytes Visit) (st : Scan) → IsSorted vs → Visited vs st (visit_all vs st)
visit_all-Visited [] st h = record {
  frame = SameFrame-refl st.tx;
  items = λ k. rw (find-nil {V = Visit} k) refl;
  found = sym (append-nil st.found);
  pinned = rw (append-nil st.pinned) (ground arith);
}
visit_all-Visited ((k, v) ∷ vs) st h =
    Visited-cons k v vs st (visit_all vs (visit k v st)) h.0
      (visit_all-Visited vs (visit k v st) h.1)
