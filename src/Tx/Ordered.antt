-- ===== src/Tx/Ordered.antt =====
-- The items of a transaction stay in the order of their keys, like the maps of the store:
-- src/transaction_impl.cpp.
use nplex_cpp.Prelude.{ℕ, ◌+◌, length, sym, subst, List, [], ◌∷◌, Option, none, some, if-elim}
use nplex_cpp.Prelude.Order.{Bytes, bytes_order}
use nplex_cpp.OrderedMap.{Map, find}
use nplex_cpp.OrderedMap.Sorted.{IsSorted, insert-IsSorted, emplace-IsSorted}
use nplex_cpp.Types.{Value, Change}
use nplex_cpp.Key.{Utf8}
use nplex_cpp.User.{Glob}
use nplex_cpp.Store.{Store}
use nplex_cpp.Store.Ordered.{IsOrdered, apply_update-IsOrdered}
use nplex_cpp.Tx.{Tx, Item, Isolation, is_open}
use nplex_cpp.Tx.Access.{is_snapshot}
use nplex_cpp.Tx.Track.{
  any_held, update_default, track_item, track_change, update_serializable, update_by, breaks_ensure,
  check_ensures,
}
use nplex_cpp.Tx.Track
use nplex_cpp.Tx.Scan.{
  Scan, or_all, touch, visit_item, visit_entry, pin_all, prefix_of, start_at, merge, scan,
  for_each_internal,
}
use nplex_cpp.Tx.Visits.{Visit, own, stored, visit, visit_all, trace, merge-trace}
use nplex_cpp.Tx.Session.{Session, Step, commits, reads, ensures, upserts, removes, scans}
use nplex_cpp.Tx.Sorted.{
  KeepsItems, ensure-IsSorted, read-IsSorted, upsert_internal-IsSorted, remove-IsSorted,
}

track_item-IsSorted :
    (c : Change) (o : Option Item) (t : Tx) → KeepsItems t → KeepsItems (track_item c o t)
unfolding track_item
track_item-IsSorted c none t h = emplace-IsSorted c.key _ t.items h
track_item-IsSorted c (some item) t h = h

update_serializable-IsSorted :
    (cs : List Change) (t : Tx) → KeepsItems t → KeepsItems (update_serializable cs t)
unfolding update_serializable track_change
update_serializable-IsSorted [] t h = h
update_serializable-IsSorted (c ∷ cs) t h =
    update_serializable-IsSorted cs (track_change c t)
      (track_item-IsSorted c (find c.key t.items) t h)

update_default-IsSorted :
    (cs : List Change) (t : Tx) → KeepsItems t → KeepsItems (update_default cs t)
unfolding update_default
update_default-IsSorted cs t h =
    if-elim KeepsItems t.dirty _ _ h (if-elim KeepsItems (any_held t cs) _ _ h h)

update_by-IsSorted :
    (i : Isolation) (cs : List Change) (t : Tx) → KeepsItems t → KeepsItems (update_by i cs t)
unfolding update_by
update_by-IsSorted Isolation.serializable cs t h = update_serializable-IsSorted cs t h
update_by-IsSorted Isolation.read_committed cs t h = update_default-IsSorted cs t h
update_by-IsSorted Isolation.repeatable_read cs t h = update_default-IsSorted cs t h

update-IsSorted :
    (glob : Glob) (cs : List Change) (t : Tx) → KeepsItems t → KeepsItems (Track.update glob cs t)
unfolding Track.update check_ensures
update-IsSorted glob cs t h =
    let k = update_by-IsSorted t.isolation cs t h in
    if-elim KeepsItems (is_open t.state) _ _
      (if-elim KeepsItems (update_by t.isolation cs t).dirty _ _ k
        (if-elim KeepsItems (breaks_ensure glob (update_by t.isolation cs t).ensures cs) _ _ k k))
      h

visit-IsSorted :
    (k : Bytes) (v : Visit) (st : Scan) → KeepsItems st.tx → KeepsItems (visit k v st).tx
unfolding visit_item visit_entry touch
visit-IsSorted k (own item) st h =
    if-elim KeepsItems (is_snapshot item.action) _ _ (insert-IsSorted k _ st.tx.items h) h
visit-IsSorted k (stored value) st h = h

visit_all-IsSorted :
    (vs : Map Bytes Visit) (st : Scan) → KeepsItems st.tx → KeepsItems (visit_all vs st).tx
visit_all-IsSorted [] st h = h
visit_all-IsSorted ((k, v) ∷ vs) st h =
    visit_all-IsSorted vs (visit k v st) (visit-IsSorted k v st h)

pin_all-IsSorted :
    (ps : List (Bytes × Value)) (m : Map Bytes Item) → IsSorted m → IsSorted (pin_all ps m)
unfolding pin_all
pin_all-IsSorted [] m h = h
pin_all-IsSorted ((k, value) ∷ ps) m h = pin_all-IsSorted ps _ (emplace-IsSorted k _ m h)

merge-IsSorted :
    (glob : Glob) (pattern prefix : Bytes) (fuel : ℕ) (items : Map Bytes Item)
    (entries : Map Bytes Value) (st : Scan)
    → KeepsItems st.tx
    → KeepsItems (merge glob pattern prefix fuel items entries st).tx
merge-IsSorted glob pattern prefix fuel items entries st h =
    subst (λ r. KeepsItems r.tx) (sym (merge-trace glob pattern prefix fuel items entries st))
      (visit_all-IsSorted (trace glob pattern prefix fuel items entries) st h)

scan-IsSorted :
    (glob : Glob) (pattern : Bytes) (s : Store) (t : Tx)
    → KeepsItems t
    → KeepsItems (scan glob pattern s t).tx
unfolding scan
scan-IsSorted glob pattern s t h =
    let items = start_at (prefix_of pattern) t.items in
    let entries = start_at (prefix_of pattern) s.entries in
    merge-IsSorted glob pattern (prefix_of pattern) (length items + length entries) items entries
      (record { tx = t; found = []; pinned = [] }) h

for_each_internal-IsSorted :
    (glob : Glob) (s : Store) (pattern : Bytes) (t : Tx)
    → KeepsItems t
    → KeepsItems (for_each_internal glob s pattern t).1
unfolding for_each_internal
for_each_internal-IsSorted glob s pattern t h =
    pin_all-IsSorted (scan glob (or_all pattern) s t).pinned _
      (scan-IsSorted glob (or_all pattern) s t h)

-- The items of the transaction and the maps of the store have their keys in order.
pub record SessionIsOrdered (a : Session) : Type 0 where
  pub items : IsSorted a.tx.items
  pub store : IsOrdered a.store

-- Every call of a transaction and every commit, whether it returns or throws, keeps the items of the
-- transaction and the three maps of the store in the order of their keys.
pub Step-SessionIsOrdered :
    (u : Utf8) (glob : Glob) (W : Bytes → Type 0) {a b : Session}
    → Step u glob W a b
    → SessionIsOrdered a
    → SessionIsOrdered b
Step-SessionIsOrdered u glob W {a = a} (commits upd r e) h = record {
  items = update-IsSorted glob r.0 a.tx h.items;
  store = apply_update-IsOrdered u upd a.store h.store;
}
Step-SessionIsOrdered u glob W {a = a} (reads key check) h = record {
  items = read-IsSorted a.store key u check a.tx h.items;
  store = h.store;
}
Step-SessionIsOrdered u glob W {a = a} (ensures p) h = record {
  items = ensure-IsSorted p a.tx h.items;
  store = h.store;
}
Step-SessionIsOrdered u glob W {a = a} (upserts key content force w) h = record {
  items = upsert_internal-IsSorted a.store key glob content force u a.tx h.items;
  store = h.store;
}
Step-SessionIsOrdered u glob W {a = a} (removes key w) h = record {
  items = remove-IsSorted a.store key u glob a.tx h.items;
  store = h.store;
}
Step-SessionIsOrdered u glob W {a = a} (scans pattern) h = record {
  items = for_each_internal-IsSorted glob a.store pattern a.tx h.items;
  store = h.store;
}
