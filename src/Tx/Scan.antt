-- ===== src/Tx/Scan.antt =====
-- src/transaction_impl.cpp: for_each_internal, for_each and remove(pattern). An iterator is the part of
-- the map that it still goes through.
use Prim.Native.Nat.Ordering.{lt, eq, gt}
use nplex_cpp.Prelude.{
  ℕ, zero, suc, ◌+◌, Bool, true, false, not, ◌&&◌, ◌||◌, List, [], ◌∷◌, ◌++◌, Option, none, some,
  ◌==◌, length, if◌then◌else◌,
}
use nplex_cpp.Prelude.Order.{Bytes, bytes_order, compare_bytes}
use nplex_cpp.OrderedMap.{Map, insert, emplace, lower_bound}
use nplex_cpp.Result.{not_open, read_only, Exec, pure, throw, follow}
use nplex_cpp.Types.{Value}
use nplex_cpp.Key.{Utf8}
use nplex_cpp.User.{Glob}
use nplex_cpp.Store.{Store}
use nplex_cpp.Tx.{Tx, Item, ItemAction, is_open}
use nplex_cpp.Tx.Access.{is_read_committed, is_snapshot, is_delete, is_empty, remove}

-- pattern up to strcspn(pattern, "*?")
unfoldable pub prefix_of : Bytes → Bytes
prefix_of [] = []
prefix_of (c ∷ cs) = let rest = prefix_of cs in if c == 42 || c == 63 then [] else c ∷ rest

unfoldable pub starts_with : Bytes → Bytes → Bool
starts_with [] key = true
starts_with (p ∷ ps) [] = false
starts_with (p ∷ ps) (c ∷ cs) = let rest = starts_with ps cs in p == c && rest

-- The two inner loops: to the next key that matches, or to the end at a key without the prefix.
unfoldable pub advance : {V : Type 0} → Glob → Bytes → Bytes → Map Bytes V → Map Bytes V
unfolding starts_with
advance glob pattern prefix [] = []
advance glob pattern prefix ((k, v) ∷ m) =
    let rest = advance glob pattern prefix m in
    if not (starts_with prefix k) then [] else if glob k pattern then (k, v) ∷ m else rest

-- The transaction, `ret` and `pinned`.
pub record Scan : Type 0 where
  pub tx : Tx
  pub found : List (Bytes × Value)
  pub pinned : List (Bytes × Value)

abbrev pub shown_value : Item → Option Value
shown_value item = if is_delete item.action then none else item.value

-- if (... != DELETE && value) ret.emplace_back(key, value)
abbrev pub add_found : Bytes → Option Value → List (Bytes × Value) → List (Bytes × Value)
add_found key none found = found
add_found key (some value) found = found ++ (key, value) ∷ []

-- if (... == SNAPSHOT) { ... = READ; m_dirty = true; }
unfoldable pub touch : Bytes → Item → Tx → Tx
touch key item tx =
    if is_snapshot item.action
    then record tx {
      items = insert key (record item { action = ItemAction.read }) tx.items;
      dirty = true;
    }
    else tx

-- A key of the transaction.
unfoldable pub visit_item : Bytes → Item → Scan → Scan
unfolding touch
visit_item key item st = record st {
  tx = touch key item st.tx;
  found = add_found key (shown_value item) st.found;
}

-- A key that only the store has.
unfoldable pub visit_entry : Bytes → Value → Scan → Scan
visit_entry key value st = record st {
  found = st.found ++ (key, value) ∷ [];
  pinned =
      (if is_read_committed st.tx.isolation then st.pinned else st.pinned ++ (key, value) ∷ []);
}

-- The body of the loop behind the two inner ones.
unfoldable pub merge_step :
    Map Bytes Item
    → Map Bytes Value
    → (Map Bytes Item → Map Bytes Value → Scan → Scan)
    → Scan
    → Scan
unfolding visit_item visit_entry
merge_step [] [] next st = st
merge_step ((k, item) ∷ items) [] next st = next items [] (visit_item k item st)
merge_step [] ((l, value) ∷ entries) next st = next [] entries (visit_entry l value st)
merge_step ((k, item) ∷ items) ((l, value) ∷ entries) next st = elim (compare_bytes k l) [
  | lt ↦ next items ((l, value) ∷ entries) (visit_item k item st)
  | gt ↦ next ((k, item) ∷ items) entries (visit_entry l value st)
  | eq ↦ next items entries (visit_item k item st)
]

-- A round that goes on takes at least one key, so the number of keys is fuel enough.
unfoldable pub merge : Glob → Bytes → Bytes → ℕ → Map Bytes Item → Map Bytes Value → Scan → Scan
unfolding advance merge_step
merge glob pattern prefix zero items entries st = st
merge glob pattern prefix (suc fuel) items entries st =
    merge_step (advance glob pattern prefix items) (advance glob pattern prefix entries)
      (merge glob pattern prefix fuel) st

-- m_items.emplace(key, (READ, value)) for each pinned value
unfoldable pub pin_all : List (Bytes × Value) → Map Bytes Item → Map Bytes Item
pin_all [] items = items
pin_all ((k, value) ∷ pinned) items =
    pin_all pinned (emplace k (record { action = ItemAction.read; value = some value }) items)

unfoldable pub start_at : {V : Type 0} → Bytes → Map Bytes V → Map Bytes V
start_at prefix m = if is_empty prefix then m else lower_bound prefix m

-- The pattern "**" takes the place of an empty one.
abbrev pub or_all : Bytes → Bytes
or_all pattern = if is_empty pattern then 42 ∷ 42 ∷ [] else pattern

unfoldable pub scan : Glob → Bytes → Store → Tx → Scan
unfolding prefix_of merge start_at
scan glob pattern s tx =
    let prefix = prefix_of pattern in
    let items = start_at prefix tx.items in
    let entries = start_at prefix s.entries in
    merge glob pattern prefix (length items + length entries) items entries
      (record { tx = tx; found = []; pinned = [] })

unfoldable pub for_each_internal : Glob → Store → Bytes → Tx → List (Bytes × Value) × Tx
unfolding scan pin_all
for_each_internal glob s pattern tx =
    let st = scan glob (or_all pattern) s tx in
    (st.found, record st.tx { items = pin_all st.pinned st.tx.items })

-- The loop over the callback, whose false ends it.
unfoldable pub call_each : (Bytes → Value → Exec Tx Bool) → ℕ → List (Bytes × Value) → Exec Tx ℕ
call_each callback ret [] tx = pure ret tx
call_each callback ret ((k, v) ∷ kvs) tx =
    let rest = call_each callback (ret + 1) kvs in
    follow (callback k v tx) λ more. if more then rest else pure (ret + 1)

unfoldable pub for_each : Glob → Store → Option Bytes → (Bytes → Value → Exec Tx Bool) → Exec Tx ℕ
for_each glob s none callback tx = pure 0 tx
for_each glob s (some pattern) callback tx =
    if is_empty pattern
    then pure 0 tx
    else if not (is_open tx.state)
    then throw not_open tx
    else let r = for_each_internal glob s pattern tx in call_each callback 0 r.0 r.1

-- The callback of remove(const char *).
unfoldable pub remove_key : Utf8 → Glob → Store → Bytes → Value → Exec Tx Bool
remove_key u glob s key value tx = follow (remove u glob s key tx) λ _. pure true

-- remove(const char *)
unfoldable pub remove_all : Utf8 → Glob → Store → Option Bytes → Exec Tx ℕ
unfolding for_each
remove_all u glob s pattern tx =
    if tx.read_only
    then throw read_only tx
    else if not (is_open tx.state)
    then throw not_open tx
    else for_each glob s pattern (remove_key u glob s) tx
