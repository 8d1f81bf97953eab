-- ===== src/Tx/Sorted.antt =====
-- The items of a transaction of src/transaction_impl.cpp stay in order through the calls on a key.
use nplex_cpp.Prelude.{Bool, not, ◌&&◌, ◌||◌, Option, none, some, is_some, if-elim}
use nplex_cpp.Prelude.Order.{Bytes, bytes_order, same}
use nplex_cpp.OrderedMap.{find}
use nplex_cpp.OrderedMap.Sorted.{IsSorted, insert-IsSorted, emplace-IsSorted}
use nplex_cpp.Result.{Result, follow-state}
use nplex_cpp.Types.{Value}
use nplex_cpp.Key.{Utf8, is_valid_key}
use nplex_cpp.User.{Glob, crud_create, crud_update, crud_delete}
use nplex_cpp.Store.{Store}
use nplex_cpp.Tx.{Tx, Item, is_open}
use nplex_cpp.Tx.Access.{
  is_read_committed, is_snapshot, is_delete, is_empty, is_refused, has_content, is_repeatable_read,
  is_read_or_snapshot, ensure, read_value, read_item, pin, read_store, read_found, read,
  upsert_item, upsert_store, upsert_found, upsert_internal, remove_found, remove,
}

-- Of a result and of the transaction that it leaves.
abbrev Keeps : {A : Type 0} → Result A × Tx → Type 0
Keeps r = IsSorted r.1.items

abbrev pub KeepsItems : Tx → Type 0
KeepsItems t = IsSorted t.items

pub ensure-IsSorted : (p : Option Bytes) (t : Tx) → IsSorted t.items → Keeps (ensure p t)
unfolding ensure
ensure-IsSorted none t h = h
ensure-IsSorted (some p) t h = if-elim Keeps (is_open t.state) _ _ h h

module _ (s : Store) (key : Bytes) where
  read_value-IsSorted :
      (check : Bool) (v : Option Value) (t : Tx)
      → IsSorted t.items
      → Keeps (read_value key check v t)
  unfolding read_value
  read_value-IsSorted check v t h =
      if-elim Keeps check _ _
        (follow-state KeepsItems (ensure (some key) t) _ (ensure-IsSorted (some key) t h)
          (λ _. ensure-IsSorted (some key) t h))
        h

  read_item-IsSorted :
      (check : Bool) (item : Item) (t : Tx) → IsSorted t.items → Keeps (read_item key check item t)
  unfolding read_item
  read_item-IsSorted check item t h = if-elim Keeps (is_delete item.action) _ _ h (
      if-elim Keeps (not (is_some item.value)) _ _ h (
        if-elim Keeps (is_snapshot item.action) _ _
          (read_value-IsSorted check item.value _ (insert-IsSorted key _ t.items h))
          (read_value-IsSorted check item.value t h)))

  pin-IsSorted : (v : Option Value) (t : Tx) → IsSorted t.items → IsSorted (pin key v t).items
  unfolding pin
  pin-IsSorted v t h =
      if-elim KeepsItems (is_read_committed t.isolation) _ _ h (emplace-IsSorted key _ t.items h)

  read_store-IsSorted :
      (check : Bool) (v : Option Value) (t : Tx)
      → IsSorted t.items
      → Keeps (read_store key check v t)
  unfolding read_store
  read_store-IsSorted check none t h = pin-IsSorted none t h
  read_store-IsSorted check (some v) t h =
      read_value-IsSorted check (some v) _ (pin-IsSorted (some v) t h)

  read_found-IsSorted :
      (check : Bool) (item : Option Item) (t : Tx)
      → IsSorted t.items
      → Keeps (read_found s key check item t)
  unfolding read_found
  read_found-IsSorted check (some item) t h = read_item-IsSorted check item t h
  read_found-IsSorted check none t h = read_store-IsSorted check (find key s.entries) t h

  pub read-IsSorted :
      (u : Utf8) (check : Bool) (t : Tx) → IsSorted t.items → Keeps (read u s key check t)
  unfolding read
  read-IsSorted u check t h =
      if-elim Keeps (is_valid_key u key) _ _
        (if-elim Keeps (is_open t.state) _ _ (read_found-IsSorted check (find key t.items) t h) h) h

  module _ (glob : Glob) (content : Bytes) (force : Bool) where
    upsert_item-IsSorted :
        (item : Item) (t : Tx)
        → IsSorted t.items
        → Keeps (upsert_item glob key content force item t)
    unfolding upsert_item
    upsert_item-IsSorted item t h = if-elim Keeps (is_refused glob t.user crud_update key) _ _ h (
        if-elim Keeps (not force && (not (is_delete item.action) && has_content content item.value))
          _ _ h (insert-IsSorted key _ t.items h))

    upsert_store-IsSorted :
        (v : Option Value) (t : Tx)
        → IsSorted t.items
        → Keeps (upsert_store glob key content force v t)
    unfolding upsert_store
    upsert_store-IsSorted none t h =
        if-elim Keeps (is_refused glob t.user crud_create key) _ _ h
          (emplace-IsSorted key _ t.items h)
    upsert_store-IsSorted (some value) t h =
        if-elim Keeps (is_refused glob t.user crud_update key) _ _ h (
          if-elim Keeps (not force && same value.content content) _ _
            (if-elim KeepsItems (is_repeatable_read t.isolation) _ _
              (emplace-IsSorted key _ t.items h) h)
            (emplace-IsSorted key _ t.items h))

    upsert_found-IsSorted :
        (item : Option Item) (t : Tx)
        → IsSorted t.items
        → Keeps (upsert_found glob s key content force item t)
    unfolding upsert_found
    upsert_found-IsSorted (some item) t h = upsert_item-IsSorted item t h
    upsert_found-IsSorted none t h = upsert_store-IsSorted (find key s.entries) t h

    pub upsert_internal-IsSorted :
        (u : Utf8) (t : Tx)
        → IsSorted t.items
        → Keeps (upsert_internal u glob s key content force t)
    unfolding upsert_internal
    upsert_internal-IsSorted u t h =
        if-elim Keeps (not (is_valid_key u key) || is_empty content) _ _ h (
          if-elim Keeps t.read_only _ _ h (
            if-elim Keeps (not (is_open t.state)) _ _ h
              (upsert_found-IsSorted (find key t.items) t h)))

  remove_found-IsSorted :
      (item : Option Item) (t : Tx) → IsSorted t.items → Keeps (remove_found s key item t)
  unfolding remove_found
  remove_found-IsSorted (some item) t h =
      if-elim Keeps (is_read_or_snapshot item.action && not (is_some item.value)) _ _ h
        (if-elim Keeps (is_delete item.action) _ _ h (insert-IsSorted key _ t.items h))
  remove_found-IsSorted none t h =
      if-elim Keeps (is_some (find key s.entries)) _ _ (emplace-IsSorted key _ t.items h) h

  pub remove-IsSorted :
      (u : Utf8) (glob : Glob) (t : Tx) → IsSorted t.items → Keeps (remove u glob s key t)
  unfolding remove
  remove-IsSorted u glob t h = if-elim Keeps (not (is_valid_key u key)) _ _ h (
      if-elim Keeps t.read_only _ _ h (
        if-elim Keeps (not (is_open t.state)) _ _ h (
          if-elim Keeps (is_refused glob t.user crud_delete key) _ _ h
            (remove_found-IsSorted (find key t.items) t h))))
