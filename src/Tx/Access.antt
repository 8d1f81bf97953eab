-- ===== src/Tx/Access.antt =====
-- src/transaction_impl.cpp: read, upsert, upsert_if_changed, remove(key) and ensure. A null key is
-- treated as an empty one: both are invalid.
use nplex_cpp.Prelude.{
  ℕ, Bool, true, false, not, ◌&&◌, ◌||◌, [], ◌∷◌, Option, none, some, is_some, if◌then◌else◌,
}
use nplex_cpp.Prelude.Order.{Bytes, bytes_order, same}
use nplex_cpp.OrderedMap.{find, insert, emplace}
use nplex_cpp.Result.{
  invalid_key, invalid_argument, not_open, read_only, not_authorized, Exec, pure, throw, follow,
}
use nplex_cpp.Types.{Value}
use nplex_cpp.Key.{Utf8, is_valid_key}
use nplex_cpp.User.{Glob, User, is_authorized, crud_create, crud_update, crud_delete}
use nplex_cpp.Store.{Store}
use nplex_cpp.Tx.{Tx, Item, ItemAction, Isolation, is_open}

abbrev pub is_read_committed : Isolation → Bool
is_read_committed Isolation.read_committed = true
is_read_committed _ = false

abbrev pub is_snapshot : ItemAction → Bool
is_snapshot ItemAction.snapshot = true
is_snapshot _ = false

abbrev pub is_delete : ItemAction → Bool
is_delete ItemAction.delete = true
is_delete _ = false

abbrev pub is_empty : Bytes → Bool
is_empty [] = true
is_empty (c ∷ cs) = false

-- m_user && !m_user->is_authorized(mode, key)
unfoldable pub is_refused : Glob → Option User → ℕ → Bytes → Bool
is_refused glob none mode key = false
is_refused glob (some user) mode key = not (is_authorized glob user mode key)

unfoldable pub ensure : Option Bytes → Exec Tx Bool
ensure none tx = pure false tx
ensure (some pattern) tx =
    if is_open tx.state
    then pure true (record tx { ensures = emplace pattern tt tx.ensures })
    else throw not_open tx

-- if (ensure) this->ensure(key); return value
unfoldable pub read_value : Bytes → Bool → Option Value → Exec Tx (Option Value)
read_value key check value tx =
    if check then follow (ensure (some key) tx) (λ _. pure value) else pure value tx

-- The key was read, upserted or deleted in this transaction.
unfoldable pub read_item : Bytes → Bool → Item → Exec Tx (Option Value)
unfolding read_value
read_item key check item tx =
    if is_delete item.action
    then pure none tx
    else if not (is_some item.value)
    then pure none tx
    else if is_snapshot item.action
    then read_value key check item.value (record tx {
      items = insert key (record item { action = ItemAction.read }) tx.items;
      dirty = true;
    })
    else read_value key check item.value tx

-- m_items.emplace(key, (READ, value)), unless the level is READ_COMMITTED
unfoldable pub pin : Bytes → Option Value → Tx → Tx
pin key value tx = if is_read_committed tx.isolation then tx else record tx {
  items = emplace key (record { action = ItemAction.read; value = value }) tx.items;
}

unfoldable pub read_store : Bytes → Bool → Option Value → Exec Tx (Option Value)
unfolding pin read_value
read_store key check none tx = pure none (pin key none tx)
read_store key check (some value) tx = read_value key check (some value) (pin key (some value) tx)

unfoldable pub read_found : Store → Bytes → Bool → Option Item → Exec Tx (Option Value)
unfolding read_item read_store
read_found s key check (some item) tx = read_item key check item tx
read_found s key check none tx = read_store key check (find key s.entries) tx

unfoldable pub read : Utf8 → Store → Bytes → Bool → Exec Tx (Option Value)
unfolding read_found
read u s key check tx =
    if is_valid_key u key
    then if is_open tx.state
      then read_found s key check (find key tx.items) tx
      else throw not_open tx
    else throw invalid_key tx

-- value->data() == data
abbrev pub has_content : Bytes → Option Value → Bool
has_content content none = false
has_content content (some v) = same v.content content

-- A value that is not committed has no metadata.
abbrev pub fresh_value : Bytes → Value
fresh_value content = record { content = content; meta = none }

unfoldable pub upsert_item : Glob → Bytes → Bytes → Bool → Item → Exec Tx Bool
unfolding is_refused
upsert_item glob key content force item tx =
    if is_refused glob tx.user crud_update key
    then throw not_authorized tx
    else let tx' = record tx { dirty = tx.dirty || is_snapshot item.action } in
      if not force && (not (is_delete item.action) && has_content content item.value)
      then pure false tx'
      else pure true (record tx' {
        items =
            insert key (record { action = ItemAction.upsert; value = some (fresh_value content) })
              tx'.items;
      })

abbrev pub is_repeatable_read : Isolation → Bool
is_repeatable_read Isolation.repeatable_read = true
is_repeatable_read _ = false

unfoldable pub upsert_store : Glob → Bytes → Bytes → Bool → Option Value → Exec Tx Bool
unfolding is_refused
upsert_store glob key content force none tx =
    if is_refused glob tx.user crud_create key
    then throw not_authorized tx
    else pure true (record tx {
      items =
          emplace key (record { action = ItemAction.upsert; value = some (fresh_value content) })
            tx.items;
    })
upsert_store glob key content force (some value) tx =
    if is_refused glob tx.user crud_update key
    then throw not_authorized tx
    else if not force && same value.content content
    then pure false (
        if is_repeatable_read tx.isolation
        then record tx {
          items = emplace key (record { action = ItemAction.read; value = some value }) tx.items;
        }
        else tx)
    else pure true (record tx {
      items =
          emplace key (record { action = ItemAction.upsert; value = some (fresh_value content) })
            tx.items;
    })

unfoldable pub upsert_found : Glob → Store → Bytes → Bytes → Bool → Option Item → Exec Tx Bool
unfolding upsert_item upsert_store
upsert_found glob s key content force (some item) tx = upsert_item glob key content force item tx
upsert_found glob s key content force none tx =
    upsert_store glob key content force (find key s.entries) tx

unfoldable pub upsert_internal : Utf8 → Glob → Store → Bytes → Bytes → Bool → Exec Tx Bool
unfolding upsert_found
upsert_internal u glob s key content force tx =
    if not (is_valid_key u key) || is_empty content
    then throw invalid_argument tx
    else if tx.read_only
    then throw read_only tx
    else if not (is_open tx.state)
    then throw not_open tx
    else upsert_found glob s key content force (find key tx.items) tx

unfoldable pub upsert : Utf8 → Glob → Store → Bytes → Bytes → Exec Tx (Unit {0})
unfolding upsert_internal
upsert u glob s key content tx =
    follow (upsert_internal u glob s key content true tx) (λ _. pure tt)

unfoldable pub upsert_if_changed : Utf8 → Glob → Store → Bytes → Bytes → Exec Tx Bool
unfolding upsert_internal
upsert_if_changed u glob s key content = upsert_internal u glob s key content false

abbrev pub is_read_or_snapshot : ItemAction → Bool
is_read_or_snapshot ItemAction.read = true
is_read_or_snapshot ItemAction.snapshot = true
is_read_or_snapshot _ = false

abbrev pub deletion : Item
deletion = record { action = ItemAction.delete; value = none }

unfoldable pub remove_found : Store → Bytes → Option Item → Exec Tx Bool
remove_found s key (some item) tx =
    if is_read_or_snapshot item.action && not (is_some item.value)
    then pure false tx
    else if is_delete item.action
    then pure false tx
    else pure true (record tx { items = insert key deletion tx.items })
remove_found s key none tx =
    if is_some (find key s.entries)
    then pure true (record tx { items = emplace key deletion tx.items })
    else pure false tx

-- remove(const key_t &)
unfoldable pub remove : Utf8 → Glob → Store → Bytes → Exec Tx Bool
unfolding remove_found is_refused
remove u glob s key tx =
    if not (is_valid_key u key)
    then throw invalid_argument tx
    else if tx.read_only
    then throw read_only tx
    else if not (is_open tx.state)
    then throw not_open tx
    else if is_refused glob tx.user crud_delete key
    then throw not_authorized tx
    else remove_found s key (find key tx.items) tx
