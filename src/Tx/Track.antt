-- ===== src/Tx/Track.antt =====
-- src/transaction_impl.cpp, update, update_default and update_serializable: how an open transaction
-- follows a commit. The changes are those that the store's `update` returns.
use nplex_cpp.Prelude.{
  Bool, true, false, ◌||◌, List, [], ◌∷◌, Option, none, some, is_some, if◌then◌else◌,
}
use nplex_cpp.Prelude.Order.{Bytes, bytes_order}
use nplex_cpp.OrderedMap.{Map, find, emplace}
use nplex_cpp.Types.{Value, Change, ChangeAction}
use nplex_cpp.User.{Glob}
use nplex_cpp.Tx.{Tx, Item, ItemAction, Isolation, is_open}

-- the loop of update_default, which stops at the first key that the transaction holds
unfoldable pub any_held : Tx → List Change → Bool
any_held tx [] = false
any_held tx (c ∷ cs) = is_some (find c.key tx.items) || any_held tx cs

unfoldable pub update_default : List Change → Tx → Tx
unfolding any_held
update_default cs tx =
    if tx.dirty then tx else if any_held tx cs then record tx { dirty = true } else tx

-- the value that the key had before the change
abbrev pub value_before : Change → Option Value
value_before c = elim c.action [ ChangeAction.create ↦ none | _ ↦ c.old_value ]

unfoldable pub track_item : Change → Option Item → Tx → Tx
track_item c none tx = record tx {
  items = emplace c.key (record { action = ItemAction.snapshot; value = value_before c }) tx.items;
}
track_item c (some _) tx = record tx { dirty = true }

-- one round of update_serializable
unfoldable pub track_change : Change → Tx → Tx
unfolding track_item
track_change c tx = track_item c (find c.key tx.items) tx

unfoldable pub update_serializable : List Change → Tx → Tx
unfolding track_change
update_serializable [] tx = tx
update_serializable (c ∷ cs) tx = update_serializable cs (track_change c tx)

-- the switch on the isolation level
unfoldable pub update_by : Isolation → List Change → Tx → Tx
unfolding update_default update_serializable
update_by Isolation.serializable cs tx = update_serializable cs tx
update_by _ cs tx = update_default cs tx

unfoldable pub any_ensured : Glob → Bytes → Map Bytes (Unit {0}) → Bool
any_ensured glob key [] = false
any_ensured glob key ((pattern, _) ∷ es) = glob key pattern || any_ensured glob key es

-- "Checking validations": a change of a key that an ensure matches
unfoldable pub breaks_ensure : Glob → Map Bytes (Unit {0}) → List Change → Bool
unfolding any_ensured
breaks_ensure glob es [] = false
breaks_ensure glob es (c ∷ cs) = any_ensured glob c.key es || breaks_ensure glob es cs

unfoldable pub check_ensures : Glob → List Change → Tx → Tx
unfolding breaks_ensure
check_ensures glob cs tx =
    if tx.dirty
    then tx
    else if breaks_ensure glob tx.ensures cs
    then record tx { dirty = true }
    else tx

unfoldable pub update : Glob → List Change → Tx → Tx
unfolding update_by check_ensures
update glob cs tx =
    if is_open tx.state then check_ensures glob cs (update_by tx.isolation cs tx) else tx
