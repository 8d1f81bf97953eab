-- ===== src/Messaging.antt =====
-- src/messaging.cpp: the messages that the client builds.
pub mod Framing
pub mod Frames
pub mod Accepted
use nplex_cpp.Prelude.{ℕ, Bool, List, [], ◌∷◌, Option, none, some}
use nplex_cpp.Prelude.Order.{Bytes}
use nplex_cpp.OrderedMap.{Map}
use nplex_cpp.Types.{Value}
use nplex_cpp.Schema.{
  Request, ping_request, login_request, snapshot_request, updates_request, submit_request,
  sessions_request,
}
use nplex_cpp.Tx.{Tx, Item, ItemAction, Isolation}

abbrev pub create_ping_msg : ℕ → Bytes → Request
create_ping_msg = ping_request

-- SCHEMA3_HASH, as src/buildinfo.hpp has it
abbrev pub schema3_hash : ℕ
schema3_hash = 0xf53b_8870

abbrev pub create_login_msg : ℕ → Bytes → Bytes → Request
create_login_msg cid user password = login_request cid schema3_hash user password

abbrev pub create_snapshot_msg : ℕ → ℕ → Request
create_snapshot_msg = snapshot_request

abbrev pub create_updates_msg : ℕ → ℕ → Request
create_updates_msg = updates_request

abbrev pub create_sessions_msg : ℕ → Bool → Request
create_sessions_msg = sessions_request

-- An UPSERT item always has a value; without one the code would read through a null pointer.
abbrev pub upsert_entry : Bytes → Option Value → List (Bytes × Bytes) → List (Bytes × Bytes)
upsert_entry k none rest = rest
upsert_entry k (some v) rest = (k, v.content) ∷ rest

abbrev pub add_upsert : Bytes → Item → List (Bytes × Bytes) → List (Bytes × Bytes)
add_upsert k item rest = elim item.action [
  | ItemAction.upsert ↦ upsert_entry k item.value rest
  | _ ↦ rest
]

abbrev pub add_delete : Bytes → Item → List Bytes → List Bytes
add_delete k item rest = elim item.action [ ItemAction.delete ↦ k ∷ rest | _ ↦ rest ]

-- The loop over the items, for each of the two lists that it fills.
unfoldable pub upserts_of : Map Bytes Item → List (Bytes × Bytes)
upserts_of [] = []
upserts_of ((k, item) ∷ items) = add_upsert k item (upserts_of items)

unfoldable pub deletes_of : Map Bytes Item → List Bytes
deletes_of [] = []
deletes_of ((k, item) ∷ items) = add_delete k item (deletes_of items)

unfoldable pub ensures_of : Map Bytes (Unit {0}) → List Bytes
ensures_of [] = []
ensures_of ((pattern, _) ∷ es) = pattern ∷ ensures_of es

unfoldable pub create_submit_msg : ℕ → ℕ → Bool → Tx → Request
unfolding upserts_of deletes_of ensures_of
create_submit_msg cid crev force tx = submit_request (record {
  cid = cid;
  crev = elim tx.isolation [ Isolation.serializable ↦ tx.rev_creation | _ ↦ crev ];
  tx_type = tx.tx_type;
  upserts = upserts_of tx.items;
  deletes = deletes_of tx.items;
  ensures = ensures_of tx.ensures;
  force = force;
})
