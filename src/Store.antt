-- ===== src/Store.antt =====
-- src/store.hpp and src/store.cpp: the client's copy of the database. `shared_ptr<meta_t>` is an
-- index into `heap`, which holds every metadata object ever made: values, `m_metas` and
-- transactions share it, and the counters are written through it. The mutex is not modelled: a
-- method runs alone.
pub mod Changes
pub mod Frame
pub mod Holding
pub mod Counters
pub mod Readiness
pub mod Counts
pub mod Ordered
pub mod Content
pub mod Abstract
pub mod Replays
pub mod Loading
use nplex_cpp.Prelude.{
  ℕ, ◌+◌, ◌-◌, ◌%◌, ◌^◌, List, [], ◌∷◌, ◌++◌, Option, none, some, ltb, leb, ◌==◌, if◌then◌else◌,
  length, get_elem?, set,
}
use nplex_cpp.Prelude.Order.{Bytes, bytes_order, nat_order}
use nplex_cpp.OrderedMap.{Map, find, insert, erase}
use nplex_cpp.Result.{
  invalid_key, old_update, malformed_update, bad_snapshot, Exec, pure, throw, follow,
}
use nplex_cpp.Types.{Meta, Value, ChangeAction, Change}
use nplex_cpp.Schema.{KeyValue, Update, Snapshot}
use nplex_cpp.Key.{Utf8, c_str, is_valid_key}

pub record Store : Type 0 where
  pub rev : ℕ
  pub entries : Map Bytes Value
  pub metas : Map ℕ ℕ
  pub users : Map Bytes ℕ
  pub heap : List Meta

abbrev pub or_empty : {A : Type 0} → Option (List A) → List A
or_empty none = []
or_empty (some xs) = xs

abbrev pub empty_store : Store
empty_store = record { rev = 0; entries = []; metas = []; users = []; heap = [] }

-- nrefs++ and user_it->second++ on uint32_t
abbrev pub inc32 : ℕ → ℕ
inc32 n = (n + 1) % 2 ^ 32

unfoldable pub count_user : Bytes → Map Bytes ℕ → Map Bytes ℕ
count_user user users = elim (find user users) [
  | none ↦ insert user 1 users
  | some n ↦ insert user (inc32 n) users
]

unfoldable pub create_meta : Update → Exec Store ℕ
create_meta upd s =
    let user = c_str upd.user in
    let meta : Meta = record {
      rev = upd.rev;
      user = user;
      timestamp = upd.timestamp;
      tx_type = upd.tx_type;
      nrefs = 0;
    } in
    pure (length s.heap) (record s { users = count_user user s.users; heap = s.heap ++ meta ∷ [] })

unfoldable pub release_user : Bytes → Map Bytes ℕ → Map Bytes ℕ
release_user user users = elim (find user users) [
  | none ↦ users
  | some n ↦ if ltb 1 n then insert user (n - 1) users else erase user users
]

-- `if (meta->nrefs > 0) meta->nrefs--` is the subtraction that stops at 0
unfoldable pub release_at : ℕ → Meta → Store → Store
release_at p meta s =
    let left = meta.nrefs - 1 in
    let heap = set s.heap p (record meta { nrefs = left }) in
    if left == 0
    then record s {
      heap = heap;
      users = release_user meta.user s.users;
      metas = erase meta.rev s.metas;
    }
    else record s { heap = heap }

unfoldable pub release_meta : Option ℕ → Store → Store
release_meta none s = s
release_meta (some p) s = elim (get_elem? s.heap p) [ none ↦ s | some meta ↦ release_at p meta s ]

-- value->m_meta->nrefs++
unfoldable pub retain_meta : Option ℕ → Store → Store
retain_meta none s = s
retain_meta (some p) s = elim (get_elem? s.heap p) [
  | none ↦ s
  | some meta ↦ record s { heap = set s.heap p (record meta { nrefs = inc32 meta.nrefs }) }
]

abbrev pub created : Bytes → Value → Change
created key value = record {
  action = ChangeAction.create;
  key = key;
  new_value = some value;
  old_value = none;
}

abbrev pub updated : Bytes → Value → Value → Change
updated key value old = record {
  action = ChangeAction.update;
  key = key;
  new_value = some value;
  old_value = some old;
}

abbrev pub deleted : Bytes → Option Value → Change
deleted key old = record {
  action = ChangeAction.delete;
  key = key;
  new_value = none;
  old_value = old;
}

-- The branch of `upsert_entry` for the value that `m_data.find(key)` gives.
unfoldable pub upsert_found : Bytes → Value → Option Value → Exec Store Change
upsert_found key value (some old) s =
    let s' = release_meta old.meta s in
    pure (updated key value old)
      (retain_meta value.meta (record s' { entries = insert key value s'.entries }))
upsert_found key value none s =
    pure (created key value)
      (retain_meta value.meta (record s { entries = insert key value s.entries }))

unfoldable pub upsert_entry : Utf8 → Bytes → Value → Exec Store Change
upsert_entry u key value s =
    if is_valid_key u key
    then upsert_found key value (find key s.entries) s
    else throw invalid_key s

unfoldable pub delete_found : Bytes → Option Value → Exec Store Change
delete_found key (some old) s =
    let s' = release_meta old.meta s in
    pure (deleted key (some old)) (record s' { entries = erase key s'.entries })
delete_found key none s = pure (deleted [] none) s

unfoldable pub delete_entry : Utf8 → Bytes → Exec Store Change
delete_entry u key s =
    if is_valid_key u key then delete_found key (find key s.entries) s else throw invalid_key s

-- if (!change.key.empty()) changes.push_back(change)
abbrev pub collect : Change → Bytes → List Change → List Change
collect c [] cs = cs
collect c (k ∷ ks) cs = c ∷ cs

-- One round of the loop over the upserts.
unfoldable pub upsert_pair : Utf8 → ℕ → Option Bytes → Option Bytes → Exec Store Change
upsert_pair u p (some key) (some value) s =
    upsert_entry u (c_str key) (record { content = value; meta = some p }) s
upsert_pair u p _ _ s = throw malformed_update s

unfoldable pub upsert_one : Utf8 → ℕ → Option KeyValue → Exec Store Change
upsert_one u p none s = throw malformed_update s
upsert_one u p (some kv) s = upsert_pair u p kv.key kv.value s

unfoldable pub upsert_all : Utf8 → ℕ → List (Option KeyValue) → Exec Store (List Change)
upsert_all u p [] s = pure [] s
upsert_all u p (kv ∷ kvs) s =
    follow (upsert_one u p kv s)
      λ c s1. follow (upsert_all u p kvs s1) λ cs. pure (collect c c.key cs)

unfoldable pub delete_one : Utf8 → Option Bytes → Exec Store Change
delete_one u none s = throw malformed_update s
delete_one u (some key) s = delete_entry u (c_str key) s

unfoldable pub delete_all : Utf8 → List (Option Bytes) → Exec Store (List Change)
delete_all u [] s = pure [] s
delete_all u (key ∷ keys) s =
    follow (delete_one u key s)
      λ c s1. follow (delete_all u keys s1) λ cs. pure (collect c c.key cs)

-- if (meta->nrefs) m_metas[rev] = meta
unfoldable pub register_meta : ℕ → ℕ → Store → Store
register_meta rev p s = elim (get_elem? s.heap p) [
  | none ↦ s
  | some meta ↦ if meta.nrefs == 0 then s else record s { metas = insert rev p s.metas }
]

-- The part of `update_internal` behind the check of the revision.
unfoldable pub install_update : Utf8 → Update → ℕ → Exec Store (List Change × ℕ)
install_update u upd p s = follow (upsert_all u p (or_empty upd.upserts) s) λ cs s2.
    follow (delete_all u (or_empty upd.deletes) s2)
      λ ds s3. pure (cs ++ ds, p) (register_meta upd.rev p s3)

unfoldable pub apply_update : Utf8 → Update → Exec Store (List Change × ℕ)
apply_update u upd s =
    if leb upd.rev s.rev
    then throw old_update s
    else follow (create_meta upd s) λ p s1. install_update u upd p (record s1 { rev = upd.rev })

-- `update` and `update_internal`: a null message gives no changes and no metadata
unfoldable pub update : Utf8 → Option Update → Exec Store (List Change × Option ℕ)
update u none s = pure ([], none) s
update u (some upd) s = follow (apply_update u upd s) λ r. pure (r.0, some r.1)

unfoldable pub load_updates : Utf8 → ℕ → List (Option Update) → Exec Store (Unit {0})
load_updates u rev [] s = pure tt s
load_updates u rev (none ∷ upds) s = throw bad_snapshot s
load_updates u rev (some upd ∷ upds) s =
    if ltb rev upd.rev
    then throw bad_snapshot s
    else follow (apply_update u upd s) λ _. load_updates u rev upds

-- The heap stays: transactions may hold values of the content that is dropped.
unfoldable pub load : Utf8 → Option Snapshot → Exec Store (Unit {0})
load u none s = pure tt (record empty_store { heap = s.heap })
load u (some snapshot) s =
    follow
      (load_updates u snapshot.rev (or_empty snapshot.updates)
        (record empty_store { heap = s.heap }))
      λ _ s'. pure tt (record s' { rev = snapshot.rev })
