-- ===== src/Store/Ordered.antt =====
-- The three maps of store_t stay in order through an update: src/store.cpp.
use nplex_cpp.Prelude.{
  ℕ, ◌-◌, List, [], ◌∷◌, Option, none, some, inl, inr, ◌==◌, leb, ltb, Bool-cases, Option-cases,
  get_elem?,
}
use nplex_cpp.Prelude.Order.{Bytes, bytes_order, nat_order}
use nplex_cpp.OrderedMap.{Map, find}
use nplex_cpp.OrderedMap.Sorted.{IsSorted, insert-IsSorted, erase-IsSorted}
use nplex_cpp.Result.{follow-state}
use nplex_cpp.Types.{Meta, Value}
use nplex_cpp.Schema.{KeyValue, Update}
use nplex_cpp.Key.{Utf8, c_str, is_valid_key}
use nplex_cpp.Store.{
  Store, count_user, create_meta, release_user, release_at, release_meta, retain_meta,
  register_meta, upsert_found, upsert_entry, upsert_pair, upsert_one, upsert_all, delete_found,
  delete_entry, delete_one, delete_all, install_update, apply_update, or_empty,
}

-- Each map has its keys in order, and so each key once.
pub record IsOrdered (s : Store) : Type 0 where
  pub entries : IsSorted s.entries
  pub metas : IsSorted s.metas
  pub users : IsSorted s.users

count_user-IsSorted :
    (user : Bytes) (users : Map Bytes ℕ) → IsSorted users → IsSorted (count_user user users)
unfolding count_user
count_user-IsSorted user users h = elim (Option-cases (find user users)) [
  | inl e ↦ rw (e, count_user) (insert-IsSorted user _ users h)
  | inr (n, e) ↦ rw (e, count_user) (insert-IsSorted user _ users h)
]

release_user-IsSorted :
    (user : Bytes) (users : Map Bytes ℕ) → IsSorted users → IsSorted (release_user user users)
unfolding release_user
release_user-IsSorted user users h = elim (Option-cases (find user users)) [
  | inl e ↦ rw (e, release_user) h
  | inr (n, e) ↦ elim (Bool-cases (ltb 1 n)) [
    | inl b ↦ rw (e, release_user) (rw b (insert-IsSorted user _ users h))
    | inr b ↦ rw (e, release_user) (rw b (erase-IsSorted user users h))
  ]
]

release_at-IsOrdered : (p : ℕ) (m : Meta) (s : Store) → IsOrdered s → IsOrdered (release_at p m s)
unfolding release_at
release_at-IsOrdered p m s h = elim (Bool-cases (m.nrefs - 1 == 0)) [
  | inl e ↦
      rw (e, release_at)
        (record {
          entries = h.entries;
          metas = erase-IsSorted m.rev s.metas h.metas;
          users = release_user-IsSorted m.user s.users h.users;
        })
  | inr e ↦ rw (e, release_at) (record { entries = h.entries; metas = h.metas; users = h.users })
]

release_meta-IsOrdered : (p : Option ℕ) (s : Store) → IsOrdered s → IsOrdered (release_meta p s)
unfolding release_meta
release_meta-IsOrdered none s h = h
release_meta-IsOrdered (some p) s h = elim (Option-cases (get_elem? s.heap p)) [
  | inl e ↦ rw (e, release_meta) h
  | inr (m, e) ↦ rw (e, release_meta) (release_at-IsOrdered p m s h)
]

retain_meta-IsOrdered : (p : Option ℕ) (s : Store) → IsOrdered s → IsOrdered (retain_meta p s)
unfolding retain_meta
retain_meta-IsOrdered none s h = h
retain_meta-IsOrdered (some p) s h = elim (Option-cases (get_elem? s.heap p)) [
  | inl e ↦ rw (e, retain_meta) h
  | inr (m, e) ↦
      rw (e, retain_meta) (record { entries = h.entries; metas = h.metas; users = h.users })
]

register_meta-IsOrdered : (rev p : ℕ) (s : Store) → IsOrdered s → IsOrdered (register_meta rev p s)
unfolding register_meta
register_meta-IsOrdered rev p s h = elim (Option-cases (get_elem? s.heap p)) [
  | inl e ↦ rw (e, register_meta) h
  | inr (m, e) ↦ elim (Bool-cases (m.nrefs == 0)) [
    | inl z ↦ rw (e, register_meta) (rw z h)
    | inr z ↦
        rw (e, register_meta)
          (rw z (record {
            entries = h.entries;
            metas = insert-IsSorted rev p s.metas h.metas;
            users = h.users;
          }))
  ]
]

module _ (u : Utf8) where
  upsert_found-IsOrdered :
      (key : Bytes) (v : Value) (old : Option Value) (s : Store)
      → IsOrdered s
      → IsOrdered (upsert_found key v old s).1
  unfolding upsert_found
  upsert_found-IsOrdered key v none s h = retain_meta-IsOrdered v.meta _ (record {
    entries = insert-IsSorted key v s.entries h.entries;
    metas = h.metas;
    users = h.users;
  })
  upsert_found-IsOrdered key v (some old) s h =
      let k = release_meta-IsOrdered old.meta s h in
      retain_meta-IsOrdered v.meta _ (record {
        entries = insert-IsSorted key v (release_meta old.meta s).entries k.entries;
        metas = k.metas;
        users = k.users;
      })

  upsert_entry-IsOrdered :
      (key : Bytes) (v : Value) (s : Store) → IsOrdered s → IsOrdered (upsert_entry u key v s).1
  unfolding upsert_entry
  upsert_entry-IsOrdered key v s h = elim (Bool-cases (is_valid_key u key)) [
    | inl e ↦ rw (e, upsert_entry) (upsert_found-IsOrdered key v (find key s.entries) s h)
    | inr e ↦ rw (e, upsert_entry) h
  ]

  upsert_one-IsOrdered :
      (p : ℕ) (kv : Option KeyValue) (s : Store) → IsOrdered s → IsOrdered (upsert_one u p kv s).1
  unfolding upsert_one upsert_pair
  upsert_one-IsOrdered p none s h = h
  upsert_one-IsOrdered p (some kv) s h = pair kv.key kv.value
    where
      pair : (k v : Option Bytes) → IsOrdered (upsert_pair u p k v s).1
      pair (some k) (some v) = upsert_entry-IsOrdered (c_str k) _ s h
      pair (some k) none = h
      pair none v = h

  upsert_all-IsOrdered :
      (p : ℕ) (kvs : List (Option KeyValue)) (s : Store)
      → IsOrdered s
      → IsOrdered (upsert_all u p kvs s).1
  unfolding upsert_all
  upsert_all-IsOrdered p [] s h = h
  upsert_all-IsOrdered p (kv ∷ kvs) s h =
      let k = upsert_one-IsOrdered p kv s h in
      let r = upsert_all-IsOrdered p kvs (upsert_one u p kv s).1 k in
      follow-state IsOrdered (upsert_one u p kv s) _ k
        (λ c. follow-state IsOrdered (upsert_all u p kvs (upsert_one u p kv s).1) _ r (λ _. r))

  delete_found-IsOrdered :
      (key : Bytes) (old : Option Value) (s : Store)
      → IsOrdered s
      → IsOrdered (delete_found key old s).1
  unfolding delete_found
  delete_found-IsOrdered key none s h = h
  delete_found-IsOrdered key (some old) s h =
      let k = release_meta-IsOrdered old.meta s h in
      record {
        entries = erase-IsSorted key (release_meta old.meta s).entries k.entries;
        metas = k.metas;
        users = k.users;
      }

  delete_one-IsOrdered :
      (key : Option Bytes) (s : Store) → IsOrdered s → IsOrdered (delete_one u key s).1
  unfolding delete_one delete_entry
  delete_one-IsOrdered none s h = h
  delete_one-IsOrdered (some key) s h = elim (Bool-cases (is_valid_key u (c_str key))) [
    | inl e ↦ rw e (delete_found-IsOrdered (c_str key) (find (c_str key) s.entries) s h)
    | inr e ↦ rw e h
  ]

  delete_all-IsOrdered :
      (keys : List (Option Bytes)) (s : Store) → IsOrdered s → IsOrdered (delete_all u keys s).1
  unfolding delete_all
  delete_all-IsOrdered [] s h = h
  delete_all-IsOrdered (key ∷ keys) s h =
      let k = delete_one-IsOrdered key s h in
      let r = delete_all-IsOrdered keys (delete_one u key s).1 k in
      follow-state IsOrdered (delete_one u key s) _ k
        (λ c. follow-state IsOrdered (delete_all u keys (delete_one u key s).1) _ r (λ _. r))

  install_update-IsOrdered :
      (upd : Update) (p : ℕ) (s : Store) → IsOrdered s → IsOrdered (install_update u upd p s).1
  unfolding install_update
  install_update-IsOrdered upd p s h =
      let k = upsert_all-IsOrdered p (or_empty upd.upserts) s h in
      let r =
        delete_all-IsOrdered (or_empty upd.deletes) (upsert_all u p (or_empty upd.upserts) s).1 k in
      follow-state IsOrdered (upsert_all u p (or_empty upd.upserts) s) _ k (λ c.
        follow-state IsOrdered
          (delete_all u (or_empty upd.deletes) (upsert_all u p (or_empty upd.upserts) s).1) _ r
          (λ _. register_meta-IsOrdered upd.rev p _ r))

  -- An update leaves the entries, the metadata and the users of the store in the order of their keys,
  -- whether it returns or throws.
  pub apply_update-IsOrdered :
      (upd : Update) (s : Store) → IsOrdered s → IsOrdered (apply_update u upd s).1
  unfolding apply_update create_meta
  apply_update-IsOrdered upd s h = elim (Bool-cases (leb upd.rev s.rev)) [
    | inl e ↦ rw e h
    | inr e ↦ rw e (
        install_update-IsOrdered upd _ _ (record {
          entries = h.entries;
          metas = h.metas;
          users = count_user-IsSorted (c_str upd.user) s.users h.users;
        }))
  ]
