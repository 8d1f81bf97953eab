-- ===== src/Store/Frame.antt =====
-- What the bookkeeping of metadata and users leaves alone, and what no loop of `update` changes.
use nplex_cpp.Prelude.{
  ℕ, ◌-◌, ◌≡◌, refl, ◌∙◌, List, [], ◌∷◌, Option, none, some, inl, inr, ◌==◌, Bool-cases,
  Option-cases, get_elem?,
}
use nplex_cpp.Prelude.Order.{Bytes, bytes_order}
use nplex_cpp.OrderedMap.{find}
use nplex_cpp.Result.{Result, Exec, follow, pure, follow-state}
use nplex_cpp.Types.{Meta, Value, Change}
use nplex_cpp.Schema.{KeyValue}
use nplex_cpp.Key.{Utf8, c_str, is_valid_key}
use nplex_cpp.Store.{
  Store, release_at, release_meta, retain_meta, register_meta, upsert_found, upsert_entry,
  upsert_pair, upsert_one, upsert_all, delete_found, delete_entry, delete_one, delete_all, collect,
}

-- The revision and the content are as they were.
pub record SameData (s t : Store) : Type 0 where
  pub rev : t.rev ≡ s.rev
  pub entries : t.entries ≡ s.entries

pub release_at-SameData : (p : ℕ) (m : Meta) (s : Store) → SameData s (release_at p m s)
unfolding release_at
release_at-SameData p m s = elim (Bool-cases (m.nrefs - 1 == 0)) [
  | inl e ↦ rw (e, release_at) (record { rev = refl; entries = refl })
  | inr e ↦ rw (e, release_at) (record { rev = refl; entries = refl })
]

pub release_meta-SameData : (p : Option ℕ) (s : Store) → SameData s (release_meta p s)
unfolding release_meta
release_meta-SameData none s = record { rev = refl; entries = refl }
release_meta-SameData (some p) s = elim (Option-cases (get_elem? s.heap p)) [
  | inl e ↦ rw (e, release_meta) (record { rev = refl; entries = refl })
  | inr (m, e) ↦ rw (e, release_meta) (release_at-SameData p m s)
]

pub retain_meta-SameData : (p : Option ℕ) (s : Store) → SameData s (retain_meta p s)
unfolding retain_meta
retain_meta-SameData none s = record { rev = refl; entries = refl }
retain_meta-SameData (some p) s = elim (Option-cases (get_elem? s.heap p)) [
  | inl e ↦ rw (e, retain_meta) (record { rev = refl; entries = refl })
  | inr (m, e) ↦ rw (e, retain_meta) (record { rev = refl; entries = refl })
]

pub register_meta-SameData : (rev p : ℕ) (s : Store) → SameData s (register_meta rev p s)
unfolding register_meta
register_meta-SameData rev p s = elim (Option-cases (get_elem? s.heap p)) [
  | inl e ↦ rw (e, register_meta) (record { rev = refl; entries = refl })
  | inr (m, e) ↦ elim (Bool-cases (m.nrefs == 0)) [
    | inl z ↦ rw (e, register_meta) (rw z (record { rev = refl; entries = refl }))
    | inr z ↦ rw (e, register_meta) (rw z (record { rev = refl; entries = refl }))
  ]
]

round_rev :
    (s : Store) (r : Result Change × Store) (loop : Exec Store (List Change))
    → r.1.rev ≡ s.rev
    → (loop r.1).1.rev ≡ r.1.rev
    → (follow r (λ c s1. follow (loop s1) (λ ds. pure (collect c c.key ds)))).1.rev ≡ s.rev
round_rev s r loop e1 e2 =
    follow-state (λ t. t.rev ≡ s.rev) r (λ c s1. follow (loop s1) (λ ds. pure (collect c c.key ds)))
      e1
      λ c.
        follow-state (λ t. t.rev ≡ s.rev) (loop r.1) (λ ds. pure (collect c c.key ds)) (e2 ∙ e1)
          λ ds. e2 ∙ e1

-- The loops do not touch the revision, whether they return or throw.
module _ (u : Utf8) where
  rev-upsert_found :
      (key : Bytes) (v : Value) (old : Option Value) (s : Store)
      → (upsert_found key v old s).1.rev ≡ s.rev
  unfolding upsert_found
  rev-upsert_found key v none s = (retain_meta-SameData v.meta _).rev
  rev-upsert_found key v (some old) s =
      (retain_meta-SameData v.meta _).rev ∙ (release_meta-SameData old.meta s).rev

  rev-upsert_entry : (key : Bytes) (v : Value) (s : Store) → (upsert_entry u key v s).1.rev ≡ s.rev
  unfolding upsert_entry
  rev-upsert_entry key v s = elim (Bool-cases (is_valid_key u key)) [
    | inl e ↦ rw (e, upsert_entry) (rev-upsert_found key v (find key s.entries) s)
    | inr e ↦ rw (e, upsert_entry)
  ]

  pub rev-upsert_one :
      (p : ℕ) (kv : Option KeyValue) (s : Store) → (upsert_one u p kv s).1.rev ≡ s.rev
  unfolding upsert_one upsert_pair
  rev-upsert_one p none s = refl
  rev-upsert_one p (some kv) s = pair kv.key kv.value
    where
      pair : (k v : Option Bytes) → (upsert_pair u p k v s).1.rev ≡ s.rev
      pair (some k) (some v) = rev-upsert_entry (c_str k) _ s
      pair (some k) none = refl
      pair none v = refl

  pub rev-upsert_all :
      (p : ℕ) (kvs : List (Option KeyValue)) (s : Store) → (upsert_all u p kvs s).1.rev ≡ s.rev
  unfolding upsert_all
  rev-upsert_all p [] s = refl
  rev-upsert_all p (kv ∷ kvs) s =
      round_rev s (upsert_one u p kv s) (upsert_all u p kvs) (rev-upsert_one p kv s)
        (rev-upsert_all p kvs (upsert_one u p kv s).1)

  rev-delete_found :
      (key : Bytes) (old : Option Value) (s : Store) → (delete_found key old s).1.rev ≡ s.rev
  unfolding delete_found
  rev-delete_found key none s = refl
  rev-delete_found key (some old) s = (release_meta-SameData old.meta s).rev

  rev-delete_entry : (key : Bytes) (s : Store) → (delete_entry u key s).1.rev ≡ s.rev
  unfolding delete_entry
  rev-delete_entry key s = elim (Bool-cases (is_valid_key u key)) [
    | inl e ↦ rw (e, delete_entry) (rev-delete_found key (find key s.entries) s)
    | inr e ↦ rw (e, delete_entry)
  ]

  pub rev-delete_one : (key : Option Bytes) (s : Store) → (delete_one u key s).1.rev ≡ s.rev
  unfolding delete_one
  rev-delete_one none s = refl
  rev-delete_one (some key) s = rev-delete_entry (c_str key) s

  pub rev-delete_all :
      (keys : List (Option Bytes)) (s : Store) → (delete_all u keys s).1.rev ≡ s.rev
  unfolding delete_all
  rev-delete_all [] s = refl
  rev-delete_all (key ∷ keys) s =
      round_rev s (delete_one u key s) (delete_all u keys) (rev-delete_one key s)
        (rev-delete_all keys (delete_one u key s).1)

pub entries-release_meta : (p : Option ℕ) (s : Store) → (release_meta p s).entries ≡ s.entries
entries-release_meta p s = (release_meta-SameData p s).entries

pub entries-retain_meta : (p : Option ℕ) (s : Store) → (retain_meta p s).entries ≡ s.entries
entries-retain_meta p s = (retain_meta-SameData p s).entries

pub entries-register_meta : (rev p : ℕ) (s : Store) → (register_meta rev p s).entries ≡ s.entries
entries-register_meta rev p s = (register_meta-SameData rev p s).entries
