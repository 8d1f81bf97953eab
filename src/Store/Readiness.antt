-- ===== src/Store/Readiness.antt =====
-- The reference counters of the metadata objects through the entries of one update: src/store.cpp.
use nplex_cpp.Prelude.{
  ℕ, suc, ◌+◌, ◌-◌, ◌^◌, ◌≤◌, ◌<◌, ◌≡◌, refl, sym, subst, ap, ◌∙◌, List, [], ◌∷◌, Option, none,
  some, Bool-cases, Option-cases, inl, inr, ◌==◌, length, length-set, get_elem?, arith,
}
use nplex_cpp.Prelude.Order.{Bytes, bytes_order}
use nplex_cpp.OrderedMap.{find, insert, erase}
use nplex_cpp.OrderedMap.Sorted.{IsSorted, insert-IsSorted, erase-IsSorted}
use nplex_cpp.Result.{follow-state}
use nplex_cpp.Types.{Value}
use nplex_cpp.Schema.{KeyValue, Update}
use nplex_cpp.Key.{Utf8, c_str, is_valid_key}
use nplex_cpp.Store.{
  Store, release_at, release_meta, retain_meta, register_meta, upsert_found, upsert_entry,
  upsert_pair, upsert_one, upsert_all, delete_found, delete_entry, delete_one, delete_all,
  install_update, or_empty,
}
use nplex_cpp.Store.Frame.{entries-release_meta, entries-retain_meta}
use nplex_cpp.Store.Holding.{
  points, held, was, held-length, held-insert, held-erase, length-insert, length-erase,
}
use nplex_cpp.Store.Counters.{
  owed, heap-release_meta, release_meta-none, owed-release_meta, owed-retain_meta,
}

-- Each counter is the number of the entries that hold the object, and no entry holds an object that is
-- older than `base`.
abbrev pub Counts : ℕ → Store → Type 0
Counts base s = (q : ℕ) → owed base s.heap q ≡ held q s.entries

-- Ready for `n` more entries that hold `p`.
pub record Ready (base p n : ℕ) (s : Store) : Type 0 where
  pub sorted : IsSorted s.entries
  pub counts : Counts base s
  pub recent : base ≤ p
  pub live : p < length s.heap
  pub room : length s.entries + n < 2 ^ 32

length-release_meta : (o : Option ℕ) (s : Store) → length (release_meta o s).heap ≡ length s.heap
unfolding release_meta release_at
length-release_meta none s = refl
length-release_meta (some p) s = elim (Option-cases (get_elem? s.heap p)) [
  | inl e ↦ ap (λ (t : Store). length t.heap) (release_meta-none p s e)
  | inr (m, e) ↦ ap length (heap-release_meta p s m e) ∙ length-set s.heap p _
]

length-retain_meta : (o : Option ℕ) (s : Store) → length (retain_meta o s).heap ≡ length s.heap
unfolding retain_meta
length-retain_meta none s = refl
length-retain_meta (some p) s = elim (Option-cases (get_elem? s.heap p)) [
  | inl e ↦ rw (e, retain_meta) refl
  | inr (m, e) ↦ rw (e, retain_meta) (length-set s.heap p _)
]

-- A new value under a key, behind the release of the old one.
put-Ready :
    (base p n : ℕ) (key content : Bytes) (old : Option Value) (s s1 : Store)
    → Ready base p (suc n) s
    → find key s.entries ≡ old
    → s1.entries ≡ s.entries
    → length s1.heap ≡ length s.heap
    → ((q : ℕ) → owed base s1.heap q ≡ owed base s.heap q - was old q)
    → Ready base p n (
        retain_meta (some p) (record s1 {
          entries = insert key (record { content = content; meta = some p }) s1.entries;
        }))
put-Ready base p n key content old s s1 h f e l w =
    let v : Value = record { content = content; meta = some p } in
    let s2 : Store = record s1 { entries = insert key v s1.entries } in
    let grown : s2.entries ≡ insert key v s.entries = ap (insert key v) e in
    let kept : (retain_meta (some p) s2).entries ≡ insert key v s.entries =
      entries-retain_meta (some p) s2 ∙ grown in
    let few : owed base s1.heap p + 1 < 2 ^ 32 =
      omega (arith, w p, h.counts p, held-length p s.entries, h.room) in
    record {
      sorted = subst IsSorted (sym kept) (insert-IsSorted key v s.entries h.sorted);
      counts = λ q.
          let i : held q (insert key v s.entries) + was old q
              ≡ held q s.entries + points (some p) q =
            subst
              (λ o.
                held q (insert key v s.entries) + was o q ≡ held q s.entries + points (some p) q)
              f (held-insert q key v s.entries h.sorted) in
          let j : held q (erase key s.entries) + was old q ≡ held q s.entries =
            subst (λ o. held q (erase key s.entries) + was o q ≡ held q s.entries) f
              (held-erase q key s.entries h.sorted) in
          let x = owed-retain_meta base p s2 q h.recent (omega (arith, l, h.live)) few in
          rw kept (x ∙ (omega (arith, w q, h.counts q, i, j)));
      recent = h.recent;
      live = omega (arith, length-retain_meta (some p) s2, l, h.live);
      room = rw kept (omega (arith, length-insert key v s.entries, h.room));
    }

less : (base p n : ℕ) (s : Store) → Ready base p (suc n) s → Ready base p n s
less base p n s h = record {
  sorted = h.sorted;
  counts = h.counts;
  recent = h.recent;
  live = h.live;
  room = omega (arith, h.room);
}

less_all : (base p m n : ℕ) (s : Store) → Ready base p (m + n) s → Ready base p n s
less_all base p m n s h = record {
  sorted = h.sorted;
  counts = h.counts;
  recent = h.recent;
  live = h.live;
  room = omega (arith, h.room);
}

module _ (u : Utf8) (base p : ℕ) where
  upsert_found-Ready :
      (n : ℕ) (key content : Bytes) (old : Option Value) (s : Store)
      → find key s.entries ≡ old
      → Ready base p (suc n) s
      → Ready base p n (upsert_found key (record { content = content; meta = some p }) old s).1
  unfolding upsert_found
  upsert_found-Ready n key content none s f h =
      put-Ready base p n key content none s s h f refl refl (λ q. omega arith)
  upsert_found-Ready n key content (some old) s f h =
      put-Ready base p n key content (some old) s (release_meta old.meta s) h f
        (entries-release_meta old.meta s) (length-release_meta old.meta s)
        (owed-release_meta base old.meta s)

  upsert_one-Ready :
      (n : ℕ) (kv : Option KeyValue) (s : Store)
      → Ready base p (suc n) s
      → Ready base p n (upsert_one u p kv s).1
  unfolding upsert_one upsert_pair upsert_entry
  upsert_one-Ready n none s h = less base p n s h
  upsert_one-Ready n (some kv) s h = pair kv.key kv.value
    where
      pair : (k v : Option Bytes) → Ready base p n (upsert_pair u p k v s).1
      pair (some k) (some v) = elim (Bool-cases (is_valid_key u (c_str k))) [
        | inl e ↦ rw e (upsert_found-Ready n (c_str k) v (find (c_str k) s.entries) s refl h)
        | inr e ↦ rw e (less base p n s h)
      ]
      pair (some k) none = less base p n s h
      pair none v = less base p n s h

  upsert_all-Ready :
      (n : ℕ) (kvs : List (Option KeyValue)) (s : Store)
      → Ready base p (length kvs + n) s
      → Ready base p n (upsert_all u p kvs s).1
  unfolding upsert_all
  upsert_all-Ready n [] s h = less_all base p 0 n s h
  upsert_all-Ready n (kv ∷ kvs) s h =
      let k =
        upsert_one-Ready (length kvs + n) kv s (subst (λ i. Ready base p i s) (omega arith) h) in
      let r = upsert_all-Ready n kvs (upsert_one u p kv s).1 k in
      follow-state (Ready base p n) (upsert_one u p kv s) _ (less_all base p (length kvs) n _ k)
        (λ c.
          follow-state (Ready base p n) (upsert_all u p kvs (upsert_one u p kv s).1) _ r (λ _. r))

  delete_found-Ready :
      (n : ℕ) (key : Bytes) (old : Option Value) (s : Store)
      → find key s.entries ≡ old
      → Ready base p n s
      → Ready base p n (delete_found key old s).1
  unfolding delete_found
  delete_found-Ready n key none s f h = h
  delete_found-Ready n key (some old) s f h =
      let e = entries-release_meta old.meta s in
      record {
        sorted = rw e (erase-IsSorted key s.entries h.sorted);
        counts = λ q.
            let j : held q (erase key s.entries) + points old.meta q ≡ held q s.entries =
              subst (λ o. held q (erase key s.entries) + was o q ≡ held q s.entries) f
                (held-erase q key s.entries h.sorted) in
            rw e (owed-release_meta base old.meta s q ∙ omega (arith, h.counts q, j));
        recent = h.recent;
        live = omega (arith, length-release_meta old.meta s, h.live);
        room = rw e (omega (arith, length-erase key s.entries, h.room));
      }

  delete_one-Ready :
      (n : ℕ) (key : Option Bytes) (s : Store)
      → Ready base p n s
      → Ready base p n (delete_one u key s).1
  unfolding delete_one delete_entry
  delete_one-Ready n none s h = h
  delete_one-Ready n (some key) s h = elim (Bool-cases (is_valid_key u (c_str key))) [
    | inl e ↦ rw e (delete_found-Ready n (c_str key) (find (c_str key) s.entries) s refl h)
    | inr e ↦ rw e h
  ]

  delete_all-Ready :
      (n : ℕ) (keys : List (Option Bytes)) (s : Store)
      → Ready base p n s
      → Ready base p n (delete_all u keys s).1
  unfolding delete_all
  delete_all-Ready n [] s h = h
  delete_all-Ready n (key ∷ keys) s h =
      let k = delete_one-Ready n key s h in
      let r = delete_all-Ready n keys (delete_one u key s).1 k in
      follow-state (Ready base p n) (delete_one u key s) _ k
        (λ c. follow-state (Ready base p n) (delete_all u keys (delete_one u key s).1) _ r (λ _. r))

  register_meta-Ready :
      (n rev : ℕ) (s : Store) → Ready base p n s → Ready base p n (register_meta rev p s)
  unfolding register_meta
  register_meta-Ready n rev s h = elim (Option-cases (get_elem? s.heap p)) [
    | inl e ↦ rw (e, register_meta) h
    | inr (m, e) ↦ elim (Bool-cases (m.nrefs == 0)) [
      | inl z ↦ rw (e, register_meta) (rw z h)
      | inr z ↦
          rw (e, register_meta)
            (rw z (record {
              sorted = h.sorted;
              counts = h.counts;
              recent = h.recent;
              live = h.live;
              room = h.room;
            }))
    ]
  ]

  pub install_update-Ready :
      (n : ℕ) (upd : Update) (s : Store)
      → Ready base p (length (or_empty upd.upserts) + n) s
      → Ready base p n (install_update u upd p s).1
  unfolding install_update
  install_update-Ready n upd s h =
      let k = upsert_all-Ready n (or_empty upd.upserts) s h in
      let s2 = (upsert_all u p (or_empty upd.upserts) s).1 in
      let r = delete_all-Ready n (or_empty upd.deletes) s2 k in
      follow-state (Ready base p n) (upsert_all u p (or_empty upd.upserts) s) _ k (λ c.
        follow-state (Ready base p n) (delete_all u (or_empty upd.deletes) s2) _ r
          (λ _. register_meta-Ready n upd.rev (delete_all u (or_empty upd.deletes) s2).1 r))
