-- ===== src/Store/Counts.antt =====
-- The reference counters of the metadata objects through an update: src/store.cpp.
use nplex_cpp.Prelude.{
  ℕ, zero, suc, ◌+◌, ◌^◌, ◌≤◌, ◌<◌, ◌≡◌, refl, sym, subst, ◌∙◌, List, [], ◌∷◌, ◌++◌, Option, none,
  some, Bool-cases, inl, inr, false, ltb, leb, length, length-append, get_elem?, arith,
}
use nplex_cpp.Prelude.Order.{bytes_order}
use nplex_cpp.OrderedMap.Sorted.{IsSorted}
use nplex_cpp.Result.{follow-state}
use nplex_cpp.Types.{Meta}
use nplex_cpp.Schema.{Update, Snapshot}
use nplex_cpp.Key.{Utf8}
use nplex_cpp.Store.{Store, create_meta, apply_update, load_updates, load, empty_store, or_empty}
use nplex_cpp.Store.Counters.{owed, nrefs_at}
use nplex_cpp.Store.Readiness.{Counts, Ready, install_update-Ready}

-- The counters are right, with room for `n` more entries.
record Kept (base n : ℕ) (s : Store) : Type 0 where
  sorted : IsSorted s.entries
  counts : Counts base s
  older : base ≤ length s.heap
  room : length s.entries + n < 2 ^ 32

owed-last :
    (base : ℕ) (heap : List Meta) (m : Meta) (q : ℕ)
    → m.nrefs ≡ 0
    → owed base (heap ++ m ∷ []) q ≡ owed base heap q
owed-last base heap m q z = rw (last heap q) refl
  where
    last :
        (xs : List Meta) (i : ℕ) → nrefs_at (get_elem? (xs ++ m ∷ []) i) ≡ nrefs_at (get_elem? xs i)
    last [] zero = z
    last [] (suc i) = refl
    last (x ∷ xs) zero = refl
    last (x ∷ xs) (suc i) = last xs i

Ready-Kept : (base p n : ℕ) (s : Store) → Ready base p n s → Kept base n s
Ready-Kept base p n s h = record {
  sorted = h.sorted;
  counts = h.counts;
  older = omega (arith, h.recent, h.live);
  room = h.room;
}

-- The upserts of a snapshot.
abbrev pub upserts : List (Option Update) → ℕ
upserts [] = 0
upserts (none ∷ upds) = upserts upds
upserts (some upd ∷ upds) = length (or_empty upd.upserts) + upserts upds

room_left : {base : ℕ} (n : ℕ) (s : Store) → Kept base n s → Kept base 0 s
room_left n s h = record {
  sorted = h.sorted;
  counts = h.counts;
  older = h.older;
  room = omega (arith, h.room);
}

module _ (u : Utf8) (base : ℕ) where
  apply_update-Kept :
      (n : ℕ) (upd : Update) (s : Store)
      → Kept base (length (or_empty upd.upserts) + n) s
      → Kept base n (apply_update u upd s).1
  unfolding apply_update create_meta
  apply_update-Kept n upd s h = elim (Bool-cases (leb upd.rev s.rev)) [
    | inl e ↦ rw e (record {
      sorted = h.sorted;
      counts = h.counts;
      older = h.older;
      room = omega (arith, h.room);
    })
    | inr e ↦ rw e (
        Ready-Kept base (length s.heap) n _ (
          install_update-Ready u base (length s.heap) n upd _ (record {
            sorted = h.sorted;
            counts = λ q. owed-last base s.heap _ q refl ∙ h.counts q;
            recent = h.older;
            live = subst (λ i. length s.heap < i) (sym (length-append s.heap _)) (omega arith);
            room = h.room;
          })))
  ]

  load_updates-Kept :
      (rev : ℕ) (upds : List (Option Update)) (s : Store)
      → Kept base (upserts upds) s
      → Kept base 0 (load_updates u rev upds s).1
  unfolding load_updates
  load_updates-Kept rev [] s h = h
  load_updates-Kept rev (none ∷ upds) s h = room_left (upserts upds) s h
  load_updates-Kept rev (some upd ∷ upds) s h =
      let k = apply_update-Kept (upserts upds) upd s h in
      let r = load_updates-Kept rev upds (apply_update u upd s).1 k in
      elim (Bool-cases (ltb rev upd.rev)) [
        | inl e ↦ rw e (room_left (length (or_empty upd.upserts) + upserts upds) s h)
        | inr e ↦ rw e (
            follow-state (Kept base 0) (apply_update u upd s) _ (room_left (upserts upds) _ k)
              (λ _. r))
      ]

  -- An update keeps each reference counter equal to the number of the entries that hold the metadata object,
  -- whether it returns or throws, as long as the entries and its upserts are fewer than 2 ^ 32. The objects
  -- below `base` are older than the store and held by no entry.
  pub apply_update-Counts :
      (upd : Update) (s : Store)
      → IsSorted s.entries
      → base ≤ length s.heap
      → length s.entries + length (or_empty upd.upserts) < 2 ^ 32
      → Counts base s
      → Counts base (apply_update u upd s).1
  apply_update-Counts upd s o b r c =
      let k : Kept base 0 (apply_update u upd s).1 =
        apply_update-Kept 0 upd s
          (record { sorted = o; counts = c; older = b; room = omega (arith, r) }) in
      k.counts

owed-old : (heap : List Meta) (q : ℕ) → owed (length heap) heap q ≡ 0
owed-old heap q = elim (Bool-cases (ltb q (length heap))) [
  | inl e ↦ rw e refl
  | inr e ↦ rw (e, beyond heap q e) refl
]
  where
    beyond : (xs : List Meta) (i : ℕ) → ltb i (length xs) ≡ false → get_elem? xs i ≡ none
    beyond [] i h = refl
    beyond (x ∷ xs) zero h = ground arith
    beyond (x ∷ xs) (suc i) h = beyond xs i (ground arith)

-- A loaded store has each counter of its metadata objects equal to the number of the entries that hold the
-- object, and holds none of the objects from before, whether load returns or throws, as long as the
-- upserts of the snapshot are fewer than 2 ^ 32.
pub load-Counts :
    (u : Utf8) (snapshot : Snapshot) (s : Store)
    → upserts (or_empty snapshot.updates) < 2 ^ 32
    → Counts (length s.heap) (load u (some snapshot) s).1
unfolding load
load-Counts u snapshot s r =
    let s0 : Store = record empty_store { heap = s.heap } in
    let k =
      load_updates-Kept u (length s.heap) snapshot.rev (or_empty snapshot.updates) s0 (record {
        sorted = tt;
        counts = owed-old s.heap;
        older = omega arith;
        room = omega (arith, r);
      }) in
    follow-state (Counts (length s.heap))
      (load_updates u snapshot.rev (or_empty snapshot.updates) s0) _ k.counts (λ _. k.counts)
