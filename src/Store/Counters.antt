-- ===== src/Store/Counters.antt =====
-- The reference counters of the metadata objects under release_meta and retain_meta: src/store.cpp.
use nplex_cpp.Prelude.{
  ℕ, zero, suc, ◌+◌, ◌-◌, ◌^◌, ◌≤◌, ◌<◌, ◌≡◌, refl, subst, ◌∙◌, List, [], ◌∷◌, Option, none, some,
  Bool-cases, Option-cases, inl, inr, true, ◌==◌, ltb, if◌then◌else◌, length, get_elem?, set,
  if-elim, arith,
}
use nplex_cpp.Prelude.Order.{bytes_order}
use nplex_cpp.Types.{Meta}
use nplex_cpp.Store.{Store, inc32, release_at, release_meta, retain_meta}
use nplex_cpp.Store.Holding.{points}

abbrev pub nrefs_at : Option Meta → ℕ
nrefs_at none = 0
nrefs_at (some meta) = meta.nrefs

-- The counter of an object that is not older than the store, which no entry holds otherwise.
abbrev pub owed : ℕ → List Meta → ℕ → ℕ
owed base heap q = if ltb q base then 0 else nrefs_at (get_elem? heap q)

nrefs_at-set :
    (heap : List Meta) (p q : ℕ) (m m' : Meta)
    → get_elem? heap p ≡ some m
    → nrefs_at (get_elem? (set heap p m') q)
      ≡ (if p == q then m'.nrefs else nrefs_at (get_elem? heap q))
nrefs_at-set [] p q m m' h = absurd (cc)
nrefs_at-set (x ∷ xs) zero zero m m' h = refl
nrefs_at-set (x ∷ xs) zero (suc q) m m' h = ground arith
nrefs_at-set (x ∷ xs) (suc p) zero m m' h = ground arith
nrefs_at-set (x ∷ xs) (suc p) (suc q) m m' h = nrefs_at-set xs p q m m' h ∙ ground arith

-- A counter that is written: the difference to what it was.
owed-set :
    (base p q : ℕ) (heap : List Meta) (m m' : Meta)
    → get_elem? heap p ≡ some m
    → owed base (set heap p m') q
      ≡ (if p == q then (if ltb base (suc p) then m'.nrefs else 0) else owed base heap q)
owed-set base p q heap m m' h = rw (nrefs_at-set heap p q m m' h) (ground arith)

owed-found :
    (base p q : ℕ) (heap : List Meta) (o : Option Meta)
    → get_elem? heap p ≡ o
    → (p == q) ≡ true
    → owed base heap q ≡ (if ltb base (suc p) then nrefs_at o else 0)
owed-found base p q heap o h e =
    let x : p ≡ q = ground (arith, e) in
    let y : get_elem? heap q ≡ o = subst (λ i. get_elem? heap i ≡ o) x h in rw y (ground arith)

pub heap-release_meta :
    (p : ℕ) (s : Store) (m : Meta)
    → get_elem? s.heap p ≡ some m
    → (release_meta (some p) s).heap ≡ set s.heap p (record m { nrefs = m.nrefs - 1 })
unfolding release_meta release_at
heap-release_meta p s m h =
    rw (h, release_meta)
      (if-elim (λ (t : Store). t.heap ≡ set s.heap p (record m { nrefs = m.nrefs - 1 }))
        (m.nrefs - 1 == 0) _ _ refl refl)

pub release_meta-none :
    (p : ℕ) (s : Store) → get_elem? s.heap p ≡ none → release_meta (some p) s ≡ s
unfolding release_meta
release_meta-none p s h = rw (h, release_meta) refl

pub owed-release_meta :
    (base : ℕ) (o : Option ℕ) (s : Store) (q : ℕ)
    → owed base (release_meta o s).heap q ≡ owed base s.heap q - points o q
unfolding release_meta
owed-release_meta base none s q = omega arith
owed-release_meta base (some p) s q = elim (Option-cases (get_elem? s.heap p)) [
  | inl e ↦ rw (release_meta-none p s e) (elim (Bool-cases (p == q)) [
    | inl x ↦ rw (x, owed-found base p q s.heap none e x) (ground arith)
    | inr x ↦ rw x (omega arith)
  ])
  | inr (m, e) ↦ rw (heap-release_meta p s m e) (
      rw (owed-set base p q s.heap m (record m { nrefs = m.nrefs - 1 }) e)
        (elim (Bool-cases (p == q)) [
          | inl x ↦ rw (x, owed-found base p q s.heap (some m) e x) (ground arith)
          | inr x ↦ rw x (omega arith)
        ]))
]

inc32-small : (n : ℕ) → n + 1 < 2 ^ 32 → inc32 n ≡ n + 1
inc32-small n h = omega (arith, h)

get_elem?-found :
    (heap : List Meta) (p : ℕ) → p < length heap → (m : Meta) × (get_elem? heap p ≡ some m)
get_elem?-found [] p h = ground arith
get_elem?-found (x ∷ xs) zero h = (x, refl)
get_elem?-found (x ∷ xs) (suc p) h = get_elem?-found xs p (omega arith)

pub heap-retain_meta :
    (p : ℕ) (s : Store) (m : Meta)
    → get_elem? s.heap p ≡ some m
    → (retain_meta (some p) s).heap ≡ set s.heap p (record m { nrefs = inc32 m.nrefs })
unfolding retain_meta
heap-retain_meta p s m h = rw (h, retain_meta) refl

pub owed-retain_meta :
    (base p : ℕ) (s : Store) (q : ℕ)
    → base ≤ p
    → p < length s.heap
    → owed base s.heap p + 1 < 2 ^ 32
    → owed base (retain_meta (some p) s).heap q ≡ owed base s.heap q + points (some p) q
owed-retain_meta base p s q h l r =
    let (m, e) = get_elem?-found s.heap p l in
    let t : ltb base (suc p) ≡ true = ground (arith, h) in
    let n : owed base s.heap p ≡ m.nrefs =
      owed-found base p p s.heap (some m) e (ground arith) ∙ rw t refl in
    let i : inc32 m.nrefs ≡ m.nrefs + 1 = inc32-small m.nrefs (subst (λ k. k + 1 < 2 ^ 32) n r) in
    rw (heap-retain_meta p s m e) (
      rw (owed-set base p q s.heap m (record m { nrefs = inc32 m.nrefs }) e)
        (elim (Bool-cases (p == q)) [
          | inl x ↦ rw (x, owed-found base p q s.heap (some m) e x) (rw (t, i) refl)
          | inr x ↦ rw x (omega arith)
        ]))
