-- ===== src/Store/Holding.antt =====
-- How many entries of a store hold a metadata object: the count that `nrefs` of src/store.cpp keeps.
use Prim.Native.Nat.Ordering.{lt, eq, gt}
use Prim.Native.Nat.{Ordering}
use nplex_cpp.Prelude.{
  ℕ, suc, ◌+◌, ◌≤◌, ◌≡◌, refl, sym, subst, [], ◌∷◌, Option, none, some, inl, inr, true, ◌==◌,
  if◌then◌else◌, length, arith,
}
use nplex_cpp.Prelude.Order.{Bytes, bytes_order, same, same-cases}
use nplex_cpp.OrderedMap.{Map, find, insert, erase, find-nil}
use nplex_cpp.OrderedMap.Sorted.{Above, IsSorted, Above-trans, find-Above, find-tail}
use nplex_cpp.Types.{Value}

abbrev pub points : Option ℕ → ℕ → ℕ
points none q = 0
points (some p) q = if p == q then 1 else 0

abbrev pub held : ℕ → Map Bytes Value → ℕ
held q [] = 0
held q ((k, v) ∷ m) = points v.meta q + held q m

abbrev pub was : Option Value → ℕ → ℕ
was none q = 0
was (some v) q = points v.meta q

points-le : (o : Option ℕ) (q : ℕ) → points o q ≤ 1
points-le none q = omega arith
points-le (some p) q = ground arith

pub held-length : (q : ℕ) (m : Map Bytes Value) → held q m ≤ length m
held-length q [] = omega arith
held-length q ((k, v) ∷ m) = omega (arith, held-length q m, points-le v.meta q)

found :
    (k j : Bytes) (w : Value) (m : Map Bytes Value) → same k j ≡ true → find k ((j, w) ∷ m) ≡ some w
unfolding find
found k j w m e = rw e refl

pub held-insert :
    (q : ℕ) (k : Bytes) (v : Value) (m : Map Bytes Value)
    → IsSorted m
    → held q (insert k v m) + was (find k m) q ≡ held q m + points v.meta q
unfolding insert
held-insert q k v [] h = rw (find-nil k) (omega arith)
held-insert q k v ((j, w) ∷ m) h = go (held-insert q k v m h.1) (bytes_order.cmp k j) refl
  where
    go :
        held q (insert k v m) + was (find k m) q ≡ held q m + points v.meta q
        → (c : Ordering) → bytes_order.cmp k j ≡ c
        → held q
              (elim c [ lt ↦ (k, v) ∷ (j, w) ∷ m | eq ↦ (k, v) ∷ m | gt ↦ (j, w) ∷ insert k v m ])
            + was (find k ((j, w) ∷ m)) q
          ≡ held q ((j, w) ∷ m) + points v.meta q
    go ih lt e = rw (find-Above k ((j, w) ∷ m) (e, Above-trans k j m e h.0)) (omega arith)
    go ih eq e = rw (found k j w m (rw (e, same) refl)) (omega arith)
    go ih gt e = rw (find-tail k j w m (rw (e, same) refl)) (omega (arith, ih))

pub held-erase :
    (q : ℕ) (k : Bytes) (m : Map Bytes Value)
    → IsSorted m
    → held q (erase k m) + was (find k m) q ≡ held q m
unfolding erase
held-erase q k [] h = rw (find-nil k) refl
held-erase q k ((j, w) ∷ m) h = elim (same-cases k j) [
  | inl (e, x) ↦
      let a : find k m ≡ none = find-Above k m (subst (λ i. Above i m) (sym x) h.0) in
      let b : held q (erase k m) + was none q ≡ held q m =
        subst (λ o. held q (erase k m) + was o q ≡ held q m) a (held-erase q k m h.1) in
      rw (e, found k j w m e) (omega (arith, b))
  | inr e ↦ rw (e, find-tail k j w m e) (omega (arith, held-erase q k m h.1))
]

pub length-insert :
    (k : Bytes) (v : Value) (m : Map Bytes Value) → length (insert k v m) ≤ suc (length m)
unfolding insert
length-insert k v [] = omega arith
length-insert k v ((j, w) ∷ m) = ground (arith, length-insert k v m)

pub length-erase : (k : Bytes) (m : Map Bytes Value) → length (erase k m) ≤ length m
unfolding erase
length-erase k [] = omega arith
length-erase k ((j, w) ∷ m) = ground (arith, length-erase k m)
