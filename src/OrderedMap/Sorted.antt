-- ===== src/OrderedMap/Sorted.antt =====
-- The order of `std::map`: the keys of an association list increase, and every operation keeps that.
use Prim.Native.Nat.Ordering.{lt, eq, gt}
use Prim.Native.Nat.{Ordering}
use nplex_cpp.Prelude.{
  ◌≡◌, refl, sym, subst, Bool-cases, inl, inr, [], ◌∷◌, none, some, false, arith,
}
use nplex_cpp.Prelude.Order.{Order, same, same_self}
use nplex_cpp.OrderedMap.{Map, find, insert, emplace, erase}

module _ {ℓ κ} {K : Type ℓ} {V : Type κ} ⦃o : Order K⦄ where
  -- Every key is above `k`.
  abbrev pub Above : K → Map K V → Type 0
  Above k [] = Unit {0}
  Above k ((j, v) ∷ m) = (o.cmp k j ≡ lt) × Above k m

  abbrev pub IsSorted : Map K V → Type 0
  IsSorted [] = Unit {0}
  IsSorted ((k, v) ∷ m) = Above k m × IsSorted m

  pub Above-trans : (k j : K) (m : Map K V) → o.cmp k j ≡ lt → Above j m → Above k m
  Above-trans k j [] h a = tt
  Above-trans k j ((i, v) ∷ m) h a = (o.chain k j i h a.0, Above-trans k j m h a.1)

  -- A key below all is not there.
  pub find-Above : (k : K) (m : Map K V) → Above k m → find k m ≡ none
  unfolding find
  find-Above k [] a = refl
  find-Above k ((j, v) ∷ m) a = ground (arith, a.0, find-Above k m a.1)

  pub find-head : (k : K) (v : V) (m : Map K V) → find k ((k, v) ∷ m) ≡ some v
  unfolding find
  find-head k v m = rw (same_self k) refl

  pub find-tail :
      (j k : K) (v : V) (m : Map K V) → same j k ≡ false → find j ((k, v) ∷ m) ≡ find j m
  unfolding find
  find-tail j k v m h = rw h refl

  insert-Above :
      (b k : K) (v : V) (m : Map K V) → o.cmp b k ≡ lt → Above b m → Above b (insert k v m)
  unfolding insert
  insert-Above b k v [] h a = (h, tt)
  insert-Above b k v ((j, w) ∷ m) h a =
      elim (o.cmp k j)
        as (λ c.
          Above b
            (elim c [ lt ↦ (k, v) ∷ (j, w) ∷ m | eq ↦ (k, v) ∷ m | gt ↦ (j, w) ∷ insert k v m ])) [
              | lt ↦ (h, a)
              | eq ↦ (h, a.1)
              | gt ↦ (a.0, insert-Above b k v m h a.1)
            ]

  pub insert-IsSorted : (k : K) (v : V) (m : Map K V) → IsSorted m → IsSorted (insert k v m)
  unfolding insert
  insert-IsSorted k v [] h = (tt, tt)
  insert-IsSorted k v ((j, w) ∷ m) h = go (insert-IsSorted k v m h.1) (o.cmp k j) refl
    where
      go :
          IsSorted (insert k v m)
          → (c : Ordering) → o.cmp k j ≡ c
          → IsSorted
              (elim c [ lt ↦ (k, v) ∷ (j, w) ∷ m | eq ↦ (k, v) ∷ m | gt ↦ (j, w) ∷ insert k v m ])
      go ih lt e = ((e, Above-trans k j m e h.0), (h.0, h.1))
      go ih eq e = (subst (λ i. Above i m) (sym (o.identify k j e)) h.0, h.1)
      go ih gt e = (insert-Above j k v m (o.below k j e) h.0, ih)

  pub emplace-IsSorted : (k : K) (v : V) (m : Map K V) → IsSorted m → IsSorted (emplace k v m)
  unfolding emplace
  emplace-IsSorted k v m h =
      elim (find k m) as (λ c. IsSorted (elim c [ none ↦ insert k v m | some _ ↦ m ])) [
        | none ↦ insert-IsSorted k v m h
        | some _ ↦ h
      ]

  erase-Above : (b k : K) (m : Map K V) → Above b m → Above b (erase k m)
  unfolding erase
  erase-Above b k [] a = tt
  erase-Above b k ((j, v) ∷ m) a = elim (Bool-cases (same k j)) [
    | inl e ↦ rw e (erase-Above b k m a.1)
    | inr e ↦ rw e (a.0, erase-Above b k m a.1)
  ]

  pub erase-IsSorted : (k : K) (m : Map K V) → IsSorted m → IsSorted (erase k m)
  unfolding erase
  erase-IsSorted k [] h = tt
  erase-IsSorted k ((j, v) ∷ m) h = elim (Bool-cases (same k j)) [
    | inl e ↦ rw e (erase-IsSorted k m h.1)
    | inr e ↦ rw e (erase-Above j k m h.0, erase-IsSorted k m h.1)
  ]
