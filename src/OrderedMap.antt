-- ===== src/OrderedMap.antt =====
-- `std::map`: an association list in the order of the keys, with the operations that the client
-- calls on `m_data`, `m_metas`, `m_users` and `m_items`. A `std::set` is a map to `Unit`.
pub mod Sorted
use Prim.Native.Nat.Ordering.{lt, eq, gt}
use nplex_cpp.Prelude.{◌≡◌, refl, List, [], ◌∷◌, Option, none, some, arith, if◌then◌else◌}
use nplex_cpp.Prelude.Order.{Order, same}

abbrev pub Map {ℓ κ} : Type ℓ → Type κ → Type (ℓ ⊔ κ)
Map K V = List (K × V)

module _ {ℓ κ} {K : Type ℓ} {V : Type κ} ⦃o : Order K⦄ where
  -- m.find(k)
  unfoldable pub find : K → Map K V → Option V
  find k [] = none
  find k ((j, v) ∷ m) = if same k j then some v else find k m

  -- m[k] = v, and m.emplace(k, v) where `k` is absent
  unfoldable pub insert : K → V → Map K V → Map K V
  insert k v [] = (k, v) ∷ []
  insert k v ((j, w) ∷ m) =
      let rest = insert k v m in
      elim (o.cmp k j) [ lt ↦ (k, v) ∷ (j, w) ∷ m | eq ↦ (k, v) ∷ m | gt ↦ (j, w) ∷ rest ]

  -- m.emplace(k, v): a key that is present keeps its value
  unfoldable pub emplace : K → V → Map K V → Map K V
  unfolding find insert
  emplace k v m = elim (find k m) [ none ↦ insert k v m | some _ ↦ m ]

  -- m.erase(k)
  unfoldable pub erase : K → Map K V → Map K V
  erase k [] = []
  erase k ((j, v) ∷ m) = let rest = erase k m in if same k j then rest else (j, v) ∷ rest

  -- m.lower_bound(k): what an iterator that starts there still goes through
  unfoldable pub lower_bound : K → Map K V → Map K V
  lower_bound k [] = []
  lower_bound k ((j, v) ∷ m) =
      let rest = lower_bound k m in elim (o.cmp j k) [ lt ↦ rest | _ ↦ (j, v) ∷ m ]

  pub find-nil : (k : K) → find k [] ≡ none
  unfolding find
  find-nil k = refl

  pub find-insert :
      (k j : K) (v : V) (m : Map K V)
      → find j (insert k v m) ≡ (if same j k then some v else find j m)
  unfolding find insert
  find-insert k j v [] = refl
  find-insert k j v ((i, w) ∷ m) = ground (
    arith,
    find-insert k j v m,
    o.identify k i,
    o.identify j i,
    o.identify j k,
    o.itself k,
    o.itself i,
  )

  pub find-emplace :
      (k j : K) (v : V) (m : Map K V)
      → find k m ≡ none
      → find j (emplace k v m) ≡ (if same j k then some v else find j m)
  unfolding emplace
  find-emplace k j v m h = ground (arith, find-insert k j v m)

  pub find-erase :
      (k j : K) (m : Map K V) → find j (erase k m) ≡ (if same j k then none else find j m)
  unfolding find erase
  find-erase k j [] = ground arith
  find-erase k j ((i, w) ∷ m) = ground (
    arith,
    find-erase k j m,
    o.identify k i,
    o.identify j i,
    o.identify j k,
    o.itself i,
    o.itself k,
  )
