-- ===== src/Prelude/Order.antt =====
-- `std::map` and `std::set` take a comparator: an interface with the laws of a strict total order.
-- Its instances are the revisions, and byte strings under the order of `std::string_view::compare`,
-- which `gto::cstring_compare` calls.
use mathlib.Core.Bool.{Bool, true, false}
use mathlib.Core.List.{List, [], ◌∷◌}
use mathlib.Core.Logic.{◌⊎◌}
use mathlib.Core.Path.{◌≡◌, refl}
use native.Mathlib.Omega.{arith}
use Prim.Native.Nat.Ordering.{gt, eq, lt}
use Prim.Native.Nat.{Ordering, compare, ℕ}

pub record Order {ℓ} (K : Type ℓ) : Type ℓ where
  pub cmp : K → K → Ordering
  pub itself : (k : K) → cmp k k ≡ eq
  pub chain : (x y z : K) → cmp x y ≡ lt → cmp y z ≡ lt → cmp x z ≡ lt
  pub above : (x y : K) → cmp x y ≡ lt → cmp y x ≡ gt
  pub below : (x y : K) → cmp x y ≡ gt → cmp y x ≡ lt
  pub identify : (x y : K) → cmp x y ≡ eq → x ≡ y

abbrev pub same {ℓ} : {K : Type ℓ} ⦃o : Order K⦄ → K → K → Bool
same ⦃o⦄ a b = elim (o.cmp a b) [ eq ↦ true | _ ↦ false ]

module _ {ℓ} {K : Type ℓ} ⦃o : Order K⦄ where
  pub same_self : (a : K) → same a a ≡ true
  same_self a = ground (arith, o.itself a)

  -- To split on whether two keys are one, with the test and the equation.
  pub same-cases : (a b : K) → ((same a b ≡ true) × (a ≡ b)) ⊎ (same a b ≡ false)
  same-cases a b = ground (arith, o.identify a b)

pub nat_self : (a : ℕ) → compare a a ≡ eq
nat_self a = ground arith

pub nat_eq : (a b : ℕ) → compare a b ≡ eq → a ≡ b
nat_eq a b h = ground arith

pub nat_gt : (a b : ℕ) → compare a b ≡ gt → compare b a ≡ lt
nat_gt a b h = ground arith

pub nat_lt : (a b : ℕ) → compare a b ≡ lt → compare b a ≡ gt
nat_lt a b h = ground arith

pub nat_trans : (a b c : ℕ) → compare a b ≡ lt → compare b c ≡ lt → compare a c ≡ lt
nat_trans a b c p q = ground arith

instance abbrev pub nat_order : Order ℕ
nat_order = record {
  cmp = compare;
  itself = nat_self;
  chain = nat_trans;
  above = nat_lt;
  below = nat_gt;
  identify = nat_eq;
}

abbrev pub Bytes : Type 0
Bytes = List ℕ

unfoldable pub compare_bytes : Bytes → Bytes → Ordering
compare_bytes [] [] = eq
compare_bytes [] (b ∷ bs) = lt
compare_bytes (a ∷ as') [] = gt
compare_bytes (a ∷ as') (b ∷ bs) =
    let rest = compare_bytes as' bs in elim (compare a b) [ lt ↦ lt | eq ↦ rest | gt ↦ gt ]

pub bytes_self : (a : Bytes) → compare_bytes a a ≡ eq
unfolding compare_bytes
bytes_self [] = refl
bytes_self (a ∷ as') = ground (arith, bytes_self as')

pub bytes_eq : (a b : Bytes) → compare_bytes a b ≡ eq → a ≡ b
unfolding compare_bytes
bytes_eq [] [] h = refl
bytes_eq [] (b ∷ bs) h = cc
bytes_eq (a ∷ as') [] h = cc
bytes_eq (a ∷ as') (b ∷ bs) h = ground (arith, bytes_eq as' bs)

pub bytes_gt : (a b : Bytes) → compare_bytes a b ≡ gt → compare_bytes b a ≡ lt
unfolding compare_bytes
bytes_gt [] [] h = cc
bytes_gt [] (b ∷ bs) h = cc
bytes_gt (a ∷ as') [] h = refl
bytes_gt (a ∷ as') (b ∷ bs) h = ground (arith, bytes_gt as' bs)

pub bytes_lt : (a b : Bytes) → compare_bytes a b ≡ lt → compare_bytes b a ≡ gt
unfolding compare_bytes
bytes_lt [] [] h = cc
bytes_lt [] (b ∷ bs) h = refl
bytes_lt (a ∷ as') [] h = cc
bytes_lt (a ∷ as') (b ∷ bs) h = ground (arith, bytes_lt as' bs)

pub bytes_trans :
    (a b c : Bytes) → compare_bytes a b ≡ lt → compare_bytes b c ≡ lt → compare_bytes a c ≡ lt
unfolding compare_bytes
bytes_trans [] [] c p q = cc
bytes_trans [] (b ∷ bs) [] p q = cc
bytes_trans [] (b ∷ bs) (c ∷ cs) p q = refl
bytes_trans (a ∷ as') [] c p q = cc
bytes_trans (a ∷ as') (b ∷ bs) [] p q = cc
bytes_trans (a ∷ as') (b ∷ bs) (c ∷ cs) p q = ground (arith, bytes_trans as' bs cs)

instance abbrev pub bytes_order : Order Bytes
bytes_order = record {
  cmp = compare_bytes;
  itself = bytes_self;
  chain = bytes_trans;
  above = bytes_lt;
  below = bytes_gt;
  identify = bytes_eq;
}
