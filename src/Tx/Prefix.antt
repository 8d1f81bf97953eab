-- ===== src/Tx/Prefix.antt =====
-- Why for_each_internal of src/transaction_impl.cpp may start at the prefix of a pattern and stop at the
-- first key without it: in a sorted map the keys with a prefix stand together.
use Prim.Native.Nat.{Ordering}
use Prim.Native.Nat.Ordering.{lt, eq, gt}
use nplex_cpp.Prelude.{
  ◌≤◌, ◌≡◌, ◌≢◌, refl, sym, ◌∙◌, subst, ◌⊎◌, Bool, true, false, ◌&&◌, [], ◌∷◌, none, inl, inr,
  length, Bool-cases, arith,
}
use nplex_cpp.Prelude.Order.{Bytes, bytes_order, compare_bytes, bytes_trans, same-cases}
use nplex_cpp.OrderedMap.{Map, find, find-nil, lower_bound}
use nplex_cpp.OrderedMap.Sorted.{Above, IsSorted}
use nplex_cpp.User.{Glob}
use nplex_cpp.Tx.Access.{is_empty}
use nplex_cpp.Tx.Scan.{starts_with, advance, start_at}

starts_with-below : (p k : Bytes) → compare_bytes k p ≡ lt → starts_with p k ≡ false
unfolding starts_with compare_bytes
starts_with-below [] [] h = cc
starts_with-below [] (c ∷ cs) h = cc
starts_with-below (p ∷ ps) [] h = refl
starts_with-below (p ∷ ps) (c ∷ cs) h = ground (arith, starts_with-below ps cs)

-- Behind a key at or above the prefix that does not start with it, no key does.
starts_with-beyond :
    (p k l : Bytes)
    → compare_bytes k p ≢ lt
    → starts_with p k ≡ false
    → compare_bytes k l ≡ lt
    → starts_with p l ≡ false
unfolding starts_with compare_bytes
starts_with-beyond [] k l a b c = cc
starts_with-beyond (p ∷ ps) [] l a b c = absurd (a refl)
starts_with-beyond (p ∷ ps) (k ∷ ks) [] a b c = refl
starts_with-beyond (p ∷ ps) (k ∷ ks) (l ∷ ls) a b c = ground (arith, starts_with-beyond ps ks ls)

module _ {V : Type 0} (p : Bytes) where
  -- No key is below the prefix.
  abbrev pub From : Map Bytes V → Type 0
  From [] = Unit {0}
  From ((k, v) ∷ m) = (compare_bytes k p ≢ lt) × From m

  From-Above : (k : Bytes) (m : Map Bytes V) → compare_bytes k p ≢ lt → Above k m → From m
  From-Above k [] h a = tt
  From-Above k ((j, v) ∷ m) h a = (λ e. h (bytes_trans k j p a.0 e), From-Above k m h a.1)

  find-beyond :
      (j k : Bytes) (m : Map Bytes V)
      → compare_bytes j p ≢ lt
      → starts_with p j ≡ false
      → Above j m
      → starts_with p k ≡ true
      → find k m ≡ none
  unfolding find
  find-beyond j k [] h b a s = refl
  find-beyond j k ((i, v) ∷ m) h b a s = elim (same-cases k i) [
    | inl (e, q) ↦ let n : starts_with p i ≡ false = starts_with-beyond p j i h b a.0 in cc
    | inr e ↦ rw e (find-beyond j k m h b a.1 s)
  ]

lt-cases : (o : Ordering) → (o ≡ lt) ⊎ (o ≢ lt)
lt-cases lt = inl refl
lt-cases eq = inr (λ e. cc)
lt-cases gt = inr (λ e. cc)

-- The part of a map where for_each_internal starts: in order, without a key below the prefix.
pub record IsRange {V : Type 0} (p : Bytes) (m : Map Bytes V) : Type 0 where
  pub sorted : IsSorted m
  pub from : From p m

module _ {V : Type 0} (p : Bytes) where
  lower_bound-skips :
      (j : Bytes) (v : V) (m : Map Bytes V)
      → compare_bytes j p ≡ lt
      → lower_bound p ((j, v) ∷ m) ≡ lower_bound p m
  unfolding lower_bound
  lower_bound-skips j v m e = ground arith

  lower_bound-stays :
      (j : Bytes) (v : V) (m : Map Bytes V)
      → compare_bytes j p ≢ lt
      → lower_bound p ((j, v) ∷ m) ≡ (j, v) ∷ m
  unfolding lower_bound
  lower_bound-stays j v m e = ground arith

  lower_bound-IsRange : (m : Map Bytes V) → IsSorted m → IsRange p (lower_bound p m)
  lower_bound-IsRange [] h = unfold lower_bound in record { sorted = tt; from = tt }
  lower_bound-IsRange ((j, v) ∷ m) h = elim (lt-cases (compare_bytes j p)) [
    | inl e ↦ rw (lower_bound-skips j v m e) (lower_bound-IsRange m h.1)
    | inr n ↦
        rw (lower_bound-stays j v m n) (record { sorted = h; from = (n, From-Above p j m n h.0) })
  ]

  -- Nothing with the prefix is left out.
  find-lower_bound :
      (k : Bytes) (m : Map Bytes V) → starts_with p k ≡ true → find k (lower_bound p m) ≡ find k m
  unfolding find
  find-lower_bound k [] s = unfold lower_bound in refl
  find-lower_bound k ((j, v) ∷ m) s = elim (lt-cases (compare_bytes j p)) [
    | inl e ↦ rw (lower_bound-skips j v m e, find-lower_bound k m s) (sym (absent k j v m e s))
    | inr n ↦ rw (lower_bound-stays j v m n) refl
  ]
    where
      absent :
          (k j : Bytes) (v : V) (m : Map Bytes V)
          → compare_bytes j p ≡ lt
          → starts_with p k ≡ true
          → find k ((j, v) ∷ m) ≡ find k m
      absent k j v m e s = elim (same-cases k j) [
        | inl (b, q) ↦ let n : starts_with p j ≡ false = starts_with-below p j e in cc
        | inr b ↦ rw b refl
      ]

  From-nil : (m : Map Bytes V) → From [] m
  From-nil [] = tt
  From-nil ((k, v) ∷ m) = (never k, From-nil m)
    where
      never : (k : Bytes) → compare_bytes k [] ≢ lt
      never [] e = unfold compare_bytes in cc
      never (c ∷ cs) e = unfold compare_bytes in cc

  pub start_at-IsRange : (m : Map Bytes V) → IsSorted m → IsRange p (start_at p m)
  unfolding start_at
  start_at-IsRange m h = elim (Bool-cases (is_empty p)) [
    | inl e ↦ rw e (record { sorted = h; from = subst (λ q. From q m) (sym (nil e)) (From-nil m) })
    | inr e ↦ rw e (lower_bound-IsRange m h)
  ]
    where
      nil : is_empty p ≡ true → p ≡ []
      nil e = ground arith

  pub find-start_at :
      (k : Bytes) (m : Map Bytes V) → starts_with p k ≡ true → find k (start_at p m) ≡ find k m
  unfolding start_at
  find-start_at k m s = elim (Bool-cases (is_empty p)) [
    | inl e ↦ rw e refl
    | inr e ↦ rw e (find-lower_bound k m s)
  ]

-- The keys that the loops stop at.
abbrev pub is_selected : Glob → Bytes → Bytes → Bytes → Bool
is_selected glob pattern prefix k = starts_with prefix k && glob k pattern

pub selected-starts :
    (glob : Glob) (pattern p k : Bytes)
    → is_selected glob pattern p k ≡ true
    → starts_with p k ≡ true
selected-starts glob pattern p k s = ground arith

module _ {V : Type 0} (glob : Glob) (pattern p : Bytes) where
  -- The first key is one to stop at.
  abbrev pub Stops : Map Bytes V → Type 0
  Stops [] = Unit {0}
  Stops ((k, v) ∷ m) = is_selected glob pattern p k ≡ true

  -- What an inner loop leaves: it lost no key to stop at and took none.
  pub record Advances (m m' : Map Bytes V) : Type 0 where
    pub range : IsRange p m'
    pub stops : Stops m'
    pub above : (b : Bytes) → Above b m → Above b m'
    pub finds : (k : Bytes) → is_selected glob pattern p k ≡ true → find k m' ≡ find k m
    pub shorter : length m' ≤ length m

  -- A key that is not to stop at is passed over.
  find-passed :
      (k j : Bytes) (v : V) (m : Map Bytes V)
      → is_selected glob pattern p j ≡ false
      → is_selected glob pattern p k ≡ true
      → find k ((j, v) ∷ m) ≡ find k m
  unfolding find
  find-passed k j v m n s = elim (same-cases k j) [
    | inl (b, q) ↦ let t : is_selected glob pattern p j ≡ true = rw (sym q) s in cc
    | inr b ↦ rw b refl
  ]

  advance-ends :
      (j : Bytes) (v : V) (m : Map Bytes V)
      → IsRange p ((j, v) ∷ m)
      → starts_with p j ≡ false
      → Advances ((j, v) ∷ m) []
  advance-ends j v m h n = record {
    range = record { sorted = tt; from = tt };
    stops = tt;
    above = λ b a. tt;
    finds = λ k s.
        find-nil k
        ∙ sym (
            find-passed k j v m (rw n refl) s
            ∙ find-beyond p j k m (h.from).0 n (h.sorted).0 (selected-starts glob pattern p k s));
    shorter = omega arith;
  }

  advance-passes :
      (j : Bytes) (v : V) (m m' : Map Bytes V)
      → is_selected glob pattern p j ≡ false
      → Advances m m'
      → Advances ((j, v) ∷ m) m'
  advance-passes j v m m' n a = record {
    range = a.range;
    stops = a.stops;
    above = λ b h. a.above b h.1;
    finds = λ k s. a.finds k s ∙ sym (find-passed k j v m n s);
    shorter = omega (arith, a.shorter);
  }

  pub advance-Advances : (m : Map Bytes V) → IsRange p m → Advances m (advance glob pattern p m)
  unfolding advance find
  advance-Advances [] h = record {
    range = h;
    stops = tt;
    above = λ b a. a;
    finds = λ k s. refl;
    shorter = omega arith;
  }
  advance-Advances ((j, v) ∷ m) h = elim (Bool-cases (starts_with p j)) [
    | inr n ↦ rw n (advance-ends j v m h n)
    | inl y ↦ elim (Bool-cases (glob j pattern)) [
      | inl g ↦
          rw (y, g)
            (record {
              range = h;
              stops = rw (y, g) refl;
              above = λ b a. a;
              finds = λ k s. refl;
              shorter = omega arith;
            })
      | inr g ↦
          rw (y, g)
            (advance-passes j v m (advance glob pattern p m) (rw (y, g) refl)
              (advance-Advances m (record { sorted = (h.sorted).1; from = (h.from).1 })))
    ]
  ]
