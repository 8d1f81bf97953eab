-- ===== src/Client/Creation.antt =====
-- The transactions that a client keeps: create_tx and purge_unused_txs of src/client_impl.cpp.
use nplex_cpp.Prelude.{
  ℕ, zero, suc, sym, subst, ◌+◌, ◌≤◌, ◌<◌, ◌≡◌, refl, Bool, true, false, not, ◌&&◌, ◌||◌, List, [],
  ◌∷◌, ◌++◌, some, is_some, Option-cases, Bool-cases, inl, inr, get_elem?, length, length-append,
  ltb, leb, ◌==◌, arith,
}
use nplex_cpp.Result.{ok}
use nplex_cpp.Tx.{Tx, Isolation, new_tx}
use nplex_cpp.Tx
use nplex_cpp.Client.{Client, World}
use nplex_cpp.Client.Core.{is_closed, purge_from, purge_unused_txs}
use nplex_cpp.Client.Commands.{insert_tx, create_tx}
use nplex_cpp.Client.Tracking.{holds, distinct, distinct-head}

-- each index is one of a transaction
unfoldable pub all_below : ℕ → List ℕ → Bool
all_below n [] = true
all_below n (i ∷ is) = ltb i n && all_below n is

below-split :
    (n i : ℕ) (is : List ℕ)
    → all_below n (i ∷ is) ≡ true
    → (ltb i n ≡ true) × (all_below n is ≡ true)
unfolding all_below
below-split n i is h = ground arith

-- The transactions of a client: there are no more than allowed, each is in the heap, and none twice.
pub record IsTracked (c : Client) : Type 0 where
  pub bounded : length c.transactions ≤ c.max_active_txs
  pub once : distinct c.transactions ≡ true
  pub below : all_below (length c.heap) c.transactions ≡ true

-- A list after a purge: shorter, and with no index that was not there.
record IsPurged (is is' : List ℕ) : Type 0 where
  shorter : length is' ≤ length is
  fewer : (i : ℕ) → holds i is ≡ false → holds i is' ≡ false
  once : distinct is ≡ true → distinct is' ≡ true
  below : (n : ℕ) → all_below n is ≡ true → all_below n is' ≡ true

IsPurged-drop : (i : ℕ) {is is' : List ℕ} → IsPurged is is' → IsPurged (i ∷ is) is'
IsPurged-drop i {is = is} p = record {
  shorter = omega (arith, p.shorter);
  fewer = λ j h. p.fewer j (or_false (j == i) h);
  once = λ d. p.once (distinct-head i is d).1;
  below = λ n b. p.below n (below-split n i is b).1;
}
  where
    or_false : (a : Bool) {b : Bool} → a || b ≡ false → b ≡ false
    or_false true h = absurd (cc)
    or_false false h = h

IsPurged-keep : (i : ℕ) {is is' : List ℕ} → IsPurged is is' → IsPurged (i ∷ is) (i ∷ is')
unfolding all_below
IsPurged-keep i {is = is} {is' = is'} p = record {
  shorter = omega (arith, p.shorter);
  fewer = λ j h. or_false (j == i) (p.fewer j) h;
  once = λ d. both (p.fewer i (distinct-head i is d).0) (p.once (distinct-head i is d).1);
  below = λ n b. rw (below-split n i is b).0 (p.below n (below-split n i is b).1);
}
  where
    or_false :
        (a : Bool) {b b' : Bool} → (b ≡ false → b' ≡ false) → a || b ≡ false → a || b' ≡ false
    or_false true f h = h
    or_false false f h = f h

    both : {a b : Bool} → a ≡ false → b ≡ true → not a && b ≡ true
    both h k = rw h k

module _ (w : World) (heap : List Tx) where
  purge_from-IsPurged : (is : List ℕ) → IsPurged is (purge_from w heap is)
  unfolding purge_from
  purge_from-IsPurged [] = record {
    shorter = omega arith;
    fewer = λ _ h. h;
    once = λ d. d;
    below = λ _ b. b;
  }
  purge_from-IsPurged (i ∷ is) = elim (Bool-cases (w.is_owned i)) [
    | inr e ↦ rw e (IsPurged-drop i (purge_from-IsPurged is))
    | inl e ↦ rw e (elim (Option-cases (get_elem? heap i)) [
      | inl n ↦ rw n (IsPurged-drop i (purge_from-IsPurged is))
      | inr (tx, t) ↦ rw t (elim (Bool-cases (Tx.is_closed tx.state)) [
        | inl k ↦ rw k (IsPurged-drop i (purge_from-IsPurged is))
        | inr k ↦ rw k (IsPurged-keep i (purge_from-IsPurged is))
      ])
    ])
  ]

not_held : (n : ℕ) (is : List ℕ) → all_below n is ≡ true → holds n is ≡ false
unfolding all_below
not_held n [] b = refl
not_held n (i ∷ is) b = rw (not_held n is (below-split n i is b).1) (ne (below-split n i is b).0)
  where
    ne : ltb i n ≡ true → (n == i) || false ≡ false
    ne h = ground arith

all_below-suc : (n : ℕ) (is : List ℕ) → all_below n is ≡ true → all_below (n + 1) is ≡ true
unfolding all_below
all_below-suc n [] b = refl
all_below-suc n (i ∷ is) b =
    rw (all_below-suc n is (below-split n i is b).1) (lt (below-split n i is b).0)
  where
    lt : ltb i n ≡ true → ltb i (n + 1) && true ≡ true
    lt h = ground arith

purge_unused_txs-IsTracked :
    (w : World) (c : Client) → IsTracked c → IsTracked (purge_unused_txs w c)
unfolding purge_unused_txs
purge_unused_txs-IsTracked w c h = record {
  bounded = omega (arith, h.bounded, p.shorter);
  once = p.once h.once;
  below = p.below (length c.heap) h.below;
}
  where
    p : IsPurged c.transactions (purge_from w c.heap c.transactions)
    p = purge_from-IsPurged w c.heap c.transactions

-- What `create_tx` returns and leaves, when it makes a transaction.
pub record Creates (isolation : Isolation) (read_only : Bool) (c c' : Client) (i : ℕ) : Type 0 where
  pub fresh : i ≡ length c.heap
  pub made : get_elem? c'.heap i ≡ some (new_tx c.user c.store.rev isolation read_only)
  pub listed : holds i c'.transactions ≡ true
  pub others : (j : ℕ) → j < i → get_elem? c'.heap j ≡ get_elem? c.heap j

get_elem?-last : {A : Type 0} (xs : List A) (x : A) → get_elem? (xs ++ x ∷ []) (length xs) ≡ some x
get_elem?-last [] x = refl
get_elem?-last (y ∷ xs) x = get_elem?-last xs x

get_elem?-before :
    {A : Type 0} (xs : List A) (x : A) (j : ℕ)
    → j < length xs
    → get_elem? (xs ++ x ∷ []) j ≡ get_elem? xs j
get_elem?-before [] x j h = absurd (omega (arith, h))
get_elem?-before (y ∷ xs) x zero h = refl
get_elem?-before (y ∷ xs) x (suc j) h = get_elem?-before xs x j (omega (arith, h))

eqb_self : (n : ℕ) → (n == n) || false ≡ true
eqb_self n = ground arith

below_new :
    (m n : ℕ) (is : List ℕ) → n ≡ m + 1 → all_below m is ≡ true → all_below n (m ∷ is) ≡ true
unfolding all_below
below_new m n is e b =
    and_true (ltb m n) _ lt (subst (λ q. all_below q is ≡ true) (sym e) (all_below-suc m is b))
  where
    and_true : (a b : Bool) → a ≡ true → b ≡ true → a && b ≡ true
    and_true a b h k = rw h k

    lt : ltb m n ≡ true
    lt = ground arith

insert_tx-IsTracked :
    (isolation : Isolation) (read_only : Bool) (c : Client)
    → leb c.max_active_txs (length c.transactions) ≡ false
    → IsTracked c
    → IsTracked (insert_tx isolation read_only c)
insert_tx-IsTracked isolation ro c f h = record {
  bounded = ground arith;
  once = rw (not_held (length c.heap) c.transactions h.below) h.once;
  below = below_new (length c.heap) _ c.transactions (length-append c.heap _) h.below;
}

-- However it ends, `create_tx` keeps the list of transactions within its limit, without repetition and
-- within the heap.
pub create_tx-IsTracked :
    (w : World) (isolation : Isolation) (read_only : Bool) (c : Client)
    → IsTracked c
    → IsTracked (create_tx w isolation read_only c).1
unfolding create_tx
create_tx-IsTracked w isolation ro c h = elim (Bool-cases (is_closed c.state)) [
  | inl e ↦ rw e h
  | inr e ↦ rw e (elim (Bool-cases (leb c1.max_active_txs (length c1.transactions))) [
    | inl f ↦ rw f h1
    | inr f ↦ rw f (elim (Bool-cases (is_some c1.user)) [
      | inr n ↦ rw n h1
      | inl n ↦ rw n (insert_tx-IsTracked isolation ro c1 f h1)
    ])
  ])
]
  where
    c1 : Client
    c1 = purge_unused_txs w c

    h1 : IsTracked c1
    h1 = purge_unused_txs-IsTracked w c h

insert_tx-Creates :
    (isolation : Isolation) (read_only : Bool) (c : Client)
    → Creates isolation read_only c (insert_tx isolation read_only c) (length c.heap)
insert_tx-Creates isolation ro c = record {
  fresh = refl;
  made = get_elem?-last c.heap _;
  listed = or_true _ _ (eqb_self (length c.heap));
  others = get_elem?-before c.heap _;
}
  where
    or_true : (a b : Bool) → a || false ≡ true → a || b ≡ true
    or_true true b h = refl
    or_true false b h = absurd (cc)

-- A client that is not closed, whose user has logged in, and that has room for one more transaction once the unused ones are
-- purged, makes one: it returns a new index, which it lists; there is a fresh transaction of the
-- present user at the present revision, and every other transaction stays as it was.
pub create_tx-Creates :
    (w : World) (isolation : Isolation) (read_only : Bool) (c : Client)
    → is_closed c.state ≡ false
    → is_some c.user ≡ true
    → length (purge_unused_txs w c).transactions < c.max_active_txs
    → ((create_tx w isolation read_only c).0 ≡ ok (length c.heap))
      × Creates isolation read_only c (create_tx w isolation read_only c).1 (length c.heap)
unfolding create_tx purge_unused_txs
create_tx-Creates w isolation ro c o n room =
    rw (o, full, n) (refl, of_purged (insert_tx-Creates isolation ro (purge_unused_txs w c)))
  where
    full : leb c.max_active_txs (length (purge_unused_txs w c).transactions) ≡ false
    full = ground arith

    of_purged :
        {c' : Client}
        → Creates isolation ro (purge_unused_txs w c) c' (length (purge_unused_txs w c).heap)
        → Creates isolation ro c c' (length c.heap)
    of_purged k = record { fresh = k.fresh; made = k.made; listed = k.listed; others = k.others }
