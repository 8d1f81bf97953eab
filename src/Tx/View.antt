-- ===== src/Tx/View.antt =====
-- What a transaction sees of a key, and what a read returns and leaves.
use nplex_cpp.Prelude.{
  ◌≡◌, refl, sym, ap, ◌∙◌, Bool, true, false, Option, none, some, inl, inr, is_some, if◌then◌else◌,
  Bool-cases,
}
use nplex_cpp.Prelude.Order.{Bytes, bytes_order, same-cases}
use nplex_cpp.OrderedMap.{Map, find, insert, find-insert, find-emplace}
use nplex_cpp.Result.{Result, ok}
use nplex_cpp.Types.{Value}
use nplex_cpp.Key.{Utf8, is_valid_key}
use nplex_cpp.Store.{Store}
use nplex_cpp.Tx.{Tx, Item, ItemAction, is_open}
use nplex_cpp.Tx.Access.{
  is_read_committed, is_snapshot, is_delete, ensure, read_value, read_item, pin, read_store,
  read_found, read,
}

-- What an item shows.
abbrev pub visible : Item → Option Value
visible item = if is_delete item.action then none else item.value

abbrev pub shows : Option Item → Option Value → Option Value
shows none stored = stored
shows (some item) stored = visible item

-- What the transaction sees under a key: its own item, or else the store.
abbrev pub seen : Tx → Store → Bytes → Option Value
seen tx s k = shows (find k tx.items) (find k s.entries)

-- Everything but the items, the ensures and the dirty flag is as it was.
pub record SameFrame (t t' : Tx) : Type 0 where
  pub state : t'.state ≡ t.state
  pub isolation : t'.isolation ≡ t.isolation
  pub promise : t'.promise ≡ t.promise
  pub user : t'.user ≡ t.user
  pub read_only : t'.read_only ≡ t.read_only

pub SameFrame-record :
    (t : Tx) (items : Map Bytes Item) (ensures : Map Bytes (Unit {0})) (dirty : Bool)
    → SameFrame t (record t { items = items; ensures = ensures; dirty = dirty })
SameFrame-record t items ensures dirty = record {
  state = refl;
  isolation = refl;
  promise = refl;
  user = refl;
  read_only = refl;
}

pub SameFrame-refl : (t : Tx) → SameFrame t t
SameFrame-refl t = SameFrame-record t t.items t.ensures t.dirty

pub SameFrame-trans : {t t' t'' : Tx} → SameFrame t t' → SameFrame t' t'' → SameFrame t t''
SameFrame-trans f g = record {
  state = g.state ∙ f.state;
  isolation = g.isolation ∙ f.isolation;
  promise = g.promise ∙ f.promise;
  user = g.user ∙ f.user;
  read_only = g.read_only ∙ f.read_only;
}

-- A read returned `value`, and it changed nothing that the transaction sees.
pub record ReadsAs (s : Store) (key : Bytes) (t : Tx) (r : Result (Option Value) × Tx)
    : Type 0 where
  pub returns : r.0 ≡ ok (seen t s key)
  pub frame : SameFrame t r.1
  pub unmoved : (k : Bytes) → seen r.1 s k ≡ seen t s k

-- The item becomes READ, and the transaction dirty.
abbrev pub touched : Bytes → Tx → Item → Tx
touched key t item = record t {
  items = insert key (record item { action = ItemAction.read }) t.items;
  dirty = true;
}

module _ (s : Store) (key : Bytes) where
  read_value-ReadsAs :
      (check : Bool) (t t' : Tx) (v : Option Value)
      → is_open t'.state ≡ true
      → seen t s key ≡ v
      → SameFrame t t'
      → ((k : Bytes) → seen t' s k ≡ seen t s k)
      → ReadsAs s key t (read_value key check v t')
  unfolding read_value ensure
  read_value-ReadsAs false t t' v o e f u = record {
    returns = ap ok (sym e);
    frame = f;
    unmoved = u;
  }
  read_value-ReadsAs true t t' v o e f u = rw o (record {
    returns = ap ok (sym e);
    frame = record {
      state = f.state;
      isolation = f.isolation;
      promise = f.promise;
      user = f.user;
      read_only = f.read_only;
    };
    unmoved = u;
  })

  seen-touched :
      (t : Tx) (item : Item) (k : Bytes)
      → find key t.items ≡ some item
      → is_delete item.action ≡ false
      → seen (touched key t item) s k ≡ seen t s k
  seen-touched t item k e d = elim (same-cases k key) [
    | inl (b, eq) ↦ rw (find-insert, b, eq, e) (rw d)
    | inr b ↦ rw (find-insert, b)
  ]

  read_item-ReadsAs :
      (check : Bool) (t : Tx) (item : Item)
      → is_open t.state ≡ true
      → find key t.items ≡ some item
      → ReadsAs s key t (read_item key check item t)
  unfolding read_item
  read_item-ReadsAs check t item o e = elim (Bool-cases (is_delete item.action)) [
    | inl d ↦ rw d (record {
      returns = ap ok (rw e (sym (rw d)));
      frame = SameFrame-refl t;
      unmoved = λ k. refl;
    })
    | inr d ↦ elim (Bool-cases (is_some item.value)) [
      | inr n ↦
          rw (d, n)
            (record {
              returns = ap ok (rw (e, d) (empty item.value n));
              frame = SameFrame-refl t;
              unmoved = λ k. refl;
            })
      | inl n ↦ elim (Bool-cases (is_snapshot item.action)) [
        | inl x ↦
            rw (d, n, x)
              (read_value-ReadsAs check t (touched key t item) item.value o (rw (e, d))
                (SameFrame-record t _ _ _) (λ k. seen-touched t item k e d))
        | inr x ↦
            rw (d, n, x)
              (read_value-ReadsAs check t t item.value o (rw (e, d)) (SameFrame-refl t) (λ k. refl))
      ]
    ]
  ]
    where
      empty : (v : Option Value) → is_some v ≡ false → none ≡ v
      empty none n = refl
      empty (some v) n = cc

  seen-pin :
      (t : Tx) (k : Bytes)
      → find key t.items ≡ none
      → seen (pin key (find key s.entries) t) s k ≡ seen t s k
  unfolding pin
  seen-pin t k e = elim (Bool-cases (is_read_committed t.isolation)) [
    | inl c ↦ rw c
    | inr c ↦ rw c (elim (same-cases k key) [
      | inl (b, eq) ↦ rw (find-emplace, e) (rw (b, eq, e))
      | inr b ↦ rw (find-emplace, e) (rw b)
    ])
  ]

  pin-SameFrame : (t : Tx) (v : Option Value) → SameFrame t (pin key v t)
  unfolding pin
  pin-SameFrame t v = elim (Bool-cases (is_read_committed t.isolation)) [
    | inl c ↦ rw c (SameFrame-refl t)
    | inr c ↦ rw c (SameFrame-record t _ _ _)
  ]

  read_store-ReadsAs :
      (check : Bool) (t : Tx) (v : Option Value)
      → is_open t.state ≡ true
      → find key t.items ≡ none
      → find key s.entries ≡ v
      → ReadsAs s key t (read_store key check v t)
  unfolding read_store
  read_store-ReadsAs check t none o e f = record {
    returns = ap ok (rw (e, f));
    frame = pin-SameFrame t none;
    unmoved = λ k. rw (← f) (seen-pin t k e);
  }
  read_store-ReadsAs check t (some v) o e f =
      read_value-ReadsAs check t (pin key (some v) t) (some v)
        (rw (pin-SameFrame t (some v)).state o) (rw (e, f)) (pin-SameFrame t (some v))
        (λ k. rw (← f) (seen-pin t k e))

  read_found-ReadsAs :
      (check : Bool) (t : Tx) (item : Option Item)
      → is_open t.state ≡ true
      → find key t.items ≡ item
      → ReadsAs s key t (read_found s key check item t)
  unfolding read_found
  read_found-ReadsAs check t (some item) o e = read_item-ReadsAs check t item o e
  read_found-ReadsAs check t none o e = read_store-ReadsAs check t (find key s.entries) o e refl

  -- A read of a valid key in an open transaction returns what the transaction sees under the key,
  -- and changes nothing that it sees under any key.
  pub read-ReadsAs :
      (u : Utf8) (check : Bool) (t : Tx)
      → is_valid_key u key ≡ true
      → is_open t.state ≡ true
      → ReadsAs s key t (read u s key check t)
  unfolding read
  read-ReadsAs u check t valid o =
      rw valid (rw o (read_found-ReadsAs check t (find key t.items) o refl))
