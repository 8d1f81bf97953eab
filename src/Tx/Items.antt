-- ===== src/Tx/Items.antt =====
-- How one call of a transaction changes its items: at most under one key, and in one of three ways.
use nplex_cpp.Prelude.{
  ◌≡◌, refl, Bool, true, false, Option, none, some, inl, inr, is_some, if◌then◌else◌, Bool-cases,
  arith,
}
use nplex_cpp.Prelude.Order.{Bytes, bytes_order, same}
use nplex_cpp.OrderedMap.{Map, find, find-insert, find-emplace}
use nplex_cpp.Types.{Value}
use nplex_cpp.Key.{Utf8, is_valid_key}
use nplex_cpp.Store.{Store}
use nplex_cpp.Tx.{Tx, Item, ItemAction, is_open}
use nplex_cpp.Tx.View.{SameFrame, SameFrame-refl, SameFrame-record, SameFrame-trans, touched}
use nplex_cpp.Tx.Access.{
  is_read_committed, is_snapshot, is_delete, is_read_or_snapshot, ensure, read_value, read_item,
  pin, read_store, read_found, read,
}

-- `f` is the content of the store; only a step that may write makes an UPSERT or a DELETE.
pub data ItemStep (may_write : Bool) (key : Bytes) (f : Bytes → Option Value)
    (m m' : Map Bytes Item) : Type 0 where
  keeps : m' ≡ m → ItemStep may_write key f m m'
  writes :
      (item : Item)
      → may_write ≡ true
      → is_read_or_snapshot item.action ≡ false
      → ((k : Bytes) → find k m' ≡ (if same k key then some item else find k m))
      → ItemStep may_write key f m m'
  pins :
      find key m ≡ none
      → ((k : Bytes)
          → find k m' ≡ (
              if same k key
              then some (record { action = ItemAction.read; value = f key })
              else find k m))
      → ItemStep may_write key f m m'
  touches :
      (old : Item)
      → find key m ≡ some old
      → is_snapshot old.action ≡ true
      → ((k : Bytes)
          → find k m'
            ≡ (if same k key then some (record old { action = ItemAction.read }) else find k m))
      → ItemStep may_write key f m m'

abbrev pub content_of_store : Store → Bytes → Option Value
content_of_store s k = find k s.entries

module _ (s : Store) (key : Bytes) where
  abbrev pub Steps : Bool → Tx → Tx → Type 0
  Steps w t t' = ItemStep w key (content_of_store s) t.items t'.items × SameFrame t t'

  pub made :
      (w : Bool) (t : Tx) (items : Map Bytes Item) (ensures : Map Bytes (Unit {0})) (dirty : Bool)
      → ItemStep w key (content_of_store s) t.items items
      → Steps w t (record t { items = items; ensures = ensures; dirty = dirty })
  made w t items ensures dirty step = (step, SameFrame-record t items ensures dirty)

  items-ensure : (p : Option Bytes) (t : Tx) → (ensure p t).1.items ≡ t.items
  unfolding ensure
  items-ensure none t = refl
  items-ensure (some p) t = ground arith

  pub items-read_value :
      (check : Bool) (v : Option Value) (t : Tx) → (read_value key check v t).1.items ≡ t.items
  unfolding read_value ensure
  items-read_value false v t = refl
  items-read_value true v t = ground arith

  frame-read_value :
      (check : Bool) (v : Option Value) (t : Tx) → SameFrame t (read_value key check v t).1
  unfolding read_value ensure
  frame-read_value false v t = SameFrame-refl t
  frame-read_value true v t = elim (Bool-cases (is_open t.state)) [
    | inl o ↦ rw o (SameFrame-record t _ _ _)
    | inr o ↦ rw o (SameFrame-refl t)
  ]

  frame-ensure : (p : Option Bytes) (t : Tx) → SameFrame t (ensure p t).1
  unfolding ensure
  frame-ensure none t = SameFrame-refl t
  frame-ensure (some p) t = elim (Bool-cases (is_open t.state)) [
    | inl o ↦ rw o (SameFrame-record t _ _ _)
    | inr o ↦ rw o (SameFrame-refl t)
  ]

  pub ensure-ItemStep : (w : Bool) (p : Option Bytes) (t : Tx) → Steps w t (ensure p t).1
  ensure-ItemStep w p t = (keeps (items-ensure p t), frame-ensure p t)

  read_item-Steps :
      (w check : Bool) (item : Item) (t : Tx)
      → find key t.items ≡ some item
      → Steps w t (read_item key check item t).1
  unfolding read_item
  read_item-Steps w check item t e = elim (Bool-cases (is_delete item.action)) [
    | inl d ↦ rw d (made w t _ _ _ (keeps refl))
    | inr d ↦ elim (Bool-cases (is_some item.value)) [
      | inr n ↦ rw (d, n) (made w t _ _ _ (keeps refl))
      | inl n ↦ elim (Bool-cases (is_snapshot item.action)) [
        | inl x ↦
            rw (d, n, x)
              (
                touches item e x (λ k.
                    rw items-read_value
                      (find-insert key k (record item { action = ItemAction.read }) t.items)),
                SameFrame-trans (SameFrame-record t _ _ true)
                    (frame-read_value check item.value (touched key t item)),
              )
        | inr x ↦
            rw (d, n, x)
              (keeps (items-read_value check item.value t), frame-read_value check item.value t)
      ]
    ]
  ]

  pin-Steps :
      (w : Bool) (t : Tx) (v : Option Value)
      → find key t.items ≡ none
      → find key s.entries ≡ v
      → Steps w t (pin key v t)
  unfolding pin
  pin-Steps w t v e f = elim (Bool-cases (is_read_committed t.isolation)) [
    | inl c ↦ rw c (made w t _ _ _ (keeps refl))
    | inr c ↦ rw c (made w t _ _ _ (pins e (λ k. rw f (find-emplace key k _ t.items e))))
  ]

  read_store-Steps :
      (w check : Bool) (v : Option Value) (t : Tx)
      → find key t.items ≡ none
      → find key s.entries ≡ v
      → Steps w t (read_store key check v t).1
  unfolding read_store
  read_store-Steps w check none t e f = pin-Steps w t none e f
  read_store-Steps w check (some v) t e f =
      let (step, frame) = pin-Steps w t (some v) e f in
      (
        rw (items-read_value check (some v) (pin key (some v) t)) step,
        SameFrame-trans frame (frame-read_value check (some v) (pin key (some v) t)),
      )

  read_found-Steps :
      (w check : Bool) (item : Option Item) (t : Tx)
      → find key t.items ≡ item
      → Steps w t (read_found s key check item t).1
  unfolding read_found
  read_found-Steps w check (some item) t e = read_item-Steps w check item t e
  read_found-Steps w check none t e = read_store-Steps w check (find key s.entries) t e refl

  pub read-ItemStep :
      (w : Bool) (u : Utf8) (check : Bool) (t : Tx) → Steps w t (read u s key check t).1
  unfolding read
  read-ItemStep w u check t = elim (Bool-cases (is_valid_key u key)) [
    | inr v ↦ rw v (made w t _ _ _ (keeps refl))
    | inl v ↦ elim (Bool-cases (is_open t.state)) [
      | inr o ↦ rw (v, o) (made w t _ _ _ (keeps refl))
      | inl o ↦ rw (v, o) (read_found-Steps w check (find key t.items) t refl)
    ]
  ]
