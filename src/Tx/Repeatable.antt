-- ===== src/Tx/Repeatable.antt =====
-- The values that a REPEATABLE_READ or SERIALIZABLE transaction has read stay as they were.
use nplex_cpp.Prelude.{
  ◌≡◌, ◌≢◌, refl, ap, sym, ◌∙◌, Bool, true, false, [], Option, none, some, inl, inr, Option-cases,
  if◌then◌else◌, arith,
}
use nplex_cpp.Prelude.Order.{Bytes, bytes_order, same, same_self, same-cases}
use nplex_cpp.OrderedMap.{Map, find, find-emplace}
use nplex_cpp.Result.{ok}
use nplex_cpp.Types.{Value}
use nplex_cpp.Key.{Utf8, is_valid_key}
use nplex_cpp.User.{Glob}
use nplex_cpp.Store.{Store}
use nplex_cpp.Tx.{Tx, Item, ItemAction, is_open}
use nplex_cpp.Tx.Access.{is_read_committed, is_snapshot, pin, read_store, read_found, read}
use nplex_cpp.Tx.View.{SameFrame, visible, seen, read-ReadsAs}
use nplex_cpp.Tx.Items.{
  ItemStep, keeps, writes, pins, touches, items-read_value, content_of_store, read-ItemStep,
  ensure-ItemStep,
}
use nplex_cpp.Tx.Writing.{upsert_internal-ItemStep, remove-ItemStep}
use nplex_cpp.Tx.Tracking.{update-Follows}
use nplex_cpp.Tx.Scanned.{leaves, find-for_each_internal, for_each_internal-ScansAs}
use nplex_cpp.Tx.Ordered.{SessionIsOrdered, Step-SessionIsOrdered}
use nplex_cpp.Tx.Session.{
  Session, Step, Reach, commits, reads, ensures, upserts, removes, scans, here, next,
}

-- An item shows the value under the key, whatever the store holds.
pub record Fixed (key : Bytes) (v : Option Value) (m : Map Bytes Item) : Type 0 where
  item : Item
  held : find key m ≡ some item
  shows_it : visible item ≡ v

put-Fixed :
    (key k : Bytes) (v : Option Value) (item : Item) (m m' : Map Bytes Item)
    → ((j : Bytes) → find j m' ≡ (if same j k then some item else find j m))
    → (key ≡ k → visible item ≡ v)
    → Fixed key v m
    → Fixed key v m'
put-Fixed key k v item m m' e c f = elim (same-cases key k) [
  | inl (b, eq) ↦ record { item = item; held = rw (e key, b); shows_it = c eq }
  | inr b ↦ record { item = f.item; held = rw (e key, b) f.held; shows_it = f.shows_it }
]

same_shown :
    (old item : Item) (v : Option Value)
    → is_snapshot old.action ≡ true
    → some old ≡ some item
    → visible item ≡ v
    → old.value ≡ v
same_shown old item v a e h = ground arith

ItemStep-Fixed :
    (key : Bytes) (v : Option Value) {w : Bool} {k : Bytes} {f : Bytes → Option Value}
    {m m' : Map Bytes Item}
    → (w ≡ true → k ≢ key)
    → ItemStep w k f m m'
    → Fixed key v m
    → Fixed key v m'
ItemStep-Fixed key v n (keeps e) f = rw e f
ItemStep-Fixed key v {k = k} {m = m} {m' = m'} n (writes item w a e) f =
    put-Fixed key k v item m m' e (λ eq. absurd (n w (sym eq))) f
ItemStep-Fixed key v {k = k} {m = m} {m' = m'} n (pins p e) f =
    put-Fixed key k v _ m m' e (λ eq. absurd (clash f.item (rw eq at f.held) p)) f
  where
    clash : (item : Item) → find k m ≡ some item → find k m ≡ none → ⊥
    clash item p q = cc
ItemStep-Fixed key v {k = k} {m = m} {m' = m'} n (touches old p a e) f =
    put-Fixed key k v _ m m' e
      (λ eq. same_shown old f.item v a (sym p ∙ (rw eq at f.held)) f.shows_it) f

-- A scan leaves the item, or makes a SNAPSHOT one READ.
leaves-Fixed :
    (key : Bytes) (v : Option Value) (sel rc : Bool) (e : Option Value) {m m' : Map Bytes Item}
    → find key m' ≡ leaves sel rc (find key m) e
    → Fixed key v m
    → Fixed key v m'
leaves-Fixed key v sel rc e {m} {m'} q f =
    go sel (is_snapshot f.item.action) refl (q ∙ ap (λ i. leaves sel rc i e) f.held)
  where
    go :
        (sel touched : Bool)
        → is_snapshot f.item.action ≡ touched
        → find key m' ≡ leaves sel rc (some f.item) e
        → Fixed key v m'
    go false b p q = record { item = f.item; held = q; shows_it = f.shows_it }
    go true false p q = record { item = f.item; held = rw p at q; shows_it = f.shows_it }
    go true true p q = record {
      item = record f.item { action = ItemAction.read };
      held = rw p at q;
      shows_it = same_shown f.item f.item v p refl f.shows_it;
    }

module _ (u : Utf8) (s : Store) (key : Bytes) (check : Bool) (t : Tx) where
  pinned-Fixed :
      (v : Option Value)
      → find key t.items ≡ none
      → is_read_committed t.isolation ≡ false
      → Fixed key v (pin key v t).items
  unfolding pin
  pinned-Fixed v e c = rw c (record {
    item = record { action = ItemAction.read; value = v };
    held = rw (find-emplace, e) (rw same_self);
    shows_it = refl;
  })

  read_store-Fixed :
      (v : Option Value)
      → find key t.items ≡ none
      → is_read_committed t.isolation ≡ false
      → Fixed key v (read_store key check v t).1.items
  unfolding read_store
  read_store-Fixed none e c = pinned-Fixed none e c
  read_store-Fixed (some v) e c =
      rw (items-read_value s key check (some v) (pin key (some v) t)) (pinned-Fixed (some v) e c)

  -- A read fixes the value that it returns.
  pub read-Fixed :
      is_valid_key u key ≡ true
      → is_open t.state ≡ true
      → is_read_committed t.isolation ≡ false
      → Fixed key (seen t s key) (read u s key check t).1.items
  unfolding read
  read-Fixed valid o c = elim (Option-cases (find key t.items)) [
    | inl e ↦ rw valid (rw (o, e) (unfold read_found in read_store-Fixed (find key s.entries) e c))
    | inr (item, e) ↦
        ItemStep-Fixed key (seen t s key) (λ x. absurd (cc)) (read-ItemStep s key false u check t).0
          (record { item = item; held = e; shows_it = rw e })
  ]

module _ (u : Utf8) (glob : Glob) (key : Bytes) (v : Option Value) where
  -- What holds after the first read, as long as the transaction does not write the key.
  record Repeats (a : Session) : Type 0 where
    ordered : SessionIsOrdered a
    opened : is_open a.tx.state ≡ true
    fixed : Fixed key v a.tx.items

  own-Repeats :
      (a : Session) (t : Tx) {w : Bool} {k : Bytes}
      → SessionIsOrdered (record { tx = t; store = a.store })
      → (w ≡ true → k ≢ key)
      → ItemStep w k (content_of_store a.store) a.tx.items t.items × SameFrame a.tx t
      → Repeats a
      → Repeats (record { tx = t; store = a.store })
  own-Repeats a t o n (step, frame) r = record {
    ordered = o;
    opened = rw frame.state r.opened;
    fixed = ItemStep-Fixed key v n step r.fixed;
  }

  Step-Repeats : {a b : Session} → Step u glob (λ k. k ≢ key) a b → Repeats a → Repeats b
  Step-Repeats {a = a} (commits upd c e) r =
      let f = update-Follows glob c.0 a.tx in
      record {
        ordered = Step-SessionIsOrdered u glob (λ x. x ≢ key) (commits upd c e) r.ordered;
        opened = rw f.frame.state r.opened;
        fixed = record {
          item = r.fixed.item;
          held = f.held key r.fixed.item r.fixed.held;
          shows_it = r.fixed.shows_it;
        };
      }
  Step-Repeats {a = a} (reads k check) r =
      own-Repeats a _ (Step-SessionIsOrdered u glob (λ x. x ≢ key) (reads k check) r.ordered)
        (λ x. absurd (cc)) (read-ItemStep a.store k false u check a.tx) r
  Step-Repeats {a = a} (ensures p) r =
      own-Repeats a _ (Step-SessionIsOrdered u glob (λ x. x ≢ key) (ensures p) r.ordered)
        (λ x. absurd (cc)) (ensure-ItemStep a.store [] false p a.tx) r
  Step-Repeats {a = a} (upserts k content force n) r =
      own-Repeats a _
        (Step-SessionIsOrdered u glob (λ x. x ≢ key) (upserts k content force n) r.ordered) (λ _. n)
        (upsert_internal-ItemStep a.store k u glob content force a.tx) r
  Step-Repeats {a = a} (removes k n) r =
      own-Repeats a _ (Step-SessionIsOrdered u glob (λ x. x ≢ key) (removes k n) r.ordered) (λ _. n)
        (remove-ItemStep a.store k u glob a.tx) r
  Step-Repeats {a = a} (scans pattern) r =
      let h = r.ordered in
      let f = for_each_internal-ScansAs glob a.store pattern a.tx h.items (h.store).entries in
      record {
        ordered = Step-SessionIsOrdered u glob (λ x. x ≢ key) (scans pattern) h;
        opened = rw (f.frame).state r.opened;
        fixed =
            leaves-Fixed key v _ _ _
              (find-for_each_internal glob a.store pattern a.tx h.items (h.store).entries key)
              r.fixed;
      }

  Reach-Repeats : {a b : Session} → Repeats a → Reach u glob (λ k. k ≢ key) a b → Repeats b
  Reach-Repeats r here = r
  Reach-Repeats r (next p s) = Step-Repeats s (Reach-Repeats r p)

-- In an open REPEATABLE_READ or SERIALIZABLE transaction, once a valid key has been read, every later
-- read of it returns the same value, whatever commits of other clients, calls of its own on other keys
-- and scans of any pattern come in between, in any order. The maps of the session are in order.
pub repeatable_read :
    (u : Utf8) (glob : Glob) (key : Bytes) (check : Bool) (a : Session) {b : Session}
    → SessionIsOrdered a
    → is_valid_key u key ≡ true
    → is_open a.tx.state ≡ true
    → is_read_committed a.tx.isolation ≡ false
    → Reach u glob
        (λ k. k ≢ key)
        (record { tx = (read u a.store key check a.tx).1; store = a.store })
        b
    → (again : Bool) → (read u b.store key again b.tx).0 ≡ (read u a.store key check a.tx).0
repeatable_read u glob key check a {b = b} h valid o c p again =
    (read-ReadsAs b.store key u again b.tx valid r.opened).returns
    ∙ ap ok (shown r.fixed)
    ∙ sym (read-ReadsAs a.store key u check a.tx valid o).returns
  where
    v : Option Value
    v = seen a.tx a.store key

    r : Repeats u glob key v b
    r =
        Reach-Repeats u glob key v
          (record {
            ordered = Step-SessionIsOrdered u glob (λ k. k ≢ key) (reads key check) h;
            opened = rw (read-ReadsAs a.store key u check a.tx valid o).frame.state o;
            fixed = read-Fixed u a.store key check a.tx valid o c;
          })
          p

    shown : Fixed key v b.tx.items → seen b.tx b.store key ≡ v
    shown f = rw f.held f.shows_it
