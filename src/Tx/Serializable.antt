-- ===== src/Tx/Serializable.antt =====
-- The snapshot that a SERIALIZABLE transaction reads from.
use nplex_cpp.Prelude.{
  ◌≡◌, refl, ap, ◌∙◌, Bool, true, false, not, List, [], ◌∷◌, Option, none, some, inl, inr, arith,
  if◌then◌else◌,
}
use nplex_cpp.Prelude.Order.{Bytes, bytes_order, same, same_self, same-cases}
use nplex_cpp.OrderedMap.{Map, find, find-emplace, find-nil}
use nplex_cpp.Result.{ok}
use nplex_cpp.Types.{Value, Change}
use nplex_cpp.Key.{Utf8, is_valid_key}
use nplex_cpp.User.{Glob, User}
use nplex_cpp.Store.{Store}
use nplex_cpp.Store.Replays.{Fits, Replays, write}
use nplex_cpp.Store.Changes.{apply_update-Replays}
use nplex_cpp.Tx.{Tx, Item, ItemAction, Isolation, is_open, new_tx}
use nplex_cpp.Tx.Access.{is_read_or_snapshot, is_snapshot, read}
use nplex_cpp.Tx.Track.{value_before, track_item, track_change, update_serializable}
use nplex_cpp.Tx.View.{SameFrame, visible, shows, read-ReadsAs}
use nplex_cpp.Tx.Items.{
  ItemStep, keeps, writes, pins, touches, content_of_store, read-ItemStep, ensure-ItemStep,
}
use nplex_cpp.Tx.Writing.{upsert_internal-ItemStep, remove-ItemStep}
use nplex_cpp.Store.Ordered.{IsOrdered}
use nplex_cpp.Tx.Scanned.{
  matches, leaves, shows-leaves, find-for_each_internal, for_each_internal-ScansAs,
}
use nplex_cpp.Tx.Ordered.{SessionIsOrdered, Step-SessionIsOrdered}
use nplex_cpp.Tx.Tracking.{update-Follows, items-update}
use nplex_cpp.Tx.Session.{
  Session, Step, Reach, commits, reads, ensures, upserts, removes, scans, here, next,
}

abbrev pub View : Type 0
View = Bytes → Option Value

-- The transaction upserted or removed the key itself.
abbrev pub is_own_write : Option Item → Bool
is_own_write none = false
is_own_write (some item) = not (is_read_or_snapshot item.action)

is_own_write-leaves :
    (sel rc : Bool) (i : Option Item) (e : Option Value)
    → is_own_write (leaves sel rc i e) ≡ false
    → is_own_write i ≡ false
is_own_write-leaves sel rc none e h = refl
is_own_write-leaves false rc (some item) e h = h
is_own_write-leaves true rc (some item) e h = ground arith

-- What the item, or else the current value, shows is `old`, unless the transaction wrote the key.
abbrev Clean : Option Item → Option Value → Option Value → Type 0
Clean o now old = is_own_write o ≡ false → shows o now ≡ old

abbrev IsSnapshot : View → Map Bytes Item → View → Type 0
IsSnapshot old m now = (k : Bytes) → Clean (find k m) (now k) (old k)

value_before-found : (c : Change) (v : Option Value) → Fits c → v ≡ c.old_value → value_before c ≡ v
value_before-found c v f e = ground arith

-- One key has a new item, which shows the old value unless it is the transaction's own.
put-IsSnapshot :
    (old now : View) (key : Bytes) (item : Item) (m m' : Map Bytes Item)
    → ((k : Bytes) → find k m' ≡ (if same k key then some item else find k m))
    → Clean (some item) (now key) (old key)
    → IsSnapshot old m now
    → IsSnapshot old m' now
put-IsSnapshot old now key item m m' e c h =
    λ k. elim (same-cases k key) [ inl (b, eq) ↦ rw (e k, b) (rw eq c) | inr b ↦ rw (e k, b) (h k) ]

-- A change of a key that has an item shows in no read.
write-IsSnapshot :
    (old now : View) (c : Change) (m : Map Bytes Item) (item : Item)
    → find c.key m ≡ some item
    → IsSnapshot old m now
    → IsSnapshot old m (write c now)
write-IsSnapshot old now c m item e h = λ k. elim (same-cases k c.key) [
  | inl (b, eq) ↦ rw (b, eq, e) (rw (eq, e) at (h k))
  | inr b ↦ rw b (h k)
]

track_item-IsSnapshot :
    (old now : View) (c : Change) (t : Tx) (o : Option Item)
    → find c.key t.items ≡ o
    → Fits c
    → now c.key ≡ c.old_value
    → IsSnapshot old t.items now
    → IsSnapshot old (track_item c o t).items (write c now)
unfolding track_item
track_item-IsSnapshot old now c t (some item) n f e h = write-IsSnapshot old now c t.items item n h
track_item-IsSnapshot old now c t none n f e h =
    write-IsSnapshot old now c _ saved
      (rw (find-emplace c.key c.key saved t.items n) (rw (same_self c.key)))
      (put-IsSnapshot old now c.key saved t.items _ (λ k. find-emplace c.key k saved t.items n)
        (λ _. value_before-found c (now c.key) f e ∙ (rw n at (h c.key)) refl) h)
  where
    saved : Item
    saved = record { action = ItemAction.snapshot; value = value_before c }

update_serializable-IsSnapshot :
    (old now later : View) (cs : List Change) (t : Tx)
    → Replays now cs later
    → IsSnapshot old t.items now
    → IsSnapshot old (update_serializable cs t).items later
unfolding update_serializable track_change
update_serializable-IsSnapshot old now later [] t r h = λ k. rw (r k) (h k)
update_serializable-IsSnapshot old now later (c ∷ cs) t r h =
    update_serializable-IsSnapshot old (write c now) later cs (track_change c t) r.2
      (track_item-IsSnapshot old now c t (find c.key t.items) refl r.0 r.1 h)

not_own :
    (item : Item) → is_read_or_snapshot item.action ≡ false → is_own_write (some item) ≡ false → ⊥
not_own item a own = ground arith

snapshot_shows :
    (item : Item) (v : Option Value)
    → is_snapshot item.action ≡ true
    → (is_own_write (some item) ≡ false → visible item ≡ v)
    → item.value ≡ v
snapshot_shows item v a h = ground arith

ItemStep-IsSnapshot :
    (old now : View) {w : Bool} {key : Bytes} {m m' : Map Bytes Item}
    → ItemStep w key now m m'
    → IsSnapshot old m now
    → IsSnapshot old m' now
ItemStep-IsSnapshot old now (keeps e) h = rw e h
ItemStep-IsSnapshot old now {key = key} {m = m} {m' = m'} (writes item _ a e) h =
    put-IsSnapshot old now key item m m' e (λ own. absurd (not_own item a own)) h
ItemStep-IsSnapshot old now {key = key} {m = m} {m' = m'} (pins n e) h =
    put-IsSnapshot old now key _ m m' e (λ _. (rw n at (h key)) refl) h
ItemStep-IsSnapshot old now {key = key} {m = m} {m' = m'} (touches item n a e) h =
    put-IsSnapshot old now key _ m m' e (λ _. snapshot_shows item (old key) a (rw n at (h key))) h

-- A scan shows of each key what was shown before it, and makes no key the transaction's own.
leaves-IsSnapshot :
    (old : View) (s : Store) (sel : Bytes → Bool) (rc : Bool) (m m' : Map Bytes Item)
    → ((k : Bytes) → find k m' ≡ leaves (sel k) rc (find k m) (find k s.entries))
    → IsSnapshot old m (content_of_store s)
    → IsSnapshot old m' (content_of_store s)
leaves-IsSnapshot old s sel rc m m' q h = λ k own.
    rw (q k) (shows-leaves (sel k) rc (find k m) (find k s.entries))
    ∙ h k (is_own_write-leaves (sel k) rc (find k m) (find k s.entries) (rw (q k) at own))

module _ (u : Utf8) (glob : Glob) where
  -- What holds between the transaction's own calls and the commits of others.
  record Reads (old : View) (a : Session) : Type 0 where
    ordered : SessionIsOrdered a
    opened : is_open a.tx.state ≡ true
    isolation : a.tx.isolation ≡ Isolation.serializable
    snapshot : IsSnapshot old a.tx.items (content_of_store a.store)

  own-Reads :
      (old : View) (a : Session) (t : Tx) {w : Bool} {key : Bytes}
      → SessionIsOrdered (record { tx = t; store = a.store })
      → ItemStep w key (content_of_store a.store) a.tx.items t.items × SameFrame a.tx t
      → Reads old a
      → Reads old (record { tx = t; store = a.store })
  own-Reads old a t o (step, frame) r = record {
    ordered = o;
    opened = rw frame.state r.opened;
    isolation = frame.isolation ∙ r.isolation;
    snapshot = ItemStep-IsSnapshot old (content_of_store a.store) step r.snapshot;
  }

  Step-Reads :
      (old : View) (W : Bytes → Type 0) {a b : Session}
      → Step u glob W a b
      → Reads old a
      → Reads old b
  Step-Reads old W {a = a} (commits upd c e) r =
      let f = (update-Follows glob c.0 a.tx).frame in
      record {
        ordered = Step-SessionIsOrdered u glob W (commits upd c e) r.ordered;
        opened = rw f.state r.opened;
        isolation = f.isolation ∙ r.isolation;
        snapshot = rw (items-update glob c.0 a.tx r.opened r.isolation) (
            update_serializable-IsSnapshot old (content_of_store a.store) _ c.0 a.tx
              (apply_update-Replays u upd a.store e) r.snapshot);
      }
  Step-Reads old W {a = a} (reads key check) r =
      own-Reads old a _ (Step-SessionIsOrdered u glob W (reads key check) r.ordered)
        (read-ItemStep a.store key true u check a.tx) r
  Step-Reads old W {a = a} (ensures p) r =
      own-Reads old a _ (Step-SessionIsOrdered u glob W (ensures p) r.ordered)
        (ensure-ItemStep a.store [] true p a.tx) r
  Step-Reads old W {a = a} (upserts key content force n) r =
      own-Reads old a _ (Step-SessionIsOrdered u glob W (upserts key content force n) r.ordered)
        (upsert_internal-ItemStep a.store key u glob content force a.tx) r
  Step-Reads old W {a = a} (removes key n) r =
      own-Reads old a _ (Step-SessionIsOrdered u glob W (removes key n) r.ordered)
        (remove-ItemStep a.store key u glob a.tx) r
  Step-Reads old W {a = a} (scans pattern) r =
      let h = r.ordered in
      let f =
        (for_each_internal-ScansAs glob a.store pattern a.tx h.items (h.store).entries).frame in
      record {
        ordered = Step-SessionIsOrdered u glob W (scans pattern) h;
        opened = rw f.state r.opened;
        isolation = f.isolation ∙ r.isolation;
        snapshot =
            leaves-IsSnapshot old a.store (matches glob pattern) _ _ _
              (find-for_each_internal glob a.store pattern a.tx h.items (h.store).entries)
              r.snapshot;
      }

  Reach-Reads :
      (old : View) (W : Bytes → Type 0) {a b : Session}
      → Reads old a
      → Reach u glob W a b
      → Reads old b
  Reach-Reads old W r here = r
  Reach-Reads old W r (next p s) = Step-Reads old W s (Reach-Reads old W r p)

  -- A transaction that begins now.
  abbrev pub begin : Option User → Isolation → Bool → Store → Session
  begin user isolation ro s = record { tx = new_tx user s.rev isolation ro; store = s }

  -- In a SERIALIZABLE transaction a read of a key that the transaction has not itself upserted or
  -- removed returns the value that the key had when the transaction began, whatever commits of other
  -- clients, calls of its own and scans of any pattern came in between, in any order. The maps of the
  -- store are in order when it begins.
  pub serializable_read :
      (user : Option User) (ro : Bool) (s : Store) {W : Bytes → Type 0} {a : Session}
      → IsOrdered s
      → Reach u glob W (begin user Isolation.serializable ro s) a
      → (key : Bytes) (check : Bool) → is_valid_key u key ≡ true
      → is_own_write (find key a.tx.items) ≡ false
      → (read u a.store key check a.tx).0 ≡ ok (find key s.entries)
  serializable_read user ro s {W = W} {a = a} h p key check valid own =
      (read-ReadsAs a.store key u check a.tx valid r.opened).returns ∙ ap ok (r.snapshot key own)
    where
      r : Reads (content_of_store s) a
      r =
          Reach-Reads (content_of_store s) W
            (record {
              ordered = record { items = tt; store = h };
              opened = refl;
              isolation = refl;
              snapshot = λ k own. rw find-nil refl;
            })
            p
