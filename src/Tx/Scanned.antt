-- ===== src/Tx/Scanned.antt =====
-- What for_each_internal of src/transaction_impl.cpp returns and leaves.
use nplex_cpp.Prelude.{
  ◌+◌, ◌≡◌, refl, sym, subst, ◌∙◌, ap, Bool, true, false, List, [], Option, none, some, is_some,
  inl, inr, length, if◌then◌else◌, Bool-cases, arith,
}
use nplex_cpp.Prelude.Order.{Bytes, bytes_order}
use nplex_cpp.OrderedMap.{Map, find, find-nil}
use nplex_cpp.OrderedMap.Sorted.{IsSorted}
use nplex_cpp.Types.{Value}
use nplex_cpp.User.{Glob}
use nplex_cpp.Store.{Store}
use nplex_cpp.Tx.{Tx, Item}
use nplex_cpp.Tx.Access.{is_read_committed}
use nplex_cpp.Tx.View.{SameFrame, SameFrame-record, SameFrame-trans, seen, shows}
use nplex_cpp.Tx.Scan.{Scan, prefix_of, start_at, scan, or_all, for_each_internal, pin_all}
use nplex_cpp.Tx.Prefix.{is_selected, start_at-IsRange, find-start_at, selected-starts}
use nplex_cpp.Tx.Visits.{Visit, visit_of, trace, merge-trace, Traces, trace-Traces}
use nplex_cpp.Tx.Effects.{
  shown_visit, pinned_visit, after_visit, or_pinned, collect-IsSorted, find-collect, find-pin_all,
  Visited, visit_all-Visited,
}

-- A key that matches the pattern and starts with what the pattern starts with.
unfoldable pub matches : Glob → Bytes → Bytes → Bool
matches glob pattern k = is_selected glob (or_all pattern) (prefix_of (or_all pattern)) k

-- The values that the transaction sees under the matching keys, each key once and in order; the
-- transaction sees the same afterwards, and above READ_COMMITTED has an item of each of those keys.
pub record ScansAs (glob : Glob) (s : Store) (pattern : Bytes) (t : Tx)
    (r : List (Bytes × Value) × Tx) : Type 0 where
  pub found : (k : Bytes) → find k r.0 ≡ (if matches glob pattern k then seen t s k else none)
  pub sorted : IsSorted r.0
  pub frame : SameFrame t r.1
  pub unmoved : (k : Bytes) → seen r.1 s k ≡ seen t s k
  pub holds :
      (k : Bytes)
      → is_read_committed t.isolation ≡ false
      → matches glob pattern k ≡ true
      → is_some (seen t s k) ≡ true
      → is_some (find k r.1.items) ≡ true

-- What the transaction has of a key afterwards, from what it had (`i`), from what the store has (`e`),
-- and from whether the key is selected and nothing is pinned.
abbrev pub leaves : Bool → Bool → Option Item → Option Value → Option Item
leaves sel rc i e =
    let v = if sel then visit_of i e else none in
    or_pinned (after_visit v i) (if rc then none else pinned_visit v)

pub shows-leaves :
    (sel rc : Bool) (i : Option Item) (e : Option Value) → shows (leaves sel rc i e) e ≡ shows i e
shows-leaves false true none e = refl
shows-leaves false true (some item) e = refl
shows-leaves false false none e = refl
shows-leaves false false (some item) e = refl
shows-leaves true true none none = refl
shows-leaves true true none (some value) = refl
shows-leaves true true (some item) e = ground arith
shows-leaves true false none none = refl
shows-leaves true false none (some value) = refl
shows-leaves true false (some item) e = ground arith

shown_visit-shows : (i : Option Item) (e : Option Value) → shown_visit (visit_of i e) ≡ shows i e
shown_visit-shows (some item) e = refl
shown_visit-shows none none = refl
shown_visit-shows none (some value) = refl

leaves_some :
    (i : Option Item) (e : Option Value)
    → is_some (shows i e) ≡ true
    → is_some (leaves true false i e) ≡ true
leaves_some none none h = h
leaves_some none (some value) h = refl
leaves_some (some item) e h = ground arith

module _ (glob : Glob) (s : Store) (pattern : Bytes) (t : Tx) (ordered : IsSorted t.items)
    (stored_order : IsSorted s.entries) where
  abbrev prefix : Bytes
  prefix = prefix_of pattern

  visits : Map Bytes Visit
  visits =
      trace glob pattern prefix
        (length (start_at prefix t.items) + length (start_at prefix s.entries))
        (start_at prefix t.items) (start_at prefix s.entries)

  visits-Traces :
      Traces glob pattern prefix (start_at prefix t.items) (start_at prefix s.entries) visits
  unfolding visits
  visits-Traces =
      trace-Traces glob pattern prefix _ (start_at prefix t.items) (start_at prefix s.entries)
        (start_at-IsRange prefix t.items ordered) (start_at-IsRange prefix s.entries stored_order)
        (omega arith)

  find-visits :
      (k : Bytes)
      → find k visits ≡ (
          if is_selected glob pattern prefix k
          then visit_of (find k t.items) (find k s.entries)
          else none)
  find-visits k = visits-Traces.finds k ∙ elim (Bool-cases (is_selected glob pattern prefix k)) [
    | inl e ↦
        rw
          (
            e,
            find-start_at prefix k t.items (selected-starts glob pattern prefix k e),
            find-start_at prefix k s.entries (selected-starts glob pattern prefix k e),
          )
          refl
    | inr e ↦ rw e refl
  ]

  abbrev start : Scan
  start = record { tx = t; found = []; pinned = [] }

  scan-Visited : Visited visits start (scan glob pattern s t)
  unfolding scan visits
  scan-Visited =
      subst (Visited visits start)
        (sym (
          merge-trace glob pattern prefix _ (start_at prefix t.items) (start_at prefix s.entries)
            start))
        (visit_all-Visited visits start visits-Traces.sorted)

  left : Tx
  left = record (scan glob pattern s t).tx {
    items = pin_all (scan glob pattern s t).pinned (scan glob pattern s t).tx.items;
  }

  find-pinned :
      (k : Bytes)
      → find k (scan glob pattern s t).pinned
        ≡ (if is_read_committed t.isolation then none else pinned_visit (find k visits))
  find-pinned k = rw scan-Visited.pinned (elim (Bool-cases (is_read_committed t.isolation)) [
    | inl e ↦ rw e (find-nil k)
    | inr e ↦ rw e (find-collect pinned_visit refl k visits visits-Traces.sorted)
  ])

  find-left :
      (k : Bytes)
      → find k left.items
        ≡ leaves
            (is_selected glob pattern prefix k)
            (is_read_committed t.isolation)
            (find k t.items)
            (find k s.entries)
  unfolding left
  find-left k =
      find-pin_all k (scan glob pattern s t).pinned (scan glob pattern s t).tx.items
      ∙ rw (scan-Visited.items k, find-pinned k, find-visits k) refl

  find-found :
      (k : Bytes)
      → find k (scan glob pattern s t).found
        ≡ (if is_selected glob pattern prefix k then seen t s k else none)
  find-found k =
      ap (find k) scan-Visited.found
      ∙ find-collect shown_visit refl k visits visits-Traces.sorted
      ∙ rw (find-visits k) (elim (Bool-cases (is_selected glob pattern prefix k)) [
        | inl e ↦ rw e (shown_visit-shows (find k t.items) (find k s.entries))
        | inr e ↦ rw e refl
      ])

  IsSorted-found : IsSorted (scan glob pattern s t).found
  IsSorted-found =
      rw (scan-Visited.found) (collect-IsSorted shown_visit visits visits-Traces.sorted)

pub find-for_each_internal :
    (glob : Glob) (s : Store) (pattern : Bytes) (t : Tx)
    → IsSorted t.items
    → IsSorted s.entries
    → (k : Bytes)
    → find k (for_each_internal glob s pattern t).1.items
      ≡ leaves
          (matches glob pattern k)
          (is_read_committed t.isolation)
          (find k t.items)
          (find k s.entries)
unfolding for_each_internal matches left
find-for_each_internal glob s pattern t h e k = find-left glob s (or_all pattern) t h e k

-- for_each_internal finds what the transaction sees under every key that matches the pattern and starts
-- with the part of the pattern before its first * or ?, in the order of the keys; it changes nothing that
-- the transaction sees, and pins each key found unless the level is READ_COMMITTED. The items and the
-- entries of the store are in order.
pub for_each_internal-ScansAs :
    (glob : Glob) (s : Store) (pattern : Bytes) (t : Tx)
    → IsSorted t.items
    → IsSorted s.entries
    → ScansAs glob s pattern t (for_each_internal glob s pattern t)
unfolding for_each_internal matches left
for_each_internal-ScansAs glob s pattern t h e = record {
  found = λ k. find-found glob s (or_all pattern) t h e k;
  sorted = IsSorted-found glob s (or_all pattern) t h e;
  frame =
      SameFrame-trans (scan-Visited glob s (or_all pattern) t h e).frame (SameFrame-record _ _ _ _);
  unmoved = λ k.
      rw (find-left glob s (or_all pattern) t h e k)
        (shows-leaves _ _ (find k t.items) (find k s.entries));
  holds = λ k rc m o.
      rw (find-left glob s (or_all pattern) t h e k, rc, m)
        (leaves_some (find k t.items) (find k s.entries) o);
}
