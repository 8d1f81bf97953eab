-- ===== src/Tx/Visits.antt =====
-- Which keys the loop of for_each_internal goes through: src/transaction_impl.cpp.
use Prim.Native.Nat.{Ordering}
use Prim.Native.Nat.Ordering.{lt, eq, gt}
use nplex_cpp.Prelude.{
  ℕ, zero, suc, ◌+◌, ◌<◌, ◌≤◌, ◌≡◌, refl, sym, ◌∙◌, subst, true, false, [], ◌∷◌, Option, none, some,
  inl, inr, length, if◌then◌else◌, Bool-cases, arith,
}
use nplex_cpp.Prelude.Order.{
  Bytes, bytes_order, compare_bytes, bytes_gt, bytes_eq, same, same_self, same-cases,
}
use nplex_cpp.OrderedMap.{Map, find, find-nil}
use nplex_cpp.OrderedMap.Sorted.{Above, IsSorted, Above-trans, find-Above, find-head, find-tail}
use nplex_cpp.User.{Glob}
use nplex_cpp.Types.{Value}
use nplex_cpp.Tx.{Item}
use nplex_cpp.Tx.Scan.{advance, merge, merge_step, visit_item, visit_entry, Scan}
use nplex_cpp.Tx.Prefix.{IsRange, Advances, advance-Advances, is_selected, Stops}

tail : {V : Type 0} {p k : Bytes} {v : V} {m : Map Bytes V} → IsRange p ((k, v) ∷ m) → IsRange p m
tail r = record { sorted = (r.sorted).1; from = (r.from).1 }

-- A key that the loop handles: one of the transaction, or one that only the store has.
pub data Visit : Type 0 where
  own : Item → Visit
  stored : Value → Visit

trace_step :
    Map Bytes Item
    → Map Bytes Value
    → (Map Bytes Item → Map Bytes Value → Map Bytes Visit)
    → Map Bytes Visit
trace_step [] [] next = []
trace_step ((k, item) ∷ items) [] next = (k, own item) ∷ next items []
trace_step [] ((l, value) ∷ entries) next = (l, stored value) ∷ next [] entries
trace_step ((k, item) ∷ items) ((l, value) ∷ entries) next = elim (compare_bytes k l) [
  | lt ↦ (k, own item) ∷ next items ((l, value) ∷ entries)
  | gt ↦ (l, stored value) ∷ next ((k, item) ∷ items) entries
  | eq ↦ (k, own item) ∷ next items entries
]

-- what the transaction and the store have of a key
abbrev pub visit_of : Option Item → Option Value → Option Visit
visit_of (some item) v = some (own item)
visit_of none (some value) = some (stored value)
visit_of none none = none

abbrev pub visit : Bytes → Visit → Scan → Scan
visit k (own item) = visit_item k item
visit k (stored value) = visit_entry k value

abbrev pub visit_all : Map Bytes Visit → Scan → Scan
visit_all [] st = st
visit_all ((k, v) ∷ vs) st = visit_all vs (visit k v st)

module _ (glob : Glob) (pattern p : Bytes) where
  pub trace : ℕ → Map Bytes Item → Map Bytes Value → Map Bytes Visit
  trace zero items entries = []
  trace (suc fuel) items entries =
      trace_step (advance glob pattern p items) (advance glob pattern p entries) (trace fuel)

  trace_step-merge_step :
      (fuel : ℕ) (items : Map Bytes Item) (entries : Map Bytes Value) (st : Scan)
      → ((items : Map Bytes Item) (entries : Map Bytes Value) (st : Scan)
          → merge glob pattern p fuel items entries st ≡ visit_all (trace fuel items entries) st)
      → merge_step items entries (merge glob pattern p fuel) st
        ≡ visit_all (trace_step items entries (trace fuel)) st
  unfolding merge_step trace_step
  trace_step-merge_step fuel [] [] st ih = refl
  trace_step-merge_step fuel ((k, item) ∷ items) [] st ih = ih items [] (visit_item k item st)
  trace_step-merge_step fuel [] ((l, value) ∷ entries) st ih =
      ih [] entries (visit_entry l value st)
  trace_step-merge_step fuel ((k, item) ∷ items) ((l, value) ∷ entries) st ih =
      elim (compare_bytes k l)
        as (λ o.
          (elim o [
            | lt ↦ merge glob pattern p fuel items ((l, value) ∷ entries) (visit_item k item st)
            | gt ↦ merge glob pattern p fuel ((k, item) ∷ items) entries (visit_entry l value st)
            | eq ↦ merge glob pattern p fuel items entries (visit_item k item st)
          ])
          ≡ visit_all
              (elim o [
                | lt ↦ (k, own item) ∷ trace fuel items ((l, value) ∷ entries)
                | gt ↦ (l, stored value) ∷ trace fuel ((k, item) ∷ items) entries
                | eq ↦ (k, own item) ∷ trace fuel items entries
              ])
              st) [
                | lt ↦ ih items ((l, value) ∷ entries) (visit_item k item st)
                | gt ↦ ih ((k, item) ∷ items) entries (visit_entry l value st)
                | eq ↦ ih items entries (visit_item k item st)
              ]

  -- The loop visits the keys of its trace, in order.
  pub merge-trace :
      (fuel : ℕ) (items : Map Bytes Item) (entries : Map Bytes Value) (st : Scan)
      → merge glob pattern p fuel items entries st ≡ visit_all (trace fuel items entries) st
  unfolding merge trace
  merge-trace zero items entries st = refl
  merge-trace (suc fuel) items entries st =
      trace_step-merge_step fuel (advance glob pattern p items) (advance glob pattern p entries) st
        (λ i e s. merge-trace fuel i e s)

  -- The keys to stop at that the transaction or the store has, each once and in order.
  pub record Traces (items : Map Bytes Item) (entries : Map Bytes Value) (vs : Map Bytes Visit)
      : Type 0 where
    pub above : (b : Bytes) → Above b items → Above b entries → Above b vs
    pub sorted : IsSorted vs
    pub finds :
        (k : Bytes)
        → find k vs ≡ (
            if is_selected glob pattern p k then visit_of (find k items) (find k entries) else none)

  Traces-nil : Traces [] [] []
  Traces-nil = record {
    above = λ b x y. tt;
    sorted = tt;
    finds =
        λ k. ground (arith, find-nil {V = Item} k, find-nil {V = Value} k, find-nil {V = Visit} k);
  }

  -- One visit before those of what is left of the two maps.
  Traces-cons :
      (k : Bytes) (v : Visit) {items items' : Map Bytes Item} {entries entries' : Map Bytes Value}
      {vs : Map Bytes Visit}
      → is_selected glob pattern p k ≡ true
      → visit_of (find k items) (find k entries) ≡ some v
      → Above k items'
      → Above k entries'
      → ((j : Bytes)
          → same j k ≡ false
          → (find j items' ≡ find j items) × (find j entries' ≡ find j entries))
      → ((b : Bytes) → Above b items → Above b entries → compare_bytes b k ≡ lt)
      → Traces items' entries' vs
      → Traces items entries ((k, v) ∷ vs)
  unfolding find
  Traces-cons k v s e a b f g t = record {
    above = λ c x y. (g c x y, Above-trans c k _ (g c x y) (t.above k a b));
    sorted = (t.above k a b, t.sorted);
    finds = λ j. elim (same-cases j k) [
      | inl (h, q) ↦ rw (q, same_self k, s, e) refl
      | inr h ↦ rw (h, t.finds j, (f j h).0, (f j h).1) refl
    ];
  }

  module _ (next : Map Bytes Item → Map Bytes Value → Map Bytes Visit) where
    -- The rest of the trace, from smaller maps.
    abbrev Continues : ℕ → Type 0
    Continues n =
        (items : Map Bytes Item) (entries : Map Bytes Value)
        → IsRange p items
        → IsRange p entries
        → length items + length entries < n
        → Traces items entries (next items entries)

    trace_step-Traces :
        (items : Map Bytes Item) (entries : Map Bytes Value)
        → IsRange p items
        → IsRange p entries
        → Stops glob pattern p items
        → Stops glob pattern p entries
        → Continues (length items + length entries)
        → Traces items entries (trace_step items entries next)
    unfolding trace_step
    trace_step-Traces [] [] r q s t c = Traces-nil
    trace_step-Traces ((k, item) ∷ items) [] r q s t c =
        Traces-cons k (own item) s (rw (find-head k item items) refl) r.sorted.0 tt
          (λ j n. (sym (find-tail j k item items n), refl)) (λ b x y. x.0)
          (c items [] (tail r) q (omega arith))
    trace_step-Traces [] ((l, value) ∷ entries) r q s t c =
        Traces-cons l (stored value) t (rw (find-nil l, find-head l value entries) refl) tt
          q.sorted.0 (λ j n. (refl, sym (find-tail j l value entries n))) (λ b x y. y.0)
          (c [] entries r (tail q) (omega arith))
    trace_step-Traces ((k, item) ∷ items) ((l, value) ∷ entries) r q s t c =
        go (compare_bytes k l) refl
      where
        go :
            (o : Ordering)
            → compare_bytes k l ≡ o
            → Traces ((k, item) ∷ items) ((l, value) ∷ entries) (elim o [
              | lt ↦ (k, own item) ∷ next items ((l, value) ∷ entries)
              | gt ↦ (l, stored value) ∷ next ((k, item) ∷ items) entries
              | eq ↦ (k, own item) ∷ next items entries
            ])
        go lt e =
            Traces-cons k (own item) s (rw (find-head k item items) refl) r.sorted.0
              (e, Above-trans k l entries e q.sorted.0)
              (λ j n. (sym (find-tail j k item items n), refl)) (λ b x y. x.0)
              (c items ((l, value) ∷ entries) (tail r) q (omega arith))
        go gt e =
            Traces-cons l (stored value) t
              (rw
                (
                  find-Above l ((k, item) ∷ items)
                      (bytes_gt k l e, Above-trans l k items (bytes_gt k l e) r.sorted.0),
                  find-head l value entries,
                )
                refl)
              (bytes_gt k l e, Above-trans l k items (bytes_gt k l e) r.sorted.0) q.sorted.0
              (λ j n. (refl, sym (find-tail j l value entries n))) (λ b x y. y.0)
              (c ((k, item) ∷ items) entries r (tail q) (omega arith))
        go eq e =
            Traces-cons k (own item) s (rw (find-head k item items) refl) r.sorted.0
              (subst (λ j. Above j entries) (sym (bytes_eq k l e)) q.sorted.0)
              (λ j n. (
                sym (find-tail j k item items n),
                sym (find-tail j l value entries (rw (sym (bytes_eq k l e)) n)),
              ))
              (λ b x y. x.0) (c items entries (tail r) (tail q) (omega arith))

  Traces-Advances :
      {items items' : Map Bytes Item} {entries entries' : Map Bytes Value} {vs : Map Bytes Visit}
      → Advances glob pattern p items items'
      → Advances glob pattern p entries entries'
      → Traces items' entries' vs
      → Traces items entries vs
  Traces-Advances a b t = record {
    above = λ c x y. t.above c (a.above c x) (b.above c y);
    sorted = t.sorted;
    finds = λ k. t.finds k ∙ elim (Bool-cases (is_selected glob pattern p k)) [
      | inl e ↦ rw (e, a.finds k e, b.finds k e) refl
      | inr e ↦ rw e refl
    ];
  }

  pub trace-Traces :
      (fuel : ℕ) (items : Map Bytes Item) (entries : Map Bytes Value)
      → IsRange p items
      → IsRange p entries
      → length items + length entries ≤ fuel
      → Traces items entries (trace fuel items entries)
  unfolding trace
  trace-Traces zero [] [] r q h = Traces-nil
  trace-Traces zero (x ∷ items) entries r q h = absurd (omega arith)
  trace-Traces zero [] (x ∷ entries) r q h = absurd (omega arith)
  trace-Traces (suc fuel) items entries r q h =
      let a = advance-Advances glob pattern p items r in
      let b = advance-Advances glob pattern p entries q in
      Traces-Advances a b (
        trace_step-Traces (trace fuel) (advance glob pattern p items)
          (advance glob pattern p entries) a.range b.range a.stops b.stops
          (λ i e x y l. trace-Traces fuel i e x y (omega (arith, a.shorter, b.shorter))))
