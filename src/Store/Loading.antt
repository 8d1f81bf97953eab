-- ===== src/Store/Loading.antt =====
-- A snapshot against the abstract database: `load` of src/store.cpp.
use nplex_cpp.Prelude.{
  ℕ, ◌≤◌, ◌<◌, ◌≡◌, refl, sym, ap, ◌∙◌, subst, false, List, [], ◌∷◌, Option, none, some, ltb,
  if◌then◌else◌, arith,
}
use nplex_cpp.Prelude.Order.{Bytes, bytes_order}
use nplex_cpp.OrderedMap.{find-nil}
use nplex_cpp.Result.{Result, ok, follow-returns}
use nplex_cpp.Schema.{Update, Snapshot}
use nplex_cpp.Key.{Utf8}
use nplex_cpp.Store.{Store, or_empty, empty_store, apply_update, load_updates, load}
use nplex_cpp.Store.Abstract.{content, or_else, written, removed, updated_content, IsWellFormed}
use nplex_cpp.Store.Content.{Implements, apply_update-Implements}

-- The updates of a snapshot, one behind the other.
unfoldable pub loaded_content : List (Option Update) → (Bytes → Option Bytes) → Bytes → Option Bytes
loaded_content [] f = f
loaded_content (none ∷ upds) f = f
loaded_content (some upd ∷ upds) f = loaded_content upds (updated_content upd f)

-- The revisions grow, from `last` to that of the snapshot, and each update is well formed.
abbrev pub IsAscending : Utf8 → ℕ → ℕ → List (Option Update) → Type 0
IsAscending u rev last [] = Unit {0}
IsAscending u rev last (none ∷ upds) = ⊥
IsAscending u rev last (some upd ∷ upds) =
    (last < upd.rev) × (upd.rev ≤ rev) × IsWellFormed u upd × IsAscending u rev upd.rev upds

updated_content-same :
    (upd : Update) (f g : Bytes → Option Bytes) (k : Bytes)
    → f k ≡ g k
    → updated_content upd f k ≡ updated_content upd g k
unfolding updated_content
updated_content-same upd f g k e =
    ap
      (λ v.
        if removed k (or_empty upd.deletes)
        then none
        else or_else (written k (or_empty upd.upserts)) v)
      e

loaded_content-same :
    (upds : List (Option Update)) (f g : Bytes → Option Bytes)
    → ((k : Bytes) → f k ≡ g k)
    → (k : Bytes) → loaded_content upds f k ≡ loaded_content upds g k
unfolding loaded_content
loaded_content-same [] f g e k = e k
loaded_content-same (none ∷ upds) f g e k = e k
loaded_content-same (some upd ∷ upds) f g e k =
    loaded_content-same upds (updated_content upd f) (updated_content upd g)
      (λ k. updated_content-same upd f g k (e k)) k

pub record Loads (f : Bytes → Option Bytes) (r : Result (Unit {0}) × Store) : Type 0 where
  pub returns : r.0 ≡ ok tt
  pub contents : (k : Bytes) → content r.1 k ≡ f k

-- One update, where the others are loaded behind it.
load_update-Loads :
    (u : Utf8) (rev : ℕ) (upd : Update) (upds : List (Option Update)) (s : Store)
    → upd.rev ≤ rev
    → Implements u upd (content s) (apply_update u upd s)
    → Loads
        (loaded_content upds (content (apply_update u upd s).1))
        (load_updates u rev upds (apply_update u upd s).1)
    → Loads (loaded_content (some upd ∷ upds) (content s)) (load_updates u rev (some upd ∷ upds) s)
unfolding load_updates loaded_content
load_update-Loads u rev upd upds s bound imp ih =
    rw
      (
        fits,
        follow-returns (apply_update u upd s) (λ _. load_updates u rev upds) imp.value imp.returns,
      )
      (record {
        returns = ih.returns;
        contents = λ k.
            ih.contents k
            ∙ loaded_content-same upds (content (apply_update u upd s).1)
                (updated_content upd (content s)) imp.contents k;
      })
  where
    fits : ltb rev upd.rev ≡ false
    fits = ground arith

load_updates-Loads :
    (u : Utf8) (rev : ℕ) (upds : List (Option Update)) (s : Store)
    → IsAscending u rev s.rev upds
    → Loads (loaded_content upds (content s)) (load_updates u rev upds s)
unfolding load_updates loaded_content
load_updates-Loads u rev [] s h = record { returns = refl; contents = λ k. refl }
load_updates-Loads u rev (none ∷ upds) s h = absurd h
load_updates-Loads u rev (some upd ∷ upds) s (newer, bound, good, rest) =
    let imp = apply_update-Implements u upd s newer good in
    load_update-Loads u rev upd upds s bound imp (
      load_updates-Loads u rev upds (apply_update u upd s).1
        (subst (λ n. IsAscending u rev n upds) (sym imp.rev) rest))

-- A snapshot whose updates are well formed, with growing revisions of at least 1 and at most its own,
-- is loaded, whatever the store held before: the call returns, the store has the revision of the
-- snapshot, and its content is what the updates give, one behind the other, from nothing.
pub load-loaded_content :
    (u : Utf8) (snapshot : Snapshot) (s : Store)
    → IsAscending u snapshot.rev 0 (or_empty snapshot.updates)
    → ((load u (some snapshot) s).0 ≡ ok tt)
      × ((load u (some snapshot) s).1.rev ≡ snapshot.rev)
      × ((k : Bytes)
          → content (load u (some snapshot) s).1 k
            ≡ loaded_content (or_empty snapshot.updates) (λ _. none) k)
unfolding load
load-loaded_content u snapshot s h =
    rw
      (follow-returns (load_updates u snapshot.rev (or_empty snapshot.updates) start) _ tt
        l.returns)
      (
        refl,
        refl,
        λ k.
            l.contents k
            ∙ loaded_content-same (or_empty snapshot.updates) (content start) (λ _. none) nothing k,
      )
  where
    start : Store
    start = record empty_store { heap = s.heap }

    l :
        Loads
          (loaded_content (or_empty snapshot.updates) (content start))
          (load_updates u snapshot.rev (or_empty snapshot.updates) start)
    l = load_updates-Loads u snapshot.rev (or_empty snapshot.updates) start h

    nothing : (k : Bytes) → content start k ≡ none
    nothing k = rw find-nil refl
