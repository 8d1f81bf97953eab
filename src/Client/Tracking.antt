-- ===== src/Client/Tracking.antt =====
-- An open transaction under process_update of src/client_impl.cpp.
use nplex_cpp.Prelude.{
  ℕ, ◌≡◌, ◌≢◌, refl, sym, ◌∙◌, subst, Bool, true, false, not, ◌&&◌, ◌||◌, List, [], ◌∷◌, Option,
  none, some, Bool-cases, inl, inr, get_elem?, get_elem?-set, get_elem?-set_ne, ltb, ◌==◌, arith,
}
use nplex_cpp.Result.{ok, Exec, follow, follow-state, follow-elim, follow-returns}
use nplex_cpp.Types.{Change}
use nplex_cpp.Schema.{Update}
use nplex_cpp.Store.{apply_update}
use nplex_cpp.Tx.{Tx, State, is_open, is_submitted, is_accepted}
use nplex_cpp.Tx
use nplex_cpp.Tx.Submit.{fail_submit, confirm_commit}
use nplex_cpp.Tx.Track
use nplex_cpp.Tx.Tracking.{update-Follows}
use nplex_cpp.Client.{Client, Accepted, World}
use nplex_cpp.Client.Core.{on_tx, on_tx_found}
use nplex_cpp.Client.Commit.{
  update_store, discard_accepted, update_tx, update_txs, update_transactions, confirm,
  process_update,
}
use nplex_cpp.Client.Commits.{update_transactions-heap}
use nplex_cpp.Client.Heap.{on_tx-same}

abbrev pub holds : ℕ → List ℕ → Bool
holds i [] = false
holds i (j ∷ js) = i == j || holds i js

abbrev pub distinct : List ℕ → Bool
distinct [] = true
distinct (j ∷ js) = not (holds j js) && distinct js

ne_of_eqb : (i j : ℕ) → (i == j) ≡ false → i ≢ j
ne_of_eqb i j h = ground arith

eq_of_eqb : (i j : ℕ) → (i == j) ≡ true → i ≡ j
eq_of_eqb i j h = ground arith

pub distinct-head :
    (j : ℕ) (is : List ℕ) → distinct (j ∷ is) ≡ true → (holds j is ≡ false) × (distinct is ≡ true)
distinct-head j is d = ground arith

open-not_closed : (tx : Tx) → is_open tx.state ≡ true → Tx.is_closed tx.state ≡ false
open-not_closed tx o = ground arith

fail_submit-open : (tx : Tx) → is_open tx.state ≡ true → (fail_submit tx).1 ≡ tx
unfolding fail_submit
fail_submit-open tx o = ground arith

confirm_commit-open : (tx : Tx) → is_open tx.state ≡ true → (confirm_commit tx).1 ≡ tx
unfolding confirm_commit
confirm_commit-open tx o = ground arith

module _ (w : World) (cs : List Change) where
  update_tx-other :
      (j i : ℕ) (o : Option Tx) (heap : List Tx)
      → (i == j) ≡ false
      → get_elem? (update_tx w cs j o heap) i ≡ get_elem? heap i
  unfolding update_tx
  update_tx-other j i none heap n = refl
  update_tx-other j i (some y) heap n =
      elim (Bool-cases (not (w.is_owned j) || Tx.is_closed y.state)) [
        | inl t ↦ rw t refl
        | inr t ↦ rw t (elim (Bool-cases (is_open y.state)) [
          | inr q ↦ rw q refl
          | inl q ↦ rw q (get_elem?-set_ne heap j i _ (λ e. ne_of_eqb i j n (sym e)))
        ])
      ]

  update_txs-other :
      (is : List ℕ) (i : ℕ) (heap : List Tx)
      → holds i is ≡ false
      → get_elem? (update_txs w cs is heap) i ≡ get_elem? heap i
  unfolding update_txs
  update_txs-other [] i heap n = refl
  update_txs-other (j ∷ is) i heap n = elim (Bool-cases (i == j)) [
    | inl e ↦ absurd (cc)
    | inr e ↦
        update_txs-other is i (update_tx w cs j (get_elem? heap j) heap) (rw e at n)
        ∙ update_tx-other j i (get_elem? heap j) heap e
  ]

  module _ (i : ℕ) (tx : Tx) (owned : w.is_owned i ≡ true) (o : is_open tx.state ≡ true) where
    update_tx-hit :
        (heap : List Tx)
        → get_elem? heap i ≡ some tx
        → get_elem? (update_tx w cs i (get_elem? heap i) heap) i ≡ some (Track.update w.glob cs tx)
    unfolding update_tx
    update_tx-hit heap h =
        rw (h, owned, open-not_closed tx o, o) (get_elem?-set heap i (Track.update w.glob cs tx) h)

    update_txs-hit :
        (is : List ℕ) (heap : List Tx)
        → holds i is ≡ true
        → distinct is ≡ true
        → get_elem? heap i ≡ some tx
        → get_elem? (update_txs w cs is heap) i ≡ some (Track.update w.glob cs tx)
    unfolding update_txs
    update_txs-hit [] heap m d h = absurd (cc)
    update_txs-hit (j ∷ is) heap m d h = elim (Bool-cases (i == j)) [
      | inl e ↦
          subst
            (λ q.
              get_elem? (update_txs w cs is (update_tx w cs q (get_elem? heap q) heap)) i
              ≡ some (Track.update w.glob cs tx))
            (eq_of_eqb i j e)
            (update_txs-other is i (update_tx w cs i (get_elem? heap i) heap)
                (subst (λ q. holds q is ≡ false) (sym (eq_of_eqb i j e)) (distinct-head j is d).0)
              ∙ update_tx-hit heap h)
      | inr e ↦
          update_txs-hit is (update_tx w cs j (get_elem? heap j) heap) (rw e at m)
            (distinct-head j is d).1 (update_tx-other j i (get_elem? heap j) heap e ∙ h)
    ]

on_tx-transactions :
    (i : ℕ) (f : Exec Tx (Unit {0})) (c : Client) → (on_tx i f c).1.transactions ≡ c.transactions
unfolding on_tx on_tx_found
on_tx-transactions i f c = ground arith

discard_accepted-keeps :
    (rev i : ℕ) (tx : Tx) (ts : List ℕ) (as' : List Accepted) (c : Client)
    → is_open tx.state ≡ true
    → get_elem? c.heap i ≡ some tx
    → c.transactions ≡ ts
    → (get_elem? (discard_accepted rev as' c).1.heap i ≡ some tx)
      × ((discard_accepted rev as' c).1.transactions ≡ ts)
unfolding discard_accepted
discard_accepted-keeps rev i tx ts [] c o h t = (h, t)
discard_accepted-keeps rev i tx ts (a ∷ as') c o h t = elim (Bool-cases (ltb a.erev rev)) [
  | inr e ↦ rw e (h, t)
  | inl e ↦ rw e (
      follow-state (λ s. (get_elem? s.heap i ≡ some tx) × (s.transactions ≡ ts))
        (on_tx a.tx fail_submit (record c { accepted = as' })) _ (h1, t1)
        (λ _. discard_accepted-keeps rev i tx ts as' _ o h1 t1))
]
  where
    h1 : get_elem? (on_tx a.tx fail_submit (record c { accepted = as' })).1.heap i ≡ some tx
    h1 = on_tx-same fail_submit a.tx i (record c { accepted = as' }) h (fail_submit-open tx o)

    t1 : (on_tx a.tx fail_submit (record c { accepted = as' })).1.transactions ≡ ts
    t1 = on_tx-transactions a.tx fail_submit (record c { accepted = as' }) ∙ t

confirm-keeps :
    (rev i : ℕ) (tx : Tx) (as' : List Accepted) (c : Client)
    → is_open tx.state ≡ true
    → get_elem? c.heap i ≡ some tx
    → get_elem? (confirm rev as' c).1.heap i ≡ some tx
unfolding confirm
confirm-keeps rev i tx [] c o h = h
confirm-keeps rev i tx (a ∷ as') c o h = elim (Bool-cases (a.erev == rev)) [
  | inl e ↦
      rw e (
        on_tx-same confirm_commit a.tx i (record c { accepted = as' }) h (confirm_commit-open tx o))
  | inr e ↦ rw e h
]

-- When the store takes an update with the changes `r.0` and the handler returns, each transaction that
-- is open, is among those of the client exactly once, and has another owner, has been updated by those
-- changes once, and neither the requests that the update settles nor the other transactions touch it.
pub process_update-Tracks :
    (w : World) (upd : Update) (c : Client) (i : ℕ) (tx : Tx) (r : List Change × ℕ)
    → (apply_update w.utf8 upd c.store).0 ≡ ok r
    → (process_update w upd c).0 ≡ ok tt
    → w.is_owned i ≡ true
    → holds i c.transactions ≡ true
    → distinct c.transactions ≡ true
    → is_open tx.state ≡ true
    → get_elem? c.heap i ≡ some tx
    → get_elem? (process_update w upd c).1.heap i ≡ some (Track.update w.glob r.0 tx)
unfolding process_update update_store
process_update-Tracks w upd c i tx r h returned owned m d o t = rw e (
    follow-elim (λ _ s. get_elem? s.heap i ≡ some (Track.update w.glob r.0 tx))
      (discard_accepted upd.rev c.accepted c1) _ (rw e at returned)
      (λ _ _ _.
        confirm-keeps upd.rev i (Track.update w.glob r.0 tx) _ (update_transactions w r.0 c2)
          (rw (update-Follows w.glob r.0 tx).frame.state o)
          (rw (update_transactions-heap w r.0 c2) (
            update_txs-hit w r.0 i tx owned o c2.transactions c2.heap (rw kept.1 m) (rw kept.1 d)
              kept.0))))
  where
    c1 : Client
    c1 = record c { store = (apply_update w.utf8 upd c.store).1 }

    c2 : Client
    c2 = (discard_accepted upd.rev c.accepted c1).1

    kept : (get_elem? c2.heap i ≡ some tx) × (c2.transactions ≡ c.transactions)
    kept = discard_accepted-keeps upd.rev i tx c.transactions c.accepted c1 o t refl

    e :
        process_update w upd c
        ≡ follow (discard_accepted upd.rev c.accepted c1) (λ _ s.
          confirm upd.rev (update_transactions w r.0 s).accepted (update_transactions w r.0 s))
    e = follow-returns (update_store w upd c) _ r h
