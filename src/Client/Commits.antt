-- ===== src/Client/Commits.antt =====
-- What one update of the server does to the transactions: process_update of src/client_impl.cpp.
use nplex_cpp.Prelude.{
  ℕ, ◌≡◌, refl, ap, ◌∙◌, subst, true, false, not, ◌||◌, List, [], ◌∷◌, none, some, Option-cases,
  Bool-cases, inl, inr, get_elem?, get_elem?-set, get_elem?-set_same, arith,
}
use nplex_cpp.Result.{Result, ok, follow-returns}
use nplex_cpp.Types.{Change}
use nplex_cpp.Schema.{Update}
use nplex_cpp.Store.{Store, apply_update}
use nplex_cpp.Tx.{Tx, State, SubmitResult, Outcome, is_open, is_submitted, is_accepted, set_state}
use nplex_cpp.Tx
use nplex_cpp.Tx.Submit.{fulfil, confirm_commit}
use nplex_cpp.Client.{Client, Accepted, World}
use nplex_cpp.Client.Core.{on_tx, on_tx_found, purge_unused_txs}
use nplex_cpp.Client.Commit.{
  update_store, discard_accepted, update_tx, update_txs, update_transactions, confirm,
  process_update,
}

module _ (w : World) (cs : List Change) where
  pub update_transactions-accepted :
      (c : Client) → (update_transactions w cs c).accepted ≡ c.accepted
  unfolding update_transactions purge_unused_txs
  update_transactions-accepted c = ground arith

  pub update_transactions-heap :
      (c : Client) → (update_transactions w cs c).heap ≡ update_txs w cs c.transactions c.heap
  unfolding update_transactions purge_unused_txs
  update_transactions-heap c = ground arith

  pub update_transactions-store : (c : Client) → (update_transactions w cs c).store ≡ c.store
  unfolding update_transactions purge_unused_txs
  update_transactions-store c = ground arith

  -- A transaction that is not open stays.
  update_tx-idle :
      (j i : ℕ) (heap : List Tx) {tx : Tx}
      → get_elem? heap i ≡ some tx
      → is_open tx.state ≡ false
      → get_elem? (update_tx w cs j (get_elem? heap j) heap) i ≡ some tx
  unfolding update_tx
  update_tx-idle j i heap {tx = tx} h o = elim (Option-cases (get_elem? heap j)) [
    | inl e ↦ rw e h
    | inr (y, e) ↦ rw e (elim (Bool-cases (not (w.is_owned j) || Tx.is_closed y.state)) [
      | inl t ↦ rw t h
      | inr t ↦ rw t (elim (Bool-cases (is_open y.state)) [
        | inr q ↦ rw q h
        | inl q ↦ rw q (get_elem?-set_same heap j i _ e h (λ p. absurd (clash y q p)))
      ])
    ])
  ]
    where
      clash : (y : Tx) → is_open y.state ≡ true → y ≡ tx → ⊥
      clash y q p = cc

  update_txs-idle :
      (is : List ℕ) (i : ℕ) (heap : List Tx) {tx : Tx}
      → get_elem? heap i ≡ some tx
      → is_open tx.state ≡ false
      → get_elem? (update_txs w cs is heap) i ≡ some tx
  unfolding update_txs
  update_txs-idle [] i heap h o = h
  update_txs-idle (j ∷ is) i heap h o = update_txs-idle is i _ (update_tx-idle j i heap h o) o

discard_accepted-front :
    (rev : ℕ) (a : Accepted) (as' : List Accepted) (c : Client)
    → a.erev ≡ rev
    → discard_accepted rev (a ∷ as') c ≡ (ok tt, c)
unfolding discard_accepted
discard_accepted-front rev a as' c e = ground arith

confirm-front :
    (rev : ℕ) (a : Accepted) (as' : List Accepted) (c : Client)
    → a.erev ≡ rev
    → confirm rev (a ∷ as') c ≡ on_tx a.tx confirm_commit (record c { accepted = as' })
unfolding confirm
confirm-front rev a as' c e = ground arith

-- An update that the store takes, and that is the next commit of the accepted transactions.
process_update-front :
    (w : World) (upd : Update) (c : Client) (a : Accepted) (as' : List Accepted)
    {r : List Change × ℕ}
    → (apply_update w.utf8 upd c.store).0 ≡ ok r
    → c.accepted ≡ a ∷ as'
    → a.erev ≡ upd.rev
    → process_update w upd c
      ≡ on_tx a.tx confirm_commit
          (record (update_transactions w r.0
            (record c { store = (apply_update w.utf8 upd c.store).1 })) { accepted = as' })
unfolding process_update update_store
process_update-front w upd c a as' {r = r} h acc e =
    let c1 = record c { store = (apply_update w.utf8 upd c.store).1 } in
    follow-returns (update_store w upd c) _ r h
    ∙ follow-returns (discard_accepted upd.rev c.accepted c1) _ tt (ap (λ q. q.0) front)
    ∙ ap
        (λ q.
          confirm upd.rev (update_transactions w r.0 q.1).accepted (update_transactions w r.0 q.1))
        front
    ∙ ap (λ q. confirm upd.rev q (update_transactions w r.0 c1))
        (update_transactions-accepted w r.0 c1 ∙ acc)
    ∙ confirm-front upd.rev a as' (update_transactions w r.0 c1) e
  where
    front :
        discard_accepted upd.rev c.accepted
          (record c { store = (apply_update w.utf8 upd c.store).1 })
        ≡ (ok tt, record c { store = (apply_update w.utf8 upd c.store).1 })
    front = rw acc (discard_accepted-front upd.rev a as' _ e)

abbrev pub committed_tx : Tx → Tx
committed_tx tx = record tx {
  state = State.committed;
  promise = record tx.promise { outcome = some (Outcome.value SubmitResult.committed) };
}

-- What holds after the update with which the server commits the transaction at `i`.
pub record Commits (i : ℕ) (tx : Tx) (s : Store) (rest : List Accepted)
    (r : Result (Unit {0}) × Client) : Type 0 where
  pub returns : r.0 ≡ ok tt
  pub committed : get_elem? r.1.heap i ≡ some (committed_tx tx)
  pub store : r.1.store ≡ s
  pub accepted : r.1.accepted ≡ rest

confirm_commit-accepted :
    (tx : Tx)
    → is_accepted tx.state ≡ true
    → tx.promise.outcome ≡ none
    → confirm_commit tx ≡ (ok tt, committed_tx tx)
unfolding confirm_commit fulfil
confirm_commit-accepted tx a p = ground arith

on_tx-Commits :
    (i : ℕ) (tx : Tx) (c : Client)
    → get_elem? c.heap i ≡ some tx
    → is_accepted tx.state ≡ true
    → tx.promise.outcome ≡ none
    → Commits i tx c.store c.accepted (on_tx i confirm_commit c)
unfolding on_tx on_tx_found
on_tx-Commits i tx c h a p = rw h (
    rw (confirm_commit-accepted tx a p) (record {
      returns = refl;
      committed = get_elem?-set c.heap i (committed_tx tx) h;
      store = refl;
      accepted = refl;
    }))

accepted-not_open : (tx : Tx) → is_accepted tx.state ≡ true → is_open tx.state ≡ false
accepted-not_open tx a = ground arith

-- The server's update at the revision that the first accepted transaction waits for, where the store
-- takes it, and the transaction is ACCEPTED with an empty promise: the handler returns, the
-- transaction is COMMITTED and its promise holds COMMITTED, nothing else of it has changed, the store
-- is the updated one, and the transaction has left the queue of accepted ones.
pub process_update-Commits :
    (w : World) (upd : Update) (c : Client) (a : Accepted) (as' : List Accepted) (tx : Tx)
    (r : List Change × ℕ)
    → (apply_update w.utf8 upd c.store).0 ≡ ok r
    → c.accepted ≡ a ∷ as'
    → a.erev ≡ upd.rev
    → get_elem? c.heap a.tx ≡ some tx
    → is_accepted tx.state ≡ true
    → tx.promise.outcome ≡ none
    → Commits a.tx tx (apply_update w.utf8 upd c.store).1 as' (process_update w upd c)
process_update-Commits w upd c a as' tx r h acc e t s p =
    rw (process_update-front w upd c a as' h acc e) (
      subst (λ q. Commits a.tx tx q as' (on_tx a.tx confirm_commit c4))
        (update_transactions-store w r.0 c1) (on_tx-Commits a.tx tx c4 held s p))
  where
    c1 : Client
    c1 = record c { store = (apply_update w.utf8 upd c.store).1 }

    c4 : Client
    c4 = record (update_transactions w r.0 c1) { accepted = as' }

    not_open : is_open tx.state ≡ false
    not_open = accepted-not_open tx s

    held : get_elem? c4.heap a.tx ≡ some tx
    held =
        rw (update_transactions-heap w r.0 c1)
          (update_txs-idle w r.0 c.transactions a.tx c.heap t not_open)
