-- ===== src/Client/Commit.antt =====
-- src/client_impl.cpp, process_update: one committed update goes into the store, to the open
-- transactions, and to the accepted transaction that it is the commit of.
use nplex_cpp.Prelude.{
  ℕ, Bool, false, not, ◌||◌, List, [], ◌∷◌, Option, none, some, ltb, ◌==◌, if◌then◌else◌, get_elem?,
  set,
}
use nplex_cpp.Result.{Exec, pure, follow}
use nplex_cpp.Types.{Change}
use nplex_cpp.Schema.{Update}
use nplex_cpp.Store.{apply_update}
use nplex_cpp.Tx.{Tx, is_open}
use nplex_cpp.Tx
use nplex_cpp.Tx.Track
use nplex_cpp.Tx.Submit.{fail_submit, confirm_commit}
use nplex_cpp.Client.{Client, Accepted, World}
use nplex_cpp.Client.Core.{on_tx, purge_unused_txs}

-- m_store->update(upd)
unfoldable pub update_store : World → Update → Exec Client (List Change × ℕ)
update_store w upd c = let r = apply_update w.utf8 upd c.store in (r.0, record c { store = r.1 })

-- The loop over accepted transactions that the server should have committed before.
unfoldable pub discard_accepted : ℕ → List Accepted → Exec Client (Unit {0})
discard_accepted rev [] c = pure tt c
discard_accepted rev (a ∷ as') c =
    let rest =
      follow (on_tx a.tx fail_submit (record c { accepted = as' })) λ _. discard_accepted rev as' in
    if ltb a.erev rev then rest else pure tt c

-- tx.use_count() == 1 || tx->is_closed()
unfoldable pub is_unused : World → List Tx → ℕ → Bool
is_unused w heap i =
    not (w.is_owned i)
    || (elim (get_elem? heap i) [ none ↦ false | some tx ↦ Tx.is_closed tx.state ])

unfoldable pub update_tx : World → List Change → ℕ → Option Tx → List Tx → List Tx
update_tx w cs i none heap = heap
update_tx w cs i (some tx) heap =
    if not (w.is_owned i) || Tx.is_closed tx.state
    then heap
    else if is_open tx.state
    then set heap i (Track.update w.glob cs tx)
    else heap

unfoldable pub update_txs : World → List Change → List ℕ → List Tx → List Tx
unfolding update_tx
update_txs w cs [] heap = heap
update_txs w cs (i ∷ is) heap = update_txs w cs is (update_tx w cs i (get_elem? heap i) heap)

unfoldable pub any_unused : World → List Tx → List ℕ → Bool
unfolding is_unused
any_unused w heap [] = false
any_unused w heap (i ∷ is) = is_unused w heap i || any_unused w heap is

unfoldable pub update_transactions : World → List Change → Client → Client
unfolding update_txs any_unused
update_transactions w cs c =
    let c1 = record c { heap = update_txs w cs c.transactions c.heap } in
    if any_unused w c.heap c.transactions then purge_unused_txs w c1 else c1

unfoldable pub confirm : ℕ → List Accepted → Exec Client (Unit {0})
confirm rev [] c = pure tt c
confirm rev (a ∷ as') c =
    if a.erev == rev then on_tx a.tx confirm_commit (record c { accepted = as' }) else pure tt c

unfoldable pub process_update : World → Update → Exec Client (Unit {0})
unfolding update_store discard_accepted update_transactions confirm
process_update w upd c = follow (update_store w upd c) λ r c1.
    follow (discard_accepted upd.rev c1.accepted c1)
      λ _ c2. let c3 = update_transactions w r.0 c2 in confirm upd.rev c3.accepted c3
