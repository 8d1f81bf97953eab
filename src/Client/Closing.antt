-- ===== src/Client/Closing.antt =====
-- What closing and losing a connection leave behind: abort and cancel_requests of src/client_impl.cpp.
use nplex_cpp.Prelude.{
  ℕ, ◌≡◌, refl, ap, Bool, true, false, ◌&&◌, ◌||◌, List, [], ◌∷◌, none, some, map, get_elem?, arith,
}
use nplex_cpp.Result.{ok, follow-state}
use nplex_cpp.Tx.{Tx, is_submitted, is_accepted}
use nplex_cpp.Tx.Submit.{fail_submit}
use nplex_cpp.Connection.{Connection}
use nplex_cpp.Connection
use nplex_cpp.Client.Heap.{on_tx-same}
use nplex_cpp.Client.{Client, ClientState, Pending, Accepted, Body, submit, ping, sessions}
use nplex_cpp.Client.Core.{
  is_closed, on_tx, cancel, cancel_pending, cancel_accepted, cancel_requests, set_state, abort,
}

-- closed, or on its way there
abbrev pub is_shut : Connection → Bool
is_shut con = Connection.is_closed con.state || con.closing

unfoldable pub all_shut : List Connection → Bool
all_shut [] = true
all_shut (con ∷ cons) = is_shut con && all_shut cons

pub record IsShut (c : Client) : Type 0 where
  pub state : c.state ≡ ClientState.closed
  pub con : c.con ≡ none
  pub connections : all_shut c.connections ≡ true
  pub transactions : c.transactions ≡ []
  pub commands : c.commands ≡ []
  pub requests : c.requests ≡ []
  pub accepted : c.accepted ≡ []
  pub con_lost_timer : c.con_lost_timer ≡ false
  pub reconnect_timer : c.reconnect_timer ≡ false
  pub stopped : c.stopped ≡ true

disconnect-is_shut : (rc : ℕ) (con : Connection) → is_shut (Connection.disconnect rc con) ≡ true
unfolding Connection.disconnect
disconnect-is_shut rc con = ground arith

disconnect-all_shut :
    (rc : ℕ) (cons : List Connection) → all_shut (map (Connection.disconnect rc) cons) ≡ true
unfolding all_shut
disconnect-all_shut rc [] = refl
disconnect-all_shut rc (con ∷ cons) = simp (disconnect-is_shut rc con, disconnect-all_shut rc cons)

-- However a client that is not closed is aborted, it is closed then: no connection is current and
-- each is closed or closing, every queue is empty, no timer runs and the loop is told to stop.
pub abort-IsShut : (c : Client) → is_closed c.state ≡ false → IsShut (abort c)
unfolding abort set_state
abort-IsShut c h = record {
  state = simp h;
  con = simp h;
  connections = simp (h, disconnect-all_shut 1000 c.connections);
  transactions = simp h;
  commands = simp h;
  requests = simp h;
  accepted = simp h;
  con_lost_timer = simp h;
  reconnect_timer = simp h;
  stopped = simp h;
}

fail_submit-idle : (tx : Tx) → is_submitted tx.state ≡ false → fail_submit tx ≡ (ok tt, tx)
unfolding fail_submit
fail_submit-idle tx h = simp h

is_accepted-not_submitted : (tx : Tx) → is_accepted tx.state ≡ true → is_submitted tx.state ≡ false
is_accepted-not_submitted tx h = ground arith

fail_submit-same : (tx : Tx) → is_accepted tx.state ≡ true → (fail_submit tx).1 ≡ tx
fail_submit-same tx h = ap (λ r. r.1) (fail_submit-idle tx (is_accepted-not_submitted tx h))

module _ (i : ℕ) (tx : Tx) (acc : is_accepted tx.state ≡ true) where
  cancel-Stays :
      (b : Body) (c : Client)
      → get_elem? c.heap i ≡ some tx
      → get_elem? (cancel b c).1.heap i ≡ some tx
  unfolding cancel
  cancel-Stays (submit j force) c h = on_tx-same fail_submit j i c h (fail_submit-same tx acc)
  cancel-Stays (ping id payload) c h = h
  cancel-Stays (sessions id stream) c h = h

  cancel_pending-Stays :
      (ps : List Pending) (c : Client)
      → get_elem? c.heap i ≡ some tx
      → get_elem? (cancel_pending ps c).1.heap i ≡ some tx
  unfolding cancel_pending
  cancel_pending-Stays [] c h = h
  cancel_pending-Stays (p ∷ ps) c h =
      let h1 = cancel-Stays p.body (record c { requests = ps }) h in
      follow-state (λ s. get_elem? s.heap i ≡ some tx) (cancel p.body (record c { requests = ps }))
        _ h1 (λ _. cancel_pending-Stays ps _ h1)

  cancel_accepted-Stays :
      (as' : List Accepted) (c : Client)
      → get_elem? c.heap i ≡ some tx
      → get_elem? (cancel_accepted as' c).1.heap i ≡ some tx
  unfolding cancel_accepted
  cancel_accepted-Stays [] c h = h
  cancel_accepted-Stays (a ∷ as') c h =
      let h1 =
        on_tx-same fail_submit a.tx i (record c { accepted = as' }) h (fail_submit-same tx acc) in
      follow-state (λ s. get_elem? s.heap i ≡ some tx)
        (on_tx a.tx fail_submit (record c { accepted = as' })) _ h1
        (λ _. cancel_accepted-Stays as' _ h1)

-- `cancel_requests` leaves a transaction that is ACCEPTED exactly as it is: its state stays and its
-- promise is given nothing.
pub cancel_requests-Stays :
    (i : ℕ) (tx : Tx) (c : Client)
    → is_accepted tx.state ≡ true
    → get_elem? c.heap i ≡ some tx
    → get_elem? (cancel_requests c).1.heap i ≡ some tx
unfolding cancel_requests
cancel_requests-Stays i tx c acc h =
    let h1 = cancel_pending-Stays i tx acc c.requests c h in
    follow-state (λ s. get_elem? s.heap i ≡ some tx) (cancel_pending c.requests c) _ h1
      (λ _. cancel_accepted-Stays i tx acc _ _ h1)
