-- ===== src/Client/Core.antt =====
-- src/client_impl.cpp: set_state, cancel_requests, send, abort, purge_unused_txs and the parts that
-- all handlers call.
use nplex_cpp.Prelude.{
  ℕ, ◌+◌, ◌%◌, ◌^◌, Bool, true, false, not, ◌&&◌, List, [], ◌∷◌, ◌++◌, Option, none, some, map,
  if◌then◌else◌, get_elem?, set,
}
use nplex_cpp.Result.{Exec, pure, follow}
use nplex_cpp.Schema.{Request}
use nplex_cpp.Messaging.Framing.{frame_length}
use nplex_cpp.Tx.{Tx, State}
use nplex_cpp.Tx
use nplex_cpp.Tx.Submit.{fail_submit}
use nplex_cpp.Connection.{Connection, ConnectionState, err_closed_by_local}
use nplex_cpp.Connection
use nplex_cpp.Client.{
  Client, ClientState, Pending, Accepted, Body, Reply, World, submit, ping, sessions, failed,
}

abbrev pub is_closed : ClientState → Bool
is_closed ClientState.closed = true
is_closed _ = false

-- the correlation id is a size_t
abbrev pub next_cid : ℕ → ℕ
next_cid n = (n + 1) % 2 ^ 64

-- A change of one connection.
unfoldable pub on_connection : ℕ → (Connection → Connection) → Client → Client
on_connection i f c = elim (get_elem? c.connections i) [
  | none ↦ c
  | some con ↦ record c { connections = set c.connections i (f con) }
]

abbrev pub disconnect : ℕ → ℕ → Client → Client
disconnect i rc = on_connection i (Connection.disconnect rc)

-- m_con->disconnect(rc)
unfoldable pub disconnect_current : ℕ → Client → Client
unfolding on_connection
disconnect_current rc c = elim c.con [ none ↦ c | some i ↦ disconnect i rc c ]

-- A method of the transaction at an index, whose exception goes on through the client.
unfoldable pub on_tx_found : ℕ → (Exec Tx (Unit {0})) → Option Tx → Exec Client (Unit {0})
on_tx_found i f none c = pure tt c
on_tx_found i f (some tx) c = ((f tx).0, record c { heap = set c.heap i (f tx).1 })

unfoldable pub on_tx : ℕ → (Exec Tx (Unit {0})) → Exec Client (Unit {0})
unfolding on_tx_found
on_tx i f c = on_tx_found i f (get_elem? c.heap i) c

-- promise.set_value, promise.set_exception of a ping or sessions request
abbrev pub reply : ℕ → Reply → Client → Client
reply id r c = record c { replies = c.replies ++ (id, r) ∷ [] }

-- request_t::cancel
unfoldable pub cancel : Body → Exec Client (Unit {0})
unfolding on_tx
cancel (submit tx force) c = on_tx tx fail_submit c
cancel (ping id payload) c = pure tt (reply id failed c)
cancel (sessions id stream) c = pure tt (reply id failed c)

unfoldable pub cancel_pending : List Pending → Exec Client (Unit {0})
unfolding cancel
cancel_pending [] c = pure tt (record c { requests = [] })
cancel_pending (p ∷ ps) c =
    follow (cancel p.body (record c { requests = ps })) λ _. cancel_pending ps

unfoldable pub cancel_accepted : List Accepted → Exec Client (Unit {0})
unfolding on_tx
cancel_accepted [] c = pure tt (record c { accepted = [] })
cancel_accepted (a ∷ as') c =
    follow (on_tx a.tx fail_submit (record c { accepted = as' })) λ _. cancel_accepted as'

unfoldable pub cancel_requests : Exec Client (Unit {0})
unfolding cancel_pending cancel_accepted
cancel_requests c = follow (cancel_pending c.requests c) λ _ c1. cancel_accepted c1.accepted c1

-- The containers are emptied without a call of `cancel`. Their elements are destroyed, which is not modelled:
-- a promise of a ping or of a sessions request is broken then, and a transaction that no one else owns is
-- discarded.
abbrev pub clear_all : Client → Client
clear_all c = record c { transactions = []; commands = []; requests = []; accepted = [] }

-- Setting the state that it has already leaves everything as it is.
unfoldable pub set_state : ClientState → Client → Client
set_state state c =
    let c' = record c { state = state } in
    if is_closed c.state && is_closed state then c else if is_closed state then clear_all c' else c'

-- con->send(msg)
unfoldable pub send_on : World → ℕ → Request → Option Connection → Exec Client (Unit {0})
unfolding frame_length
send_on w i msg none c = pure tt c
send_on w i msg (some con) c =
    let sent = Connection.send (frame_length (w.wire.encode msg)) w.write_rc con in
    (sent.0, record c { connections = set c.connections i sent.1; sent = c.sent ++ msg ∷ [] })

-- `send` drops the message where there is no connection.
unfoldable pub send : World → Request → Exec Client (Unit {0})
unfolding send_on
send w msg c =
    if is_closed c.state
    then pure tt c
    else elim c.con [ none ↦ pure tt c | some i ↦ send_on w i msg (get_elem? c.connections i) c ]

unfoldable pub abort : Client → Client
unfolding set_state
abort c =
    if is_closed c.state
    then c
    else let c1 = record c {
      has_error = true;
      con = none;
      data_cid = 0;
      sessions_cid = 0;
      connections = map (Connection.disconnect err_closed_by_local) c.connections;
      con_lost_timer = false;
      reconnect_timer = false;
    } in
      record (set_state ClientState.closed c1) { commands = []; stopped = true }

unfoldable pub purge_from : World → List Tx → List ℕ → List ℕ
purge_from w heap [] = []
purge_from w heap (i ∷ is) =
    let rest = purge_from w heap is in
    if not (w.is_owned i) then rest else elim (get_elem? heap i) [
      | none ↦ rest
      | some tx ↦ if Tx.is_closed tx.state then rest else i ∷ rest
    ]

unfoldable pub purge_unused_txs : World → Client → Client
unfolding purge_from
purge_unused_txs w c = record c { transactions = purge_from w c.heap c.transactions }
