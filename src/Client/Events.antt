-- ===== src/Client/Events.antt =====
-- The events of the loop that runs a client, and the calls of other threads between them:
-- src/client_impl.cpp.
use nplex_cpp.Prelude.{
  ℕ, ◌+◌, ◌^◌, ◌<◌, ◌≡◌, ◌≤◌, sym, Bool, true, false, not, ◌&&◌, ◌||◌, List, [], ◌∷◌, ◌++◌, Option,
  none, some, is_some, leb, if-elim, length, get_elem?, arith, refl, ◌%◌,
}
use nplex_cpp.Result.{Exec, pure}
use nplex_cpp.Schema.{Message, SubmitResponse}
use nplex_cpp.Tx.{Tx}
use nplex_cpp.Connection.{err_con_lost}
use nplex_cpp.Client.{Client, ClientState, Command, Pending, World, submit}
use nplex_cpp.Client.Core.{is_closed, set_state, abort, cancel_requests}
use nplex_cpp.Client.Link.{
  is_offline, try_to_connect, on_connection_established, schedule_reconnect, retry_later,
  are_all_connections_closed, is_current, lose_connection, on_connection_closed, on_connection_lost,
}
use nplex_cpp.Client.Commands.{push_command, process_commands}
use nplex_cpp.Client.Receive.{on_msg_received, process_submit_resp}
use nplex_cpp.Client.Answers.{Answers, all_before, process_submit_resp-Answers}
use nplex_cpp.Client.Trimming.{
  disconnect_current-Trims, abort-Trims, set_state-Trims, cancel_requests-Trims,
}
use nplex_cpp.Client.Trims.{
  Between, Trims, TrimsBy, Trims-refl, Trims-same, Trims-trans, Trims-follow,
}
use nplex_cpp.Client.Pipeline.{InOrder, ProceedsBy, Proceeds-Trims, process_commands-Proceeds}
use nplex_cpp.Client.Ordering.{on_msg_received-Proceeds, on_connection_established-Proceeds}

-- What libuv calls back, by the connection where there is one, and a command pushed by a user's thread.
pub data Event : Type 0 where
  connected : ℕ → Event
  closed : ℕ → Event
  received : ℕ → Message → Event
  woken : Event
  silent : Event
  reconnects : Event
  interrupted : Event
  pushed : Command → Event

unfoldable pub handle : World → Event → Exec Client (Unit {0})
handle w (connected i) c = on_connection_established w i c
handle w (closed i) c = on_connection_closed w i c
handle w (received i msg) c = on_msg_received w i msg c
handle w woken c = process_commands w c
handle w silent c = pure tt (on_connection_lost c)
handle w reconnects c = try_to_connect w c
handle w interrupted c = pure tt (abort c)
handle w (pushed cmd) c = push_command cmd c

try_to_connect-Trims : (w : World) (c : Client) → TrimsBy c (try_to_connect w c)
unfolding try_to_connect
try_to_connect-Trims w c =
    if-elim (TrimsBy c) (is_closed c.state || not (is_offline c.state)) _ _ (Trims-refl c) (
      Trims-trans (Trims-same c _ refl refl)
        (Trims-trans (set_state-Trims ClientState.connecting _) (Trims-same _ _ refl refl)))

retry_later-Trims : (o : Option ℕ) (c : Client) → Trims c (retry_later o c)
unfolding retry_later schedule_reconnect
retry_later-Trims none c = abort-Trims c
retry_later-Trims (some wait) c =
    if-elim (Trims c) (is_closed c.state) _ _ (Trims-refl c) (Trims-same c _ refl refl)

lose_connection-Trims : (w : World) (c : Client) → TrimsBy c (lose_connection w c)
unfolding lose_connection
lose_connection-Trims w c =
    let c0 = record (set_state ClientState.offline c) {
      con = none;
      data_cid = 0;
      sessions_cid = 0;
    } in
    let c2 = (cancel_requests c0).1 in
    let c3 = record c2 { con_lost_timer = false } in
    Trims-trans (set_state-Trims ClientState.offline c) (
      Trims-trans (Trims-same (set_state ClientState.offline c) c0 refl refl) (
        Trims-follow c0 (cancel_requests c0) _ (cancel_requests-Trims c0) (λ _.
          Trims-trans (Trims-same c2 c3 refl refl) (
            if-elim (TrimsBy c3) w.retries_lost _ _ (try_to_connect-Trims w c3) (abort-Trims c3)))))

on_connection_closed-Trims :
    (w : World) (i : ℕ) (c : Client) → TrimsBy c (on_connection_closed w i c)
unfolding on_connection_closed
on_connection_closed-Trims w i c = if-elim (TrimsBy c) (is_closed c.state) _ _ (Trims-refl c) (
    if-elim (TrimsBy c) (not (is_some c.con) && are_all_connections_closed c.connections) _ _
      (retry_later-Trims w.failed_wait c)
      (if-elim (TrimsBy c) (not (is_current i c.con)) _ _ (Trims-refl c)
        (lose_connection-Trims w c)))

push_command-Trims : (cmd : Command) (c : Client) → TrimsBy c (push_command cmd c)
unfolding push_command
push_command-Trims cmd c = if-elim (TrimsBy c) (is_closed c.state) _ _ (Trims-refl c) (
    if-elim (TrimsBy c) (leb ((c.max_active_txs + 3) % 2 ^ 32) (length c.commands)) _ _
      (Trims-refl c) (Trims-same c _ refl refl))

-- How many correlation ids an event may use.
abbrev pub ids : Event → Client → ℕ
ids (connected i) c = 1
ids (received i msg) c = 1
ids woken c = length c.commands
ids (closed i) c = 0
ids silent c = 0
ids reconnects c = 0
ids interrupted c = 0
ids (pushed cmd) c = 0

-- Every event of the loop and every pushed command, whether its handler returns or throws, leaves the
-- waiting requests in the order of their correlation ids and below the next id, as long as the ids
-- that it may use do not reach 2 ^ 64.
pub handle-Proceeds :
    (w : World) (e : Event) (c : Client)
    → InOrder c
    → c.correlation + ids e c < 2 ^ 64
    → ProceedsBy (ids e c) c (handle w e c)
unfolding handle on_connection_lost
handle-Proceeds w (connected i) c h room = on_connection_established-Proceeds w c h room i
handle-Proceeds w (closed i) c h room = Proceeds-Trims h (on_connection_closed-Trims w i c)
handle-Proceeds w (received i msg) c h room = on_msg_received-Proceeds w c h room i msg
handle-Proceeds w woken c h room = process_commands-Proceeds w c h room
handle-Proceeds w silent c h room =
    Proceeds-Trims h
      (Trims-trans (disconnect_current-Trims err_con_lost c) (Trims-same _ _ refl refl))
handle-Proceeds w reconnects c h room = Proceeds-Trims h (try_to_connect-Trims w c)
handle-Proceeds w interrupted c h room = Proceeds-Trims h (abort-Trims c)
handle-Proceeds w (pushed cmd) c h room = Proceeds-Trims h (push_command-Trims cmd c)

Between-all_before :
    (lo hi : ℕ) (older : List Pending) (p : Pending) (rest : List Pending)
    → Between lo hi (older ++ p ∷ rest)
    → (all_before p.cid older ≡ true) × (lo ≤ p.cid)
unfolding all_before
Between-all_before lo hi [] p rest b = (refl, b.0)
Between-all_before lo hi (x ∷ older) p rest b =
    let k = Between-all_before (x.cid + 1) hi older p rest b.1 in
    (ground (arith, k.0, k.1), omega (arith, k.1, b.0))

-- Where the waiting requests are in order, the response to any of them that submits a transaction with
-- an empty promise reaches that transaction: the handler returns, the transaction gets the result, its
-- request and the older ones are gone, and it waits for its commit if and only if it was accepted.
pub process_submit_resp-InOrder :
    (resp : SubmitResponse) (i : ℕ) (force : Bool) (tx : Tx) (c : Client) (older : List Pending)
    (p : Pending) (rest : List Pending)
    → InOrder c
    → c.requests ≡ older ++ p ∷ rest
    → p.cid ≡ resp.cid
    → p.body ≡ submit i force
    → get_elem? c.heap i ≡ some tx
    → tx.promise.outcome ≡ none
    → Answers resp i tx rest c.accepted (process_submit_resp resp c)
process_submit_resp-InOrder resp i force tx c older p rest o q e body h empty =
    process_submit_resp-Answers resp i force tx c older p rest q
      (rw (sym e) (Between-all_before 0 c.correlation older p rest (rw q at o)).0) e body h empty
