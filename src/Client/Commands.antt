-- ===== src/Client/Commands.antt =====
-- src/client_impl.cpp: the queue of commands, what the event loop does with it, and the calls of the
-- user's threads: create_tx, ping, fetch_sessions.
use nplex_cpp.Prelude.{
  ℕ, zero, suc, ◌+◌, ◌%◌, ◌^◌, Bool, true, false, not, List, [], ◌∷◌, ◌++◌, Option, none, some,
  is_some, leb, ◌==◌, if◌then◌else◌, length, get_elem?,
}
use nplex_cpp.Result.{
  Exec, pure, throw, follow, queue_overflow, client_closed, not_connected, too_many_txs,
  no_permission, no_user,
}
use nplex_cpp.User.{User}
use nplex_cpp.Schema.{Request}
use nplex_cpp.Tx.{Tx, Isolation, new_tx}
use nplex_cpp.Tx.Submit.{fail_submit}
use nplex_cpp.Messaging.{create_ping_msg, create_sessions_msg, create_submit_msg}
use nplex_cpp.Client.{Client, ClientState, Command, Body, World, submit, ping, sessions, failed}
use nplex_cpp.Client.Core.{is_closed, next_cid, on_tx, reply, send, abort, purge_unused_txs}

-- A closed client drops the command. The sum is taken in uint32_t, as m_params.max_active_txs is.
unfoldable pub push_command : Command → Exec Client (Unit {0})
push_command cmd c =
    if is_closed c.state
    then pure tt c
    else if leb ((c.max_active_txs + 3) % 2 ^ 32) (length c.commands)
    then throw queue_overflow c
    else let cs = c.commands ++ cmd ∷ [] in
      pure tt (record c {
        commands = cs;
        wakeups = (if length cs == 1 then c.wakeups + 1 else c.wakeups);
      })

-- The request gets a fresh correlation id, is sent, and waits for its response.
unfoldable pub send_request : World → Body → (ℕ → Request) → Exec Client (Unit {0})
send_request w body msg c =
    let cid = c.correlation in
    follow (send w (msg cid) (record c { correlation = next_cid cid })) λ _ c1.
      pure tt (record c1 { requests = c1.requests ++ record { cid = cid; body = body } ∷ [] })

abbrev pub process_close_cmd : Client → Client
process_close_cmd = abort

unfoldable pub send_tx : World → ℕ → Bool → Option Tx → Exec Client (Unit {0})
unfolding send_request
send_tx w i force none c = pure tt c
send_tx w i force (some tx) c =
    send_request w (submit i force) (λ cid. create_submit_msg cid c.store.rev force tx) c

unfoldable pub process_submit_cmd : World → ℕ → Bool → Exec Client (Unit {0})
unfolding send_tx
process_submit_cmd w i force c =
    if not (is_some c.con) then on_tx i fail_submit c else send_tx w i force (get_elem? c.heap i) c

unfoldable pub process_ping_cmd : World → ℕ → List ℕ → Exec Client (Unit {0})
unfolding send_request
process_ping_cmd w id payload c =
    if not (is_some c.con)
    then pure tt (reply id failed c)
    else send_request w (ping id payload) (λ cid. create_ping_msg cid payload) c

unfoldable pub process_sessions_cmd : World → ℕ → Bool → Exec Client (Unit {0})
unfolding send_request
process_sessions_cmd w id stream c =
    if not (is_some c.con)
    then pure tt (reply id failed c)
    else send_request w (sessions id stream) (λ cid. create_sessions_msg cid stream) c

unfoldable pub process_command : World → Command → Exec Client (Unit {0})
unfolding process_submit_cmd process_ping_cmd process_sessions_cmd
process_command w Command.close c = pure tt (process_close_cmd c)
process_command w (Command.request (submit i force)) c = process_submit_cmd w i force c
process_command w (Command.request (ping id payload)) c = process_ping_cmd w id payload c
process_command w (Command.request (sessions id stream)) c = process_sessions_cmd w id stream c

-- A round of the `while (true)`: it takes one command off the queue, and `next` is the rest.
unfoldable pub drain_round : World → Exec Client (Unit {0}) → List Command → Exec Client (Unit {0})
drain_round w next [] c = pure tt c
drain_round w next (cmd ∷ cmds) c =
    follow (process_command w cmd (record c { commands = cmds })) λ _. next

-- the loop, on fuel
unfoldable pub drain : World → ℕ → Exec Client (Unit {0})
unfolding drain_round
drain w zero c = pure tt c
drain w (suc n) c = drain_round w (drain w n) c.commands c

-- As many rounds as there are commands are enough.
unfoldable pub process_commands : World → Exec Client (Unit {0})
unfolding drain
process_commands w c = if is_closed c.state then pure tt c else drain w (length c.commands) c

-- make_shared<transaction_impl>, m_transactions.insert
abbrev pub insert_tx : Isolation → Bool → Client → Client
insert_tx isolation read_only c = record c {
  heap = c.heap ++ new_tx c.user c.store.rev isolation read_only ∷ [];
  transactions = length c.heap ∷ c.transactions;
}

-- It returns the index of the transaction. The constructor throws when no user has logged in yet.
unfoldable pub create_tx : World → Isolation → Bool → Exec Client ℕ
create_tx w isolation read_only c =
    if is_closed c.state
    then throw client_closed c
    else let c1 = purge_unused_txs w c in
      if leb c1.max_active_txs (length c1.transactions)
      then throw too_many_txs c1
      else if not (is_some c1.user)
      then throw no_user c1
      else pure (length c1.heap) (insert_tx isolation read_only c1)

-- `in_loop`: the call comes from the thread of the event loop.
unfoldable pub ping_call : World → Bool → ℕ → List ℕ → Exec Client (Unit {0})
unfolding process_ping_cmd push_command
ping_call w in_loop id payload c =
    if is_closed c.state
    then throw client_closed c
    else if in_loop
    then process_ping_cmd w id payload c
    else push_command (Command.request (ping id payload)) c

abbrev pub has_login : ClientState → Bool
has_login ClientState.offline = false
has_login ClientState.connecting = false
has_login ClientState.closed = false
has_login _ = true

unfoldable pub may_monitor : Option User → Bool
may_monitor none = false
may_monitor (some user) = user.can_monitor

unfoldable pub fetch_sessions : World → Bool → ℕ → Bool → Exec Client (Unit {0})
unfolding process_sessions_cmd push_command may_monitor
fetch_sessions w in_loop id stream c =
    if not (has_login c.state)
    then throw not_connected c
    else if not (may_monitor c.user)
    then throw no_permission c
    else if in_loop
    then process_sessions_cmd w id stream c
    else push_command (Command.request (sessions id stream)) c
