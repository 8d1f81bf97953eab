-- ===== src/Client/Link.antt =====
-- src/client_impl.cpp: the life of the connections of a client: try_to_connect, the events of a
-- connection, the timers, and the answer to a login.
use nplex_cpp.Prelude.{
  ℕ, ◌+◌, Bool, true, false, not, ◌&&◌, ◌||◌, List, [], ◌∷◌, Option, none, some, is_some, leb, ◌==◌,
  if◌then◌else◌, get_elem?,
}
use nplex_cpp.Result.{ok, err, Exec, pure, follow}
use nplex_cpp.Schema.{LoginResponse, LoginCode, AclTable}
use nplex_cpp.User.{User, Acl}
use nplex_cpp.Store.{or_empty}
use nplex_cpp.Connection.{Connection, err_already_connected, err_auth, err_con_lost}
use nplex_cpp.Connection
use nplex_cpp.Messaging.{create_login_msg, create_snapshot_msg, create_updates_msg}
use nplex_cpp.Client.{Client, ClientState, World}
use nplex_cpp.Client.Core.{
  is_closed, next_cid, disconnect, disconnect_current, set_state, send_on, send, abort,
  cancel_requests,
}

abbrev pub is_offline : ClientState → Bool
is_offline ClientState.offline = true
is_offline _ = false

-- The loop over the connections, which the first exception ends.
unfoldable pub connect_from : World → ℕ → Exec (List Connection) (Unit {0})
connect_from w i [] = pure tt []
connect_from w i (con ∷ cons) =
    let rest = connect_from w (i + 1) cons in
    let first = Connection.connect (w.connect_rc i) con in
    elim first.0 [ ok _ ↦ (rest.0, first.1 ∷ rest.1) | err e ↦ (err e, first.1 ∷ cons) ]

unfoldable pub try_to_connect : World → Exec Client (Unit {0})
unfolding connect_from
try_to_connect w c =
    if is_closed c.state || not (is_offline c.state)
    then pure tt c
    else let c1 =
        set_state ClientState.connecting (record c { con = none; reconnect_timer = false }) in
      let r = connect_from w 0 c1.connections in (r.0, record c1 { connections = r.1 })

unfoldable pub on_connection_established : World → ℕ → Exec Client (Unit {0})
on_connection_established w i c =
    if is_some c.con
    then pure tt (disconnect i err_already_connected c)
    else let cid = next_cid c.correlation in
      let c1 = record c { correlation = cid } in
      send_on w i (create_login_msg cid c.user_name c.password) (get_elem? c.connections i) c1

unfoldable pub are_all_connections_closed : List Connection → Bool
are_all_connections_closed [] = true
are_all_connections_closed (con ∷ cons) =
    Connection.is_closed con.state && are_all_connections_closed cons

unfoldable pub schedule_reconnect : Client → Client
schedule_reconnect c = if is_closed c.state then c else record c { reconnect_timer = true }

-- `failed_wait` is what the manager answers: none stands for a negative wait or an exception.
unfoldable pub retry_later : Option ℕ → Client → Client
unfolding schedule_reconnect
retry_later none c = abort c
retry_later (some wait) c = schedule_reconnect c

-- Case: current server connection failed
unfoldable pub lose_connection : World → Exec Client (Unit {0})
lose_connection w c =
    let c1 = set_state ClientState.offline c in
    follow (cancel_requests (record c1 { con = none; data_cid = 0; sessions_cid = 0 })) λ _ c2.
      let c3 = record c2 { con_lost_timer = false } in
      if w.retries_lost then try_to_connect w c3 else pure tt (abort c3)

abbrev pub is_current : ℕ → Option ℕ → Bool
is_current i none = false
is_current i (some j) = i == j

unfoldable pub on_connection_closed : World → ℕ → Exec Client (Unit {0})
unfolding lose_connection
on_connection_closed w i c =
    if is_closed c.state
    then pure tt c
    else if not (is_some c.con) && are_all_connections_closed c.connections
    then pure tt (retry_later w.failed_wait c)
    else if not (is_current i c.con)
    then pure tt c
    else lose_connection w c

-- the timer of a silent server
unfoldable pub on_connection_lost : Client → Client
on_connection_lost c = record (disconnect_current err_con_lost c) { con_lost_timer = false }

unfoldable pub acls_of : List AclTable → List Acl
acls_of [] = []
acls_of (a ∷ as') = record { mode = a.mode; pattern = a.pattern } ∷ acls_of as'

unfoldable pub user_of : Client → LoginResponse → User
unfolding acls_of
user_of c resp = record {
  name = c.user_name;
  permissions = acls_of (or_empty resp.permissions);
  can_force = resp.can_force;
  can_monitor = resp.can_monitor;
}

unfoldable pub disconnect_others : Option ℕ → ℕ → List Connection → List Connection
disconnect_others con i [] = []
disconnect_others con i (c ∷ cs) =
    let rest = disconnect_others con (i + 1) cs in
    if is_current i con then c ∷ rest else Connection.disconnect err_already_connected c ∷ rest

-- The revision that the client asks a snapshot of.
unfoldable pub snapshot_rev : ℕ → LoginResponse → ℕ
snapshot_rev rev0 resp =
    if leb rev0 resp.rev0 then resp.rev0 else if leb rev0 resp.crev then rev0 else 0

-- A request for updates, with a fresh correlation id.
unfoldable pub ask_updates : World → ℕ → Exec Client (Unit {0})
ask_updates w rev c =
    let c1 = set_state ClientState.syncing c in
    send w (create_updates_msg c1.correlation rev)
      (record c1 { data_cid = c1.correlation; correlation = next_cid c1.correlation })

unfoldable pub ask_snapshot : World → ℕ → Exec Client (Unit {0})
ask_snapshot w rev c =
    let c1 = set_state ClientState.loading_snapshot c in
    send w (create_snapshot_msg c1.correlation rev)
      (record c1 { data_cid = c1.correlation; correlation = next_cid c1.correlation })

-- What a client asks for after a login.
unfoldable pub ask_first : World → LoginResponse → Exec Client (Unit {0})
unfolding ask_updates ask_snapshot snapshot_rev
ask_first w resp c =
    if c.populated
    then ask_updates w c.store.rev c
    else if c.rev0 == 0
    then ask_updates w 0 c
    else ask_snapshot w (snapshot_rev c.rev0 resp) c

-- The login is accepted. The manager's exception aborts the client, and the handler goes on.
unfoldable pub enter : World → ℕ → User → LoginResponse → Exec Client (Unit {0})
unfolding disconnect_others
enter w i user resp c =
    let c1 = set_state ClientState.authenticated (record c { con = some i; user = some user }) in
    let c2 = if w.established_throws then abort c1 else c1 in
    let c3 = if resp.keepalive == 0 then c2 else record c2 { con_lost_timer = true } in
    ask_first w resp (record c3 { connections = disconnect_others c3.con 0 c3.connections })

abbrev pub is_authorized_code : LoginCode → Bool
is_authorized_code LoginCode.authorized = true
is_authorized_code _ = false

abbrev pub is_empty : {A : Type 0} → List A → Bool
is_empty [] = true
is_empty (_ ∷ _) = false

unfoldable pub process_login_resp : World → ℕ → LoginResponse → Exec Client (Unit {0})
unfolding user_of
process_login_resp w i resp c =
    if is_some c.con
    then pure tt (disconnect i err_already_connected c)
    else if not (is_authorized_code resp.code)
    then pure tt (disconnect i err_auth c)
    else if is_empty (user_of c resp).permissions
    then pure tt (disconnect i err_auth c)
    else enter w i (user_of c resp) resp c
