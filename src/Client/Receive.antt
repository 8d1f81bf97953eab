-- ===== src/Client/Receive.antt =====
-- src/client_impl.cpp: on_msg_received, on_msg_delivered and the handlers of the messages.
use nplex_cpp.Prelude.{
  ℕ, Bool, true, false, not, ◌&&◌, ◌||◌, List, [], ◌∷◌, ◌++◌, Option, none, some, is_some, ltb,
  ◌==◌, if◌then◌else◌,
}
use nplex_cpp.Prelude.Order.{Bytes}
use nplex_cpp.Result.{Exec, pure, follow}
use nplex_cpp.Schema.{
  Update, Snapshot, SubmitCode, SessionTable, SnapshotResponse, UpdatesResponse, UpdatesPush,
  SubmitResponse, SessionsResponse, SessionsPush, Message, empty, login_response, submit_response,
  snapshot_response, updates_response, updates_push, keepalive_push, ping_response,
  sessions_response, sessions_push,
}
use nplex_cpp.Store.{load, or_empty}
use nplex_cpp.Tx.Submit.{set_submit_result}
use nplex_cpp.Connection.{
  err_closed_by_local, err_msg_error, err_msg_unexpected, err_already_connected, err_load,
}
use nplex_cpp.Client.{
  Client, ClientState, Pending, Body, SessionInfo, World, submit, ping, sessions, pong, listed,
}
use nplex_cpp.Client.Core.{disconnect, disconnect_current, on_tx, reply, set_state, abort}
use nplex_cpp.Client.Link.{is_current, ask_updates, process_login_resp}
use nplex_cpp.Client.Commit.{process_update}

abbrev pub is_loading_snapshot : ClientState → Bool
is_loading_snapshot ClientState.loading_snapshot = true
is_loading_snapshot _ = false

abbrev pub is_syncing : ClientState → Bool
is_syncing ClientState.syncing = true
is_syncing _ = false

-- if (resp->snapshot()) m_store->load(resp->snapshot())
unfoldable pub load_store : World → Option Snapshot → Exec Client (Unit {0})
load_store w none c = pure tt c
load_store w (some snapshot) c =
    let r = load w.utf8 (some snapshot) c.store in (r.0, record c { store = r.1 })

unfoldable pub process_snapshot_resp : World → SnapshotResponse → Exec Client (Unit {0})
unfolding load_store
process_snapshot_resp w resp c =
    if not (is_loading_snapshot c.state) || not (resp.cid == c.data_cid)
    then pure tt (disconnect_current err_msg_unexpected c)
    else if not resp.accepted
    then pure tt (disconnect_current err_load c)
    else follow (load_store w resp.snapshot c) λ _ c1.
      if w.has_reactor && w.initial_data_throws
      then pure tt (abort (disconnect_current err_closed_by_local c1))
      else let c2 = set_state ClientState.initialized (record c1 { populated = true }) in
        ask_updates w c2.store.rev c2

-- Case: no snapshot installed, only updates
unfoldable pub start_empty : ℕ → Client → Client
start_empty crev c =
    if c.rev0 == 0
    then set_state ClientState.initialized
        (record c { store = record c.store { rev = crev }; populated = true })
    else c

unfoldable pub process_updates_resp : UpdatesResponse → Client → Client
unfolding start_empty
process_updates_resp resp c =
    if not (is_syncing c.state) || not (resp.cid == c.data_cid)
    then disconnect_current err_msg_unexpected c
    else if not resp.accepted
    then disconnect_current err_load c
    else let c1 = start_empty resp.crev c in
      if c1.store.rev == resp.crev then set_state ClientState.synced c1 else c1

-- The loop that discards the requests before `cid`.
unfoldable pub skip_requests : ℕ → List Pending → List Pending
skip_requests cid [] = []
skip_requests cid (p ∷ ps) =
    let rest = skip_requests cid ps in if ltb p.cid cid then rest else p ∷ ps

-- An accepted request takes its place in m_accepted.
unfoldable pub accept : SubmitCode → ℕ → ℕ → Exec Client (Unit {0})
accept SubmitCode.accepted erev i c =
    pure tt (record c { accepted = c.accepted ++ record { tx = i; erev = erev } ∷ [] })
accept _ erev i c = pure tt c

-- A request of another kind would be a null pointer.
unfoldable pub settle_submit : SubmitResponse → Body → Exec Client (Unit {0})
unfolding accept
settle_submit resp (submit i force) c =
    follow (on_tx i (set_submit_result resp.code) c) λ _. accept resp.code resp.erev i
settle_submit resp (ping id payload) c = pure tt c
settle_submit resp (sessions id stream) c = pure tt c

unfoldable pub match_submit : SubmitResponse → List Pending → Exec Client (Unit {0})
unfolding settle_submit
match_submit resp [] c = pure tt c
match_submit resp (p ∷ ps) c =
    if p.cid == resp.cid then settle_submit resp p.body (record c { requests = ps }) else pure tt c

unfoldable pub process_submit_resp : SubmitResponse → Exec Client (Unit {0})
unfolding skip_requests match_submit
process_submit_resp resp c =
    let ps = skip_requests resp.cid c.requests in match_submit resp ps (record c { requests = ps })

abbrev pub or_nothing : Option Bytes → Bytes
or_nothing none = []
or_nothing (some bs) = bs

unfoldable pub to_session_t : SessionTable → SessionInfo
to_session_t s = record {
  user = or_nothing s.user;
  address = or_nothing s.address;
  code = s.code;
  since = s.since;
  until = s.until;
}

-- The loop over the sessions; an entry that is null ends it.
unfoldable pub to_sessions : List (Option SessionTable) → Option (List SessionInfo)
unfolding to_session_t
to_sessions [] = some []
to_sessions (none ∷ ss) = none
to_sessions (some s ∷ ss) = elim (to_sessions ss) [
  | none ↦ none
  | some is ↦ some (to_session_t s ∷ is)
]

unfoldable pub answer_sessions : ℕ → Bool → ℕ → Option (List SessionInfo) → Client → Client
answer_sessions id stream cid none c = disconnect_current err_msg_error c
answer_sessions id stream cid (some is) c =
    reply id (listed is) (record c { sessions_cid = (if stream then cid else 0) })

unfoldable pub settle_sessions : SessionsResponse → Body → Client → Client
unfolding answer_sessions to_sessions
settle_sessions resp (sessions id stream) c =
    answer_sessions id stream resp.cid (to_sessions (or_empty resp.sessions)) c
settle_sessions resp (submit i force) c = disconnect_current err_msg_unexpected c
settle_sessions resp (ping id payload) c = disconnect_current err_msg_unexpected c

unfoldable pub process_sessions_resp : SessionsResponse → List Pending → Client → Client
unfolding settle_sessions
process_sessions_resp resp [] c = c
process_sessions_resp resp (p ∷ ps) c =
    if p.cid == resp.cid then settle_sessions resp p.body (record c { requests = ps }) else c

unfoldable pub push_updates : World → ℕ → List Update → Exec Client (Unit {0})
push_updates w crev [] c = pure tt c
push_updates w crev (upd ∷ upds) c = follow (process_update w upd c) λ _ c1.
    let c2 =
      if is_syncing c1.state && upd.rev == crev then set_state ClientState.synced c1 else c1 in
    push_updates w crev upds c2

unfoldable pub process_updates_push : World → UpdatesPush → Exec Client (Unit {0})
unfolding push_updates
process_updates_push w resp c =
    if not (resp.cid == c.data_cid)
    then pure tt (disconnect_current err_msg_unexpected c)
    else push_updates w resp.crev (or_empty resp.updates) c

-- The reactor is told; it does not change the client.
unfoldable pub process_sessions_push : SessionsPush → Client → Client
process_sessions_push resp c =
    if resp.cid == 0 || not (resp.cid == c.sessions_cid)
    then disconnect_current err_msg_unexpected c
    else if not (is_some resp.session)
    then disconnect_current err_msg_error c
    else c

unfoldable pub settle_ping : Body → Client → Client
settle_ping (ping id payload) c = reply id pong c
settle_ping (submit i force) c = c
settle_ping (sessions id stream) c = c

-- A request that is not a ping would be a null pointer.
unfoldable pub process_ping_resp : ℕ → List Pending → Client → Client
unfolding settle_ping
process_ping_resp cid [] c = c
process_ping_resp cid (p ∷ ps) c =
    if p.cid == cid then settle_ping p.body (record c { requests = ps }) else c

-- The switch on the kind of a message of the current connection.
unfoldable pub dispatch : World → ℕ → Message → Exec Client (Unit {0})
unfolding process_snapshot_resp process_updates_resp process_submit_resp process_sessions_resp
    process_updates_push process_sessions_push process_ping_resp
dispatch w i (submit_response resp) c = process_submit_resp resp c
dispatch w i (snapshot_response resp) c = process_snapshot_resp w resp c
dispatch w i (updates_response resp) c = pure tt (process_updates_resp resp c)
dispatch w i (updates_push resp) c = process_updates_push w resp c
dispatch w i keepalive_push c = pure tt c
dispatch w i (ping_response cid) c = pure tt (process_ping_resp cid c.requests c)
dispatch w i (sessions_response resp) c = pure tt (process_sessions_resp resp c.requests c)
dispatch w i (sessions_push resp) c = pure tt (process_sessions_push resp c)
dispatch w i _ c = pure tt (disconnect i err_msg_error c)

unfoldable pub receive_current : World → ℕ → Message → Exec Client (Unit {0})
unfolding dispatch
receive_current w i msg c =
    if is_current i c.con
    then dispatch w i msg c
    else pure tt (disconnect i err_already_connected c)

unfoldable pub on_msg_received : World → ℕ → Message → Exec Client (Unit {0})
unfolding receive_current
on_msg_received w i empty c = pure tt (disconnect i err_msg_error c)
on_msg_received w i (login_response resp) c = process_login_resp w i resp c
on_msg_received w i msg c = receive_current w i msg c
