-- ===== src/Client/Ordering.antt =====
-- The order of the waiting requests through the events of a client: src/client_impl.cpp.
use nplex_cpp.Prelude.{
  ℕ, ◌+◌, ◌^◌, ◌<◌, ◌≡◌, refl, true, not, ◌&&◌, ◌||◌, Option, none, some, is_some, ◌==◌, if-elim,
  if◌then◌else◌, get_elem?, arith,
}
use nplex_cpp.Result.{Result, pure, follow-state}
use nplex_cpp.Schema.{
  Request, Snapshot, LoginResponse, SnapshotResponse, Message, empty, login_response,
  submit_response, snapshot_response, updates_response, updates_push, keepalive_push, ping_response,
  sessions_response, sessions_push,
}
use nplex_cpp.User.{User}
use nplex_cpp.Messaging.{create_updates_msg, create_snapshot_msg, create_login_msg}
use nplex_cpp.Connection.{err_closed_by_local, err_msg_unexpected, err_load}
use nplex_cpp.Client.{Client, ClientState, World}
use nplex_cpp.Client.Core.{next_cid, disconnect_current, send, send_on, set_state, abort}
use nplex_cpp.Client.Link.{
  is_current, ask_updates, ask_snapshot, ask_first, enter, snapshot_rev, disconnect_others, user_of,
  is_authorized_code, is_empty, process_login_resp, on_connection_established,
}
use nplex_cpp.Client.Receive.{
  is_loading_snapshot, load_store, process_snapshot_resp, dispatch, receive_current,
  on_msg_received,
}
use nplex_cpp.Client.Trimming.{
  on_connection-Trims, disconnect_current-Trims, abort-Trims, send-Trims, send_on-Trims,
  set_state-Trims,
}
use nplex_cpp.Client.Trims.{Trims, TrimsBy, Trims-refl, Trims-same, Trims-trans}
use nplex_cpp.Client.Pipeline.{
  InOrder, Proceeds, ProceedsBy, Proceeds-Trims, Proceeds-more, Proceeds-trans, Proceeds-next,
}
use nplex_cpp.Client.Responses.{
  process_submit_resp-Trims, process_sessions_resp-Trims, process_ping_resp-Trims,
  process_updates_resp-Trims, process_updates_push-Trims, process_sessions_push-Trims,
}

module _ (w : World) where
  -- A state set, and a correlation id taken for a request of data.
  ask-Proceeds :
      (state : ClientState) (msg : ℕ → Request) (c : Client)
      → InOrder c
      → c.correlation + 1 < 2 ^ 64
      → ProceedsBy 1 c (
          send w (msg (set_state state c).correlation) (record (set_state state c) {
            data_cid = (set_state state c).correlation;
            correlation = next_cid (set_state state c).correlation;
          }))
  ask-Proceeds state msg c h room =
      let s = set_state-Trims state c in
      let p = Proceeds-Trims h s in
      let c1 = set_state state c in
      let c2 = record c1 { data_cid = c1.correlation; correlation = next_cid c1.correlation } in
      let q =
        Proceeds-trans p
          (Proceeds-next c1 c2 p.in_order (omega (arith, s.correlation, room)) refl refl) in
      Proceeds-trans q (Proceeds-Trims q.in_order (send-Trims w (msg c1.correlation) c2))

  ask_updates-Proceeds :
      (rev : ℕ) (c : Client)
      → InOrder c
      → c.correlation + 1 < 2 ^ 64
      → ProceedsBy 1 c (ask_updates w rev c)
  unfolding ask_updates
  ask_updates-Proceeds rev c h room =
      ask-Proceeds ClientState.syncing (λ cid. create_updates_msg cid rev) c h room

  ask_snapshot-Proceeds :
      (rev : ℕ) (c : Client)
      → InOrder c
      → c.correlation + 1 < 2 ^ 64
      → ProceedsBy 1 c (ask_snapshot w rev c)
  unfolding ask_snapshot
  ask_snapshot-Proceeds rev c h room =
      ask-Proceeds ClientState.loading_snapshot (λ cid. create_snapshot_msg cid rev) c h room

  ask_first-Proceeds :
      (resp : LoginResponse) (c : Client)
      → InOrder c
      → c.correlation + 1 < 2 ^ 64
      → ProceedsBy 1 c (ask_first w resp c)
  unfolding ask_first
  ask_first-Proceeds resp c h room =
      if-elim (ProceedsBy 1 c) c.populated _ _ (ask_updates-Proceeds c.store.rev c h room) (
        if-elim (ProceedsBy 1 c) (c.rev0 == 0) _ _ (ask_updates-Proceeds 0 c h room)
          (ask_snapshot-Proceeds (snapshot_rev c.rev0 resp) c h room))

  -- A call behind one that adds no request.
  then-Proceeds :
      {A : Type 0} {n : ℕ} (c c1 : Client) (r : Result A × Client)
      → InOrder c
      → Trims c c1
      → (InOrder c1 → c1.correlation ≡ c.correlation → ProceedsBy n c1 r)
      → ProceedsBy n c r
  then-Proceeds c c1 r h a f =
      let p = Proceeds-Trims h a in
      let q = f p.in_order a.correlation in
      record { used = omega (arith, q.used, a.correlation); in_order = q.in_order }

  module _ (c : Client) (h : InOrder c) (room : c.correlation + 1 < 2 ^ 64) where
    no_request : {t : Client} → Trims c t → Proceeds 1 c t
    no_request a = Proceeds-more 1 (omega arith) (Proceeds-Trims h a)

    enter-Trims :
        (i : ℕ) (user : User) (resp : LoginResponse) (rest : Client → Result (Unit {0}) × Client)
        → ((c1 : Client) → Trims c c1 → ProceedsBy 1 c (rest c1))
        → ProceedsBy 1 c (
            let c1 =
              set_state ClientState.authenticated (record c { con = some i; user = some user }) in
            let c2 = if w.established_throws then abort c1 else c1 in
            let c3 = if resp.keepalive == 0 then c2 else record c2 { con_lost_timer = true } in
            rest (record c3 { connections = disconnect_others c3.con 0 c3.connections }))
    enter-Trims i user resp rest f =
        let c1 =
          set_state ClientState.authenticated (record c { con = some i; user = some user }) in
        let t1 : Trims c c1 =
          Trims-trans (Trims-same c _ refl refl) (set_state-Trims ClientState.authenticated _) in
        let c2 = if w.established_throws then abort c1 else c1 in
        let t2 : Trims c c2 =
          if-elim (Trims c) w.established_throws _ _ (Trims-trans t1 (abort-Trims c1)) t1 in
        let c3 = if resp.keepalive == 0 then c2 else record c2 { con_lost_timer = true } in
        let t3 : Trims c c3 =
          if-elim (Trims c) (resp.keepalive == 0) _ _ t2
            (Trims-trans t2 (Trims-same c2 _ refl refl)) in
        f _ (Trims-trans t3 (Trims-same c3 _ refl refl))

    process_login_resp-Proceeds :
        (i : ℕ) (resp : LoginResponse) → ProceedsBy 1 c (process_login_resp w i resp c)
    unfolding process_login_resp enter
    process_login_resp-Proceeds i resp =
        if-elim (ProceedsBy 1 c) (is_some c.con) _ _ (no_request (on_connection-Trims i _ c)) (
          if-elim (ProceedsBy 1 c) (not (is_authorized_code resp.code)) _ _
            (no_request (on_connection-Trims i _ c))
            (if-elim (ProceedsBy 1 c) (is_empty (user_of c resp).permissions) _ _
              (no_request (on_connection-Trims i _ c))
              (enter-Trims i (user_of c resp) resp (ask_first w resp) (λ c1 a.
                then-Proceeds c c1 (ask_first w resp c1) h a
                  (λ o e. ask_first-Proceeds resp c1 o (omega (arith, e, room)))))))

    load_store-Trims : (snapshot : Option Snapshot) → TrimsBy c (load_store w snapshot c)
    unfolding load_store
    load_store-Trims none = Trims-refl c
    load_store-Trims (some snapshot) = Trims-same c _ refl refl

    process_snapshot_resp-Proceeds :
        (resp : SnapshotResponse) → ProceedsBy 1 c (process_snapshot_resp w resp c)
    unfolding process_snapshot_resp
    process_snapshot_resp-Proceeds resp =
        if-elim (ProceedsBy 1 c) (not (is_loading_snapshot c.state) || not (resp.cid == c.data_cid))
          _ _ (no_request (disconnect_current-Trims err_msg_unexpected c))
          (if-elim (ProceedsBy 1 c) (not resp.accepted) _ _
            (no_request (disconnect_current-Trims err_load c))
            (follow-state (Proceeds 1 c) (load_store w resp.snapshot c) _
              (no_request (load_store-Trims resp.snapshot))
              (λ _. loaded (load_store w resp.snapshot c).1 (load_store-Trims resp.snapshot))))
      where
        loaded :
            (c1 : Client)
            → Trims c c1
            → ProceedsBy 1 c (
                if w.has_reactor && w.initial_data_throws
                then pure tt (abort (disconnect_current err_closed_by_local c1))
                else let c2 = set_state ClientState.initialized (record c1 { populated = true }) in
                  ask_updates w c2.store.rev c2)
        loaded c1 a =
            if-elim (ProceedsBy 1 c) (w.has_reactor && w.initial_data_throws) _ _
              (no_request (
                Trims-trans a
                  (Trims-trans (disconnect_current-Trims err_closed_by_local c1) (abort-Trims _))))
              (let c2 = set_state ClientState.initialized (record c1 { populated = true }) in
                then-Proceeds c c2 (ask_updates w c2.store.rev c2) h
                  (Trims-trans a (
                    Trims-trans (Trims-same c1 (record c1 { populated = true }) refl refl)
                      (set_state-Trims ClientState.initialized _)))
                  (λ o e. ask_updates-Proceeds c2.store.rev c2 o (omega (arith, e, room))))

    dispatch-Proceeds : (i : ℕ) (msg : Message) → ProceedsBy 1 c (dispatch w i msg c)
    unfolding dispatch
    dispatch-Proceeds i (submit_response resp) = no_request (process_submit_resp-Trims resp c)
    dispatch-Proceeds i (snapshot_response resp) = process_snapshot_resp-Proceeds resp
    dispatch-Proceeds i (updates_response resp) = no_request (process_updates_resp-Trims resp c)
    dispatch-Proceeds i (updates_push resp) = no_request (process_updates_push-Trims w resp c)
    dispatch-Proceeds i keepalive_push = no_request (Trims-refl c)
    dispatch-Proceeds i (ping_response cid) =
        no_request (process_ping_resp-Trims cid c.requests c refl)
    dispatch-Proceeds i (sessions_response resp) =
        no_request (process_sessions_resp-Trims resp c.requests c refl)
    dispatch-Proceeds i (sessions_push resp) = no_request (process_sessions_push-Trims resp c)
    dispatch-Proceeds i empty = no_request (on_connection-Trims i _ c)
    dispatch-Proceeds i Message.other = no_request (on_connection-Trims i _ c)
    dispatch-Proceeds i (login_response resp) = no_request (on_connection-Trims i _ c)

    receive_current-Proceeds : (i : ℕ) (msg : Message) → ProceedsBy 1 c (receive_current w i msg c)
    unfolding receive_current
    receive_current-Proceeds i msg =
        if-elim (ProceedsBy 1 c) (is_current i c.con) _ _ (dispatch-Proceeds i msg)
          (no_request (on_connection-Trims i _ c))

    pub on_msg_received-Proceeds :
        (i : ℕ) (msg : Message) → ProceedsBy 1 c (on_msg_received w i msg c)
    unfolding on_msg_received
    on_msg_received-Proceeds i empty = no_request (on_connection-Trims i _ c)
    on_msg_received-Proceeds i (login_response resp) = process_login_resp-Proceeds i resp
    on_msg_received-Proceeds i (submit_response resp) =
        receive_current-Proceeds i (submit_response resp)
    on_msg_received-Proceeds i (snapshot_response resp) =
        receive_current-Proceeds i (snapshot_response resp)
    on_msg_received-Proceeds i (updates_response resp) =
        receive_current-Proceeds i (updates_response resp)
    on_msg_received-Proceeds i (updates_push resp) = receive_current-Proceeds i (updates_push resp)
    on_msg_received-Proceeds i keepalive_push = receive_current-Proceeds i keepalive_push
    on_msg_received-Proceeds i (ping_response cid) = receive_current-Proceeds i (ping_response cid)
    on_msg_received-Proceeds i (sessions_response resp) =
        receive_current-Proceeds i (sessions_response resp)
    on_msg_received-Proceeds i (sessions_push resp) =
        receive_current-Proceeds i (sessions_push resp)
    on_msg_received-Proceeds i Message.other = receive_current-Proceeds i Message.other

    pub on_connection_established-Proceeds :
        (i : ℕ) → ProceedsBy 1 c (on_connection_established w i c)
    unfolding on_connection_established
    on_connection_established-Proceeds i =
        if-elim (ProceedsBy 1 c) (is_some c.con) _ _ (no_request (on_connection-Trims i _ c))
          established
      where
        taken : Proceeds 1 c (record c { correlation = next_cid c.correlation })
        taken = Proceeds-next c (record c { correlation = next_cid c.correlation }) h room refl refl

        established : ProceedsBy 1 c (
            send_on w i
              (create_login_msg (next_cid c.correlation) c.user_name c.password)
              (get_elem? c.connections i)
              (record c { correlation = next_cid c.correlation }))
        established = Proceeds-trans taken (
            Proceeds-Trims taken.in_order (
              send_on-Trims w i (create_login_msg (next_cid c.correlation) c.user_name c.password)
                (get_elem? c.connections i) (record c { correlation = next_cid c.correlation })))
