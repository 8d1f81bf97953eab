-- ===== src/Client/Responses.antt =====
-- The handlers of src/client_impl.cpp that add no request: the responses and pushes but the login and the
-- snapshot.
use nplex_cpp.Prelude.{
  ℕ, ◌≡◌, refl, Bool, not, ◌&&◌, ◌||◌, List, [], ◌∷◌, Option, none, some, is_some, ltb, ◌==◌,
  if-elim,
}
use nplex_cpp.Schema.{
  Update, SubmitCode, UpdatesResponse, UpdatesPush, SubmitResponse, SessionsResponse, SessionsPush,
}
use nplex_cpp.Store.{or_empty}
use nplex_cpp.Tx.Submit.{set_submit_result}
use nplex_cpp.Connection.{err_msg_error, err_msg_unexpected, err_load}
use nplex_cpp.Client.{
  Client, ClientState, Body, Pending, SessionInfo, World, submit, ping, sessions,
}
use nplex_cpp.Client.Core.{on_tx}
use nplex_cpp.Client.Commit.{process_update}
use nplex_cpp.Client.Receive.{
  is_syncing, start_empty, process_updates_resp, skip_requests, accept, settle_submit, match_submit,
  process_submit_resp, answer_sessions, settle_sessions, process_sessions_resp, push_updates,
  process_updates_push, process_sessions_push, settle_ping, process_ping_resp,
}
use nplex_cpp.Client.Trimming.{
  disconnect_current-Trims, on_tx-Trims, set_state-Trims, process_update-Trims,
}
use nplex_cpp.Client.Trims.{
  Between, Between-tail, Trims, TrimsBy, Trims-refl, Trims-same, Trims-tail, Trims-trans,
  Trims-follow,
}

skip_requests-Between :
    (cid lo hi : ℕ) (ps : List Pending) → Between lo hi ps → Between lo hi (skip_requests cid ps)
unfolding skip_requests
skip_requests-Between cid lo hi [] b = b
skip_requests-Between cid lo hi (p ∷ ps) b =
    if-elim (Between lo hi) (ltb p.cid cid) _ _
      (skip_requests-Between cid lo hi ps (Between-tail lo hi p ps b)) b

accept-Trims : (code : SubmitCode) (erev i : ℕ) (c : Client) → TrimsBy c (accept code erev i c)
unfolding accept
accept-Trims SubmitCode.accepted erev i c = Trims-same c _ refl refl
accept-Trims _ erev i c = Trims-refl c

settle_submit-Trims :
    (resp : SubmitResponse) (b : Body) (c : Client) → TrimsBy c (settle_submit resp b c)
unfolding settle_submit
settle_submit-Trims resp (submit i force) c =
    Trims-follow c (on_tx i (set_submit_result resp.code) c) _ (on_tx-Trims i _ c)
      (λ _. accept-Trims resp.code resp.erev i _)
settle_submit-Trims resp (ping id payload) c = Trims-refl c
settle_submit-Trims resp (sessions id stream) c = Trims-refl c

match_submit-Trims :
    (resp : SubmitResponse) (ps : List Pending) (c : Client)
    → c.requests ≡ ps
    → TrimsBy c (match_submit resp ps c)
unfolding match_submit
match_submit-Trims resp [] c e = Trims-refl c
match_submit-Trims resp (p ∷ ps) c e =
    if-elim (TrimsBy c) (p.cid == resp.cid) _ _
      (Trims-trans (Trims-tail c (record c { requests = ps }) p e refl refl)
        (settle_submit-Trims resp p.body _))
      (Trims-refl c)

pub process_submit_resp-Trims :
    (resp : SubmitResponse) (c : Client) → TrimsBy c (process_submit_resp resp c)
unfolding process_submit_resp
process_submit_resp-Trims resp c =
    let ps = skip_requests resp.cid c.requests in
    Trims-trans
      (record {
        correlation = refl;
        requests = λ lo hi b. skip_requests-Between resp.cid lo hi c.requests b;
      })
      (match_submit-Trims resp ps (record c { requests = ps }) refl)

answer_sessions-Trims :
    (id : ℕ) (stream : Bool) (cid : ℕ) (o : Option (List SessionInfo)) (c : Client)
    → Trims c (answer_sessions id stream cid o c)
unfolding answer_sessions
answer_sessions-Trims id stream cid none c = disconnect_current-Trims err_msg_error c
answer_sessions-Trims id stream cid (some is) c = Trims-same c _ refl refl

settle_sessions-Trims :
    (resp : SessionsResponse) (b : Body) (c : Client) → Trims c (settle_sessions resp b c)
unfolding settle_sessions
settle_sessions-Trims resp (sessions id stream) c = answer_sessions-Trims id stream resp.cid _ c
settle_sessions-Trims resp (submit i force) c = disconnect_current-Trims err_msg_unexpected c
settle_sessions-Trims resp (ping id payload) c = disconnect_current-Trims err_msg_unexpected c

pub process_sessions_resp-Trims :
    (resp : SessionsResponse) (ps : List Pending) (c : Client)
    → c.requests ≡ ps
    → Trims c (process_sessions_resp resp ps c)
unfolding process_sessions_resp
process_sessions_resp-Trims resp [] c e = Trims-refl c
process_sessions_resp-Trims resp (p ∷ ps) c e =
    if-elim (Trims c) (p.cid == resp.cid) _ _
      (Trims-trans (Trims-tail c (record c { requests = ps }) p e refl refl)
        (settle_sessions-Trims resp p.body _))
      (Trims-refl c)

settle_ping-Trims : (b : Body) (c : Client) → Trims c (settle_ping b c)
unfolding settle_ping
settle_ping-Trims (ping id payload) c = Trims-same c _ refl refl
settle_ping-Trims (submit i force) c = Trims-refl c
settle_ping-Trims (sessions id stream) c = Trims-refl c

pub process_ping_resp-Trims :
    (cid : ℕ) (ps : List Pending) (c : Client)
    → c.requests ≡ ps
    → Trims c (process_ping_resp cid ps c)
unfolding process_ping_resp
process_ping_resp-Trims cid [] c e = Trims-refl c
process_ping_resp-Trims cid (p ∷ ps) c e =
    if-elim (Trims c) (p.cid == cid) _ _
      (Trims-trans (Trims-tail c (record c { requests = ps }) p e refl refl)
        (settle_ping-Trims p.body _))
      (Trims-refl c)

pub process_updates_resp-Trims :
    (resp : UpdatesResponse) (c : Client) → Trims c (process_updates_resp resp c)
unfolding process_updates_resp start_empty
process_updates_resp-Trims resp c =
    if-elim (Trims c) (not (is_syncing c.state) || not (resp.cid == c.data_cid)) _ _
      (disconnect_current-Trims err_msg_unexpected c)
      (if-elim (Trims c) (not resp.accepted) _ _ (disconnect_current-Trims err_load c) (
        if-elim (Trims c) ((start_empty resp.crev c).store.rev == resp.crev) _ _
          (Trims-trans started (set_state-Trims ClientState.synced _)) started))
  where
    started : Trims c (start_empty resp.crev c)
    started =
        if-elim (Trims c) (c.rev0 == 0) _ _
          (Trims-trans (Trims-same c _ refl refl) (set_state-Trims ClientState.initialized _))
          (Trims-refl c)

push_updates-Trims :
    (w : World) (crev : ℕ) (upds : List Update) (c : Client)
    → TrimsBy c (push_updates w crev upds c)
unfolding push_updates
push_updates-Trims w crev [] c = Trims-refl c
push_updates-Trims w crev (upd ∷ upds) c =
    Trims-follow c (process_update w upd c) _ (process_update-Trims w upd c) (λ _.
      Trims-trans
        (if-elim (Trims (process_update w upd c).1)
          (is_syncing (process_update w upd c).1.state && upd.rev == crev) _ _
          (set_state-Trims ClientState.synced _) (Trims-refl _))
        (push_updates-Trims w crev upds _))

pub process_updates_push-Trims :
    (w : World) (resp : UpdatesPush) (c : Client) → TrimsBy c (process_updates_push w resp c)
unfolding process_updates_push
process_updates_push-Trims w resp c =
    if-elim (TrimsBy c) (not (resp.cid == c.data_cid)) _ _
      (disconnect_current-Trims err_msg_unexpected c)
      (push_updates-Trims w resp.crev (or_empty resp.updates) c)

pub process_sessions_push-Trims :
    (resp : SessionsPush) (c : Client) → Trims c (process_sessions_push resp c)
unfolding process_sessions_push
process_sessions_push-Trims resp c =
    if-elim (Trims c) (resp.cid == 0 || not (resp.cid == c.sessions_cid)) _ _
      (disconnect_current-Trims err_msg_unexpected c)
      (if-elim (Trims c) (not (is_some resp.session)) _ _ (disconnect_current-Trims err_msg_error c)
        (Trims-refl c))
