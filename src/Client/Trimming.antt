-- ===== src/Client/Trimming.antt =====
-- What the handlers of src/client_impl.cpp do to the requests that wait for a response: most only take
-- some off the front, or drop all.
use nplex_cpp.Prelude.{
  ℕ, ◌≡◌, refl, ◌&&◌, List, [], ◌∷◌, Option, none, some, ltb, ◌==◌, if-elim, get_elem?, set,
}
use nplex_cpp.Result.{Result, Exec, pure, follow, follow-state}
use nplex_cpp.Schema.{Request, Update}
use nplex_cpp.Types.{Change}
use nplex_cpp.Tx.{Tx}
use nplex_cpp.Tx.Submit.{fail_submit, confirm_commit}
use nplex_cpp.Connection.{Connection}
use nplex_cpp.Client.{Client, ClientState, Pending, Accepted, Body, World, submit, ping, sessions}
use nplex_cpp.Client.Core.{
  is_closed, on_connection, disconnect, disconnect_current, on_tx, on_tx_found, cancel,
  cancel_pending, cancel_accepted, cancel_requests, set_state, send_on, send, abort,
  purge_unused_txs,
}
use nplex_cpp.Client.Commit.{
  update_store, discard_accepted, update_transactions, any_unused, confirm, process_update,
}
use nplex_cpp.Client.Trims.{
  Between, Between-tail, Trims, Trims-same, Trims-refl, Trims-trans, Trims-none, TrimsBy,
  Trims-follow,
}

pub on_connection-Trims :
    (i : ℕ) (f : Connection → Connection) (c : Client) → Trims c (on_connection i f c)
unfolding on_connection
on_connection-Trims i f c =
    elim (get_elem? c.connections i)
      as (λ o.
        Trims c (elim o [
          | none ↦ c
          | some con ↦ record c { connections = set c.connections i (f con) }
        ])) [ none ↦ Trims-refl c | some con ↦ Trims-same c _ refl refl ]

pub disconnect_current-Trims : (rc : ℕ) (c : Client) → Trims c (disconnect_current rc c)
unfolding disconnect_current
disconnect_current-Trims rc c =
    elim c.con as (λ o. Trims c (elim o [ none ↦ c | some i ↦ disconnect i rc c ])) [
      | none ↦ Trims-refl c
      | some i ↦ on_connection-Trims i _ c
    ]

pub on_tx-Trims : (i : ℕ) (f : Exec Tx (Unit {0})) (c : Client) → Trims c (on_tx i f c).1
unfolding on_tx
on_tx-Trims i f c = found (get_elem? c.heap i)
  where
    found : (o : Option Tx) → Trims c (on_tx_found i f o c).1
    found none = Trims-refl c
    found (some tx) = Trims-same c _ refl refl

cancel-Trims : (b : Body) (c : Client) → Trims c (cancel b c).1
unfolding cancel
cancel-Trims (submit tx force) c = on_tx-Trims tx _ c
cancel-Trims (ping id payload) c = Trims-same c _ refl refl
cancel-Trims (sessions id stream) c = Trims-same c _ refl refl

-- Each round puts the rest of the requests in place before it cancels one.
cancel_pending-Trims :
    (base : Client) (ps : List Pending) (c : Client)
    → c.correlation ≡ base.correlation
    → ((lo hi : ℕ) → Between lo hi base.requests → Between lo hi ps)
    → Trims base (cancel_pending ps c).1
unfolding cancel_pending
cancel_pending-Trims base [] c e h = record { correlation = e; requests = h }
cancel_pending-Trims base (p ∷ ps) c e h =
    let rest =
      λ (lo hi : ℕ) (b : Between lo hi base.requests). Between-tail lo hi p ps (h lo hi b) in
    let kept : Trims base (record c { requests = ps }) = record {
      correlation = e;
      requests = rest;
    } in
    let k = Trims-trans kept (cancel-Trims p.body (record c { requests = ps })) in
    follow-state (Trims base) (cancel p.body (record c { requests = ps })) _ k
      (λ _. cancel_pending-Trims base ps _ k.correlation rest)

cancel_accepted-Trims : (as' : List Accepted) (c : Client) → Trims c (cancel_accepted as' c).1
unfolding cancel_accepted
cancel_accepted-Trims [] c = Trims-same c _ refl refl
cancel_accepted-Trims (a ∷ as') c =
    Trims-follow c (on_tx a.tx fail_submit (record c { accepted = as' })) _
      (Trims-trans (Trims-same c (record c { accepted = as' }) refl refl)
        (on_tx-Trims a.tx fail_submit _))
      (λ _. cancel_accepted-Trims as' _)

pub cancel_requests-Trims : (c : Client) → Trims c (cancel_requests c).1
unfolding cancel_requests
cancel_requests-Trims c =
    Trims-follow c (cancel_pending c.requests c) _
      (cancel_pending-Trims c c.requests c refl (λ lo hi b. b)) (λ _. cancel_accepted-Trims _ _)

pub set_state-Trims : (state : ClientState) (c : Client) → Trims c (set_state state c)
unfolding set_state
set_state-Trims state c =
    if-elim (Trims c) (is_closed c.state && is_closed state) _ _ (Trims-refl c) (
      if-elim (Trims c) (is_closed state) _ _ (Trims-none c _ refl refl) (Trims-same c _ refl refl))

pub abort-Trims : (c : Client) → Trims c (abort c)
unfolding abort
abort-Trims c = if-elim (Trims c) (is_closed c.state) _ _ (Trims-refl c) (
    Trims-trans (Trims-same c _ refl refl)
      (Trims-trans (set_state-Trims ClientState.closed _) (Trims-same _ _ refl refl)))

pub send_on-Trims :
    (w : World) (i : ℕ) (msg : Request) (o : Option Connection) (c : Client)
    → Trims c (send_on w i msg o c).1
unfolding send_on
send_on-Trims w i msg none c = Trims-refl c
send_on-Trims w i msg (some con) c = Trims-same c _ refl refl

pub send-Trims : (w : World) (msg : Request) (c : Client) → Trims c (send w msg c).1
unfolding send
send-Trims w msg c = if-elim (TrimsBy c) (is_closed c.state) _ _ (Trims-refl c) (sent c.con)
  where
    sent :
        (o : Option ℕ)
        → TrimsBy c (
            let r : Result (Unit {0}) × Client = elim o [
              | none ↦ pure tt c
              | some i ↦ send_on w i msg (get_elem? c.connections i) c
            ] in
            r)
    sent none = Trims-refl c
    sent (some i) = send_on-Trims w i msg (get_elem? c.connections i) c

update_transactions-Trims :
    (w : World) (cs : List Change) (c : Client) → Trims c (update_transactions w cs c)
unfolding update_transactions purge_unused_txs
update_transactions-Trims w cs c =
    if-elim (Trims c) (any_unused w c.heap c.transactions) _ _ (Trims-same c _ refl refl)
      (Trims-same c _ refl refl)

discard_accepted-Trims :
    (rev : ℕ) (as' : List Accepted) (c : Client) → Trims c (discard_accepted rev as' c).1
unfolding discard_accepted
discard_accepted-Trims rev [] c = Trims-refl c
discard_accepted-Trims rev (a ∷ as') c =
    if-elim (TrimsBy c) (ltb a.erev rev) _ _
      (Trims-follow c (on_tx a.tx fail_submit (record c { accepted = as' })) _
        (Trims-trans (Trims-same c (record c { accepted = as' }) refl refl)
          (on_tx-Trims a.tx fail_submit _))
        (λ _. discard_accepted-Trims rev as' _))
      (Trims-refl c)

confirm-Trims : (rev : ℕ) (as' : List Accepted) (c : Client) → Trims c (confirm rev as' c).1
unfolding confirm
confirm-Trims rev [] c = Trims-refl c
confirm-Trims rev (a ∷ as') c =
    if-elim (TrimsBy c) (a.erev == rev) _ _
      (Trims-trans (Trims-same c (record c { accepted = as' }) refl refl)
        (on_tx-Trims a.tx confirm_commit _))
      (Trims-refl c)

pub process_update-Trims :
    (w : World) (upd : Update) (c : Client) → Trims c (process_update w upd c).1
unfolding process_update update_store
process_update-Trims w upd c =
    Trims-follow c (update_store w upd c) _ (Trims-same c _ refl refl)
      (λ r. behind r.0 (update_store w upd c).1)
  where
    behind :
        (cs : List Change) (c1 : Client)
        → TrimsBy c1 (
            follow (discard_accepted upd.rev c1.accepted c1) λ _ c2.
              confirm upd.rev (update_transactions w cs c2).accepted (update_transactions w cs c2))
    behind cs c1 =
        let c2 = (discard_accepted upd.rev c1.accepted c1).1 in
        Trims-follow c1 (discard_accepted upd.rev c1.accepted c1) _
          (discard_accepted-Trims upd.rev c1.accepted c1)
          (λ _. Trims-trans (update_transactions-Trims w cs c2) (
            confirm-Trims upd.rev (update_transactions w cs c2).accepted
              (update_transactions w cs c2)))
