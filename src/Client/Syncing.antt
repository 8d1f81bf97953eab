-- ===== src/Client/Syncing.antt =====
-- The login and the answer to a request for updates: process_login_resp and process_updates_resp of
-- src/client_impl.cpp.
use nplex_cpp.Prelude.{
  ℕ, ◌≡◌, refl, ◌∙◌, Bool, true, false, some, is_some, Bool-cases, inl, inr, ◌==◌, if◌then◌else◌,
  arith,
}
use nplex_cpp.Schema.{LoginResponse, Request}
use nplex_cpp.User.{User}
use nplex_cpp.Client.{Client, ClientState, World}
use nplex_cpp.Client.Core.{is_closed, set_state, send, send_on, abort}
use nplex_cpp.Client.Link.{
  is_authorized_code, is_empty, user_of, snapshot_rev, ask_updates, ask_snapshot, ask_first, enter,
  process_login_resp, disconnect_others,
}

-- What a login asks for leaves the client waiting, and the loop as it was told.
record Waits (c c' : Client) : Type 0 where
  opened : is_closed c'.state ≡ false
  stopped : c'.stopped ≡ c.stopped

send-Waits :
    (w : World) (msg : Request) (c : Client) → is_closed c.state ≡ false → Waits c (send w msg c).1
unfolding send send_on
send-Waits w msg c o = record { opened = ground arith; stopped = ground arith }

set_state-Waits : (s : ClientState) (c : Client) → is_closed s ≡ false → Waits c (set_state s c)
unfolding set_state
set_state-Waits s c o = record { opened = ground arith; stopped = ground arith }

ask_updates-Waits : (w : World) (rev : ℕ) (c : Client) → Waits c (ask_updates w rev c).1
unfolding ask_updates
ask_updates-Waits w rev c =
    let h = set_state-Waits ClientState.syncing c refl in
    let k = send-Waits w _ _ h.opened in
    record { opened = k.opened; stopped = k.stopped ∙ h.stopped }

ask_snapshot-Waits : (w : World) (rev : ℕ) (c : Client) → Waits c (ask_snapshot w rev c).1
unfolding ask_snapshot
ask_snapshot-Waits w rev c =
    let h = set_state-Waits ClientState.loading_snapshot c refl in
    let k = send-Waits w _ _ h.opened in
    record { opened = k.opened; stopped = k.stopped ∙ h.stopped }

ask_first-Waits : (w : World) (resp : LoginResponse) (c : Client) → Waits c (ask_first w resp c).1
unfolding ask_first
ask_first-Waits w resp c = elim (Bool-cases c.populated) [
  | inl p ↦ simp p (ask_updates-Waits w c.store.rev c)
  | inr p ↦ elim (Bool-cases (c.rev0 == 0)) [
    | inl z ↦ simp (p, z) (ask_updates-Waits w 0 c)
    | inr z ↦ simp (p, z) (ask_snapshot-Waits w (snapshot_rev c.rev0 resp) c)
  ]
]

abort-stopped : (c : Client) → is_closed c.state ≡ false → (abort c).stopped ≡ true
unfolding abort
abort-stopped c o = simp o

timer-stopped :
    (b : Bool) (c : Client)
    → c.stopped ≡ true
    → (if b then c else record c { con_lost_timer = true }).stopped ≡ true
timer-stopped true c h = h
timer-stopped false c h = h

after_waiting :
    (c : Client) {c' : Client}
    → c.stopped ≡ true
    → Waits c c'
    → (is_closed c'.state ≡ false) × (c'.stopped ≡ true)
after_waiting c h k = (k.opened, k.stopped ∙ h)

enter-abort :
    (w : World) (i : ℕ) (user : User) (resp : LoginResponse) (c : Client)
    → w.established_throws ≡ true
    → (is_closed (enter w i user resp c).1.state ≡ false)
      × ((enter w i user resp c).1.stopped ≡ true)
unfolding enter
enter-abort w i user resp c t = simp t (
    after_waiting (record c3 { connections = disconnect_others c3.con 0 c3.connections })
      (timer-stopped (resp.keepalive == 0) (abort c1)
        (abort-stopped c1 (set_state-Waits ClientState.authenticated c0 refl).opened))
      (ask_first-Waits w resp
        (record c3 { connections = disconnect_others c3.con 0 c3.connections })))
  where
    c0 : Client
    c0 = record c { con = some i; user = some user }

    c1 : Client
    c1 = set_state ClientState.authenticated c0

    c3 : Client
    c3 = if resp.keepalive == 0 then abort c1 else record (abort c1) { con_lost_timer = true }

-- When the manager throws while it is told of an accepted login, the client is aborted, its loop told
-- to stop, and yet it ends in a state that is not CLOSED.
pub process_login_resp-abort :
    (w : World) (i : ℕ) (resp : LoginResponse) (c : Client)
    → is_some c.con ≡ false
    → is_authorized_code resp.code ≡ true
    → is_empty (user_of c resp).permissions ≡ false
    → w.established_throws ≡ true
    → (is_closed (process_login_resp w i resp c).1.state ≡ false)
      × ((process_login_resp w i resp c).1.stopped ≡ true)
unfolding process_login_resp
process_login_resp-abort w i resp c n a p t =
    simp (n, a, p) (enter-abort w i (user_of c resp) resp c t)
