-- ===== src/Client/Pipeline.antt =====
-- The order of the requests that wait for a response: whatever happens to a client of src/client_impl.cpp,
-- their correlation ids increase and stay below the next one.
use nplex_cpp.Prelude.{
  ℕ, zero, suc, ◌+◌, ◌^◌, ◌<◌, ◌≤◌, ◌≡◌, refl, ◌∙◌, Bool, not, List, [], ◌∷◌, Option, none, some,
  is_some, if-elim, get_elem?, length, arith,
}
use nplex_cpp.Result.{Result, follow-state}
use nplex_cpp.Schema.{Request}
use nplex_cpp.Tx.{Tx}
use nplex_cpp.Tx.Submit.{fail_submit}
use nplex_cpp.Messaging.{create_ping_msg, create_sessions_msg, create_submit_msg}
use nplex_cpp.Client.{Client, Command, Body, World, submit, ping, sessions}
use nplex_cpp.Client.Core.{is_closed, next_cid, send}
use nplex_cpp.Client.Commands.{
  send_request, send_tx, process_submit_cmd, process_ping_cmd, process_sessions_cmd,
  process_command, drain_round, drain, process_commands,
}
use nplex_cpp.Client.Trimming.{on_tx-Trims, abort-Trims, send-Trims}
use nplex_cpp.Client.Trims.{Between, Between-upper, Between-append, Trims, Trims-refl, Trims-same}

-- The correlation ids of the waiting requests increase and are below the next one.
abbrev pub InOrder : Client → Type 0
InOrder c = Between 0 c.correlation c.requests

-- The order is kept, and at most `n` correlation ids were used.
pub record Proceeds (n : ℕ) (c t : Client) : Type 0 where
  pub used : t.correlation ≤ c.correlation + n
  pub in_order : InOrder t

abbrev pub ProceedsBy : {A : Type 0} → ℕ → Client → Result A × Client → Type 0
ProceedsBy n c r = Proceeds n c r.1

pub Proceeds-Trims : {c t : Client} → InOrder c → Trims c t → Proceeds 0 c t
Proceeds-Trims {c} {t} h a = record {
  used = omega (arith, a.correlation);
  in_order = rw a.correlation (a.requests 0 c.correlation h);
}

pub Proceeds-more : {m : ℕ} (n : ℕ) {c t : Client} → m ≤ n → Proceeds m c t → Proceeds n c t
Proceeds-more n l p = record { used = omega (arith, p.used, l); in_order = p.in_order }

pub Proceeds-trans :
    {m n : ℕ} {a b c : Client} → Proceeds m a b → Proceeds n b c → Proceeds (m + n) a c
Proceeds-trans p q = record { used = omega (arith, p.used, q.used); in_order = q.in_order }

-- The next correlation id is taken, and no request is added yet.
pub Proceeds-next :
    (c t : Client)
    → InOrder c
    → c.correlation + 1 < 2 ^ 64
    → t.correlation ≡ next_cid c.correlation
    → t.requests ≡ c.requests
    → Proceeds 1 c t
Proceeds-next c t h room e r =
    let n : t.correlation ≡ c.correlation + 1 = omega (arith, e, room) in
    record {
      used = omega (arith, n);
      in_order =
          rw (r, n) (Between-upper 0 c.correlation (c.correlation + 1) c.requests (omega arith) h);
    }

module _ (w : World) where
  send_request-Proceeds :
      (body : Body) (msg : ℕ → Request) (c : Client)
      → InOrder c
      → c.correlation + 1 < 2 ^ 64
      → ProceedsBy 1 c (send_request w body msg c)
  unfolding send_request
  send_request-Proceeds body msg c h room =
      let c1 = record c { correlation = next_cid c.correlation } in
      let s = send-Trims w (msg c.correlation) c1 in
      let n : next_cid c.correlation ≡ c.correlation + 1 = omega (arith, room) in
      let e : (send w (msg c.correlation) c1).1.correlation ≡ c.correlation + 1 =
        s.correlation ∙ n in
      let waiting = s.requests 0 c.correlation h in
      follow-state (Proceeds 1 c) (send w (msg c.correlation) c1) _
        (record {
          used = omega (arith, e);
          in_order =
              rw e (Between-upper 0 c.correlation (c.correlation + 1) _ (omega arith) waiting);
        })
        (λ _. record {
          used = omega (arith, e);
          in_order = rw e (Between-append 0 c.correlation _ body waiting);
        })

  module _ (c : Client) (h : InOrder c) (room : c.correlation + 1 < 2 ^ 64) where
    no_request : {t : Client} → Trims c t → Proceeds 1 c t
    no_request a = Proceeds-more 1 (omega arith) (Proceeds-Trims h a)

    send_tx-Proceeds :
        (i : ℕ) (force : Bool) (o : Option Tx) → ProceedsBy 1 c (send_tx w i force o c)
    unfolding send_tx
    send_tx-Proceeds i force none = no_request (Trims-refl c)
    send_tx-Proceeds i force (some tx) =
        send_request-Proceeds (submit i force) (λ cid. create_submit_msg cid c.store.rev force tx) c
          h room

    process_command-Proceeds : (cmd : Command) → ProceedsBy 1 c (process_command w cmd c)
    unfolding process_command process_submit_cmd process_ping_cmd process_sessions_cmd
    process_command-Proceeds Command.close = no_request (abort-Trims c)
    process_command-Proceeds (Command.request (submit i force)) =
        if-elim (ProceedsBy 1 c) (not (is_some c.con)) _ _
          (no_request (on_tx-Trims i fail_submit c)) (send_tx-Proceeds i force (get_elem? c.heap i))
    process_command-Proceeds (Command.request (ping id payload)) =
        if-elim (ProceedsBy 1 c) (not (is_some c.con)) _ _ (no_request (Trims-same c _ refl refl))
          (send_request-Proceeds (ping id payload) (λ cid. create_ping_msg cid payload) c h room)
    process_command-Proceeds (Command.request (sessions id stream)) =
        if-elim (ProceedsBy 1 c) (not (is_some c.con)) _ _ (no_request (Trims-same c _ refl refl)) (
          send_request-Proceeds (sessions id stream) (λ cid. create_sessions_msg cid stream) c h
            room)

  drain_round-Proceeds :
      (n : ℕ) (cmds : List Command) (c : Client)
      → InOrder c
      → c.correlation + suc n < 2 ^ 64
      → ((c : Client) → InOrder c → c.correlation + n < 2 ^ 64 → ProceedsBy n c (drain w n c))
      → ProceedsBy (suc n) c (drain_round w (drain w n) cmds c)
  unfolding drain_round
  drain_round-Proceeds n [] c h room ih =
      Proceeds-more (suc n) (omega arith) (Proceeds-Trims h (Trims-refl c))
  drain_round-Proceeds n (cmd ∷ cmds) c h room ih =
      let c1 = record c { commands = cmds } in
      let p = process_command-Proceeds c1 h (omega (arith, room)) cmd in
      let r = ih (process_command w cmd c1).1 p.in_order (omega (arith, p.used, room)) in
      follow-state (Proceeds (suc n) c) (process_command w cmd c1) _
        (record { used = omega (arith, p.used); in_order = p.in_order })
        (λ _. record { used = omega (arith, p.used, r.used); in_order = r.in_order })

  drain-Proceeds :
      (n : ℕ) (c : Client) → InOrder c → c.correlation + n < 2 ^ 64 → ProceedsBy n c (drain w n c)
  unfolding drain
  drain-Proceeds zero c h room = Proceeds-Trims h (Trims-refl c)
  drain-Proceeds (suc n) c h room =
      drain_round-Proceeds n c.commands c h room (λ c1 h1 r1. drain-Proceeds n c1 h1 r1)

  pub process_commands-Proceeds :
      (c : Client)
      → InOrder c
      → c.correlation + length c.commands < 2 ^ 64
      → ProceedsBy (length c.commands) c (process_commands w c)
  unfolding process_commands
  process_commands-Proceeds c h room =
      if-elim (ProceedsBy (length c.commands) c) (is_closed c.state) _ _
        (Proceeds-more (length c.commands) (omega arith) (Proceeds-Trims h (Trims-refl c)))
        (drain-Proceeds (length c.commands) c h room)
