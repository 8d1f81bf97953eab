-- ===== src/Client/Queue.antt =====
-- The command queue of the client: process_commands and push_command of src/client_impl.cpp.
use nplex_cpp.Prelude.{
  ℕ, zero, suc, ◌≡◌, refl, Bool, false, List, [], ◌∷◌, Option, none, some, is_some, inl, inr,
  Bool-cases, length, ◌≤◌, get_elem?, arith,
}
use nplex_cpp.Result.{ok, Exec, follow-elim}
use nplex_cpp.Schema.{Request}
use nplex_cpp.Tx.{Tx}
use nplex_cpp.Tx.Submit.{fail_submit}
use nplex_cpp.Messaging.{create_ping_msg, create_sessions_msg, create_submit_msg}
use nplex_cpp.Client.{Client, Command, Body, World, submit, ping, sessions}
use nplex_cpp.Client.Core.{is_closed, next_cid, on_tx, on_tx_found, send, send_on, set_state, abort}
use nplex_cpp.Client.Commands.{
  send_request, send_tx, process_submit_cmd, process_ping_cmd, process_sessions_cmd,
  process_command, drain_round, drain, process_commands,
}

send-commands : (w : World) (msg : Request) (c : Client) → (send w msg c).1.commands ≡ c.commands
unfolding send send_on
send-commands w msg c = ground arith

send_request-commands :
    (w : World) (body : Body) (msg : ℕ → Request) (c : Client)
    → (send_request w body msg c).1.commands ≡ c.commands
unfolding send_request
send_request-commands w body msg c =
    ground (
      send-commands w (msg c.correlation) (record c { correlation = next_cid c.correlation }),
      arith,
    )

on_tx-commands :
    (i : ℕ) (f : Exec Tx (Unit {0})) (c : Client) → (on_tx i f c).1.commands ≡ c.commands
unfolding on_tx on_tx_found
on_tx-commands i f c = ground arith

abort-commands : (c : Client) → length (abort c).commands ≤ length c.commands
unfolding abort set_state
abort-commands c = ground arith

send_tx-commands :
    (w : World) (i : ℕ) (force : Bool) (o : Option Tx) (c : Client)
    → (send_tx w i force o c).1.commands ≡ c.commands
unfolding send_tx
send_tx-commands w i force none c = refl
send_tx-commands w i force (some tx) c =
    send_request-commands w (submit i force) (λ cid. create_submit_msg cid c.store.rev force tx) c

-- A command adds none.
process_command-length :
    (w : World) (cmd : Command) (c : Client)
    → length (process_command w cmd c).1.commands ≤ length c.commands
unfolding process_command process_submit_cmd process_ping_cmd process_sessions_cmd
process_command-length w Command.close c = abort-commands c
process_command-length w (Command.request (submit i force)) c = elim (Bool-cases (is_some c.con)) [
  | inl e ↦ rw (e, (send_tx-commands w i force (get_elem? c.heap i) c)) (omega arith)
  | inr e ↦ rw (e, (on_tx-commands i fail_submit c)) (omega arith)
]
process_command-length w (Command.request (ping id payload)) c = elim (Bool-cases (is_some c.con)) [
  | inl e ↦
      rw (e, (send_request-commands w (ping id payload) (λ cid. create_ping_msg cid payload) c))
        (omega arith)
  | inr e ↦ rw e (omega arith)
]
process_command-length w (Command.request (sessions id stream)) c =
    elim (Bool-cases (is_some c.con)) [
      | inl e ↦
          rw
            (
              e,
              (send_request-commands w (sessions id stream) (λ cid. create_sessions_msg cid stream)
                  c),
            )
            (omega arith)
      | inr e ↦ rw e (omega arith)
    ]

empty_of_length : {A : Type 0} (xs : List A) → length xs ≤ 0 → xs ≡ []
empty_of_length [] h = refl
empty_of_length (x ∷ xs) h = absurd (omega (arith, h))

-- One round empties the queue where the rounds behind it do.
drain_round-empties :
    (w : World) (n : ℕ) (next : Exec Client (Unit {0})) (cs : List Command) (c : Client)
    → ((d : Client) → length d.commands ≤ n → (next d).0 ≡ ok tt → (next d).1.commands ≡ [])
    → c.commands ≡ cs
    → length cs ≤ suc n
    → (drain_round w next cs c).0 ≡ ok tt
    → (drain_round w next cs c).1.commands ≡ []
unfolding drain_round
drain_round-empties w n next [] c go e l h = e
drain_round-empties w n next (cmd ∷ cs) c go e l h =
    follow-elim (λ _ d. d.commands ≡ []) (process_command w cmd (record c { commands = cs }))
      (λ _. next) h
      (λ _ _ h1.
        go _ (omega (arith, l, process_command-length w cmd (record c { commands = cs }))) h1)

drain-empties :
    (w : World) (n : ℕ) (c : Client)
    → length c.commands ≤ n
    → (drain w n c).0 ≡ ok tt
    → (drain w n c).1.commands ≡ []
unfolding drain
drain-empties w zero c l h = empty_of_length c.commands l
drain-empties w (suc n) c l h =
    drain_round-empties w n (drain w n) c.commands c (drain-empties w n) refl l h

-- When the loop over the commands of a client that is not closed returns without an exception, every
-- command has been taken: as many rounds as there were commands are enough.
pub process_commands-empties :
    (w : World) (c : Client)
    → is_closed c.state ≡ false
    → (process_commands w c).0 ≡ ok tt
    → (process_commands w c).1.commands ≡ []
unfolding process_commands
process_commands-empties w c o = rw o (λ h. drain-empties w (length c.commands) c (omega arith) h)
