-- ===== src/Tests/Clients.antt =====
-- The handlers of a client at concrete states.
use nplex_cpp.Prelude.{◌≡◌, refl, arith, false, [], ◌∷◌, some, get_elem?, length}
use nplex_cpp.Result.{ok}
use nplex_cpp.Schema.{SubmitCode, SubmitResponse}
use nplex_cpp.Store.{apply_update}
use nplex_cpp.Tx.{Isolation}
use nplex_cpp.Tx.Track
use nplex_cpp.Client.{Client, Body, Command}
use nplex_cpp.Client.Core.{
  cancel_requests, abort, purge_unused_txs, purge_from, send, send_on, set_state,
}
use nplex_cpp.Client.Commands.{
  create_tx, process_commands, drain, drain_round, process_command, process_ping_cmd, send_request,
}
use nplex_cpp.Client.Commit.{process_update}
use nplex_cpp.Client.Receive.{process_submit_resp}
use nplex_cpp.Client.Closing.{IsShut, abort-IsShut, cancel_requests-Stays}
use nplex_cpp.Client.Queue.{process_commands-empties}
use nplex_cpp.Connection.{uint32_max}
use nplex_cpp.Client.Commits.{Commits, process_update-Commits}
use nplex_cpp.Client.Tracking.{process_update-Tracks}
use nplex_cpp.Client.Answers.{Answers}
use nplex_cpp.Client.Pipeline.{InOrder, ProceedsBy}
use nplex_cpp.Client.Events.{Event, handle, handle-Proceeds, process_submit_resp-InOrder}
use nplex_cpp.Client.Creation.{
  IsTracked, all_below, Creates, create_tx-IsTracked, create_tx-Creates,
}
use nplex_cpp.Connection
use nplex_cpp.Tests.Data.{glob, upd, changes, writer, submitted, accepted, world, client, store}
use nplex_cpp.Tests.Stores.{stored}

process_update-Commits_example :
    Commits 0 accepted (apply_update world.utf8 upd store).1 [] (process_update world upd client)
process_update-Commits_example =
    process_update-Commits world upd client (record { tx = 0; erev = 2 }) [] accepted (changes, 1)
      stored refl refl refl refl refl

returned : (process_update world upd client).0 ≡ ok tt
returned =
    (process_update-Commits world upd client (record { tx = 0; erev = 2 }) [] accepted (changes, 1)
      stored refl refl refl refl refl).returns

process_update-Tracks_example :
    get_elem? (process_update world upd client).1.heap 1
    ≡ some (Track.update glob changes (writer Isolation.repeatable_read))
process_update-Tracks_example =
    process_update-Tracks world upd client 1 (writer Isolation.repeatable_read) (changes, 1) stored
      returned refl refl refl refl refl

abbrev response : SubmitResponse
response = record { cid = 8; code = SubmitCode.accepted; erev = 3 }

in_order : InOrder client
in_order = (omega arith, (omega arith, omega arith))

process_submit_resp-InOrder_example :
    Answers response 2 submitted [] client.accepted (process_submit_resp response client)
process_submit_resp-InOrder_example =
    process_submit_resp-InOrder response 2 false submitted client
      (record { cid = 7; body = Body.ping 0 [] } ∷ [])
      (record { cid = 8; body = Body.submit 2 false }) [] in_order refl refl refl refl refl

handle-Proceeds_example : ProceedsBy 2 client (handle world Event.woken client)
handle-Proceeds_example = handle-Proceeds world Event.woken client in_order (omega arith)

tracked : IsTracked client
unfolding all_below
tracked = record { bounded = omega arith; once = refl; below = refl }

create_tx-IsTracked_example : IsTracked (create_tx world Isolation.serializable false client).1
create_tx-IsTracked_example = create_tx-IsTracked world Isolation.serializable false client tracked

room : length (purge_unused_txs world client).transactions ≡ 3
unfolding purge_unused_txs purge_from
room = refl

create_tx-Creates_example :
    ((create_tx world Isolation.serializable false client).0 ≡ ok 3)
    × Creates Isolation.serializable false client
        (create_tx world Isolation.serializable false client).1
        3
create_tx-Creates_example =
    create_tx-Creates world Isolation.serializable false client refl refl (omega (arith, room))

ran : (process_commands world client).0 ≡ ok tt
unfolding process_commands drain drain_round process_command process_ping_cmd send_request send
    send_on Connection.send abort set_state
ran = refl

process_commands-empties_example : (process_commands world client).1.commands ≡ []
process_commands-empties_example = process_commands-empties world client refl ran

cancel_requests-Stays_example : get_elem? (cancel_requests client).1.heap 0 ≡ some accepted
cancel_requests-Stays_example = cancel_requests-Stays 0 accepted client refl refl

abort-IsShut_example : IsShut (abort client)
abort-IsShut_example = abort-IsShut client refl

-- Two commands wait.
abbrev unlimited : Client
unlimited = record client {
  max_active_txs = uint32_max;
  commands = Command.close ∷ Command.close ∷ [];
}
