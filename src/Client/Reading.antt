-- ===== src/Client/Reading.antt =====
-- src/connection.cpp: cb_tcp_read, which cuts the input of a connection into messages. Only this
-- callback and `connect`, which empties it, touch m_input_msg: it is passed beside the client. Where a
-- handler throws, the exception leaves the callback.
use nplex_cpp.Prelude.{
  ℕ, zero, suc, [], ◌∷◌, ◌++◌, Option, none, some, length, drop, ltb, if◌then◌else◌,
}
use nplex_cpp.Prelude.Order.{Bytes}
use nplex_cpp.Result.{Exec, pure, follow}
use nplex_cpp.Schema.{Message}
use nplex_cpp.Messaging.Framing.{ntohl_ptr, parse_network_msg}
use nplex_cpp.Connection.{err_closed_by_peer, err_msg_error, add64}
use nplex_cpp.Client.{Client, World}
use nplex_cpp.Client.Core.{on_connection, disconnect}
use nplex_cpp.Client.Receive.{on_msg_received}

-- m_stats.recv_msgs++, m_stats.recv_bytes += len
unfoldable pub count_received : ℕ → ℕ → Client → Client
unfolding on_connection
count_received i len =
    on_connection i (λ con. record con {
      recv_msgs = add64 con.recv_msgs 1;
      recv_bytes = add64 con.recv_bytes len;
    })

-- A message at the head of the input, which `next` goes on behind.
unfoldable pub take_msg :
    World → ℕ → ℕ → Bytes → (Bytes → Exec Client Bytes) → Option Message → Exec Client Bytes
unfolding count_received
take_msg w i len input next none c = pure input (disconnect i err_msg_error c)
take_msg w i len input next (some msg) c =
    follow (on_msg_received w i msg (count_received i len c)) λ _. next (drop len input)

-- One round of the loop.
unfoldable pub read_msg : World → ℕ → Bytes → (Bytes → Exec Client Bytes) → Exec Client Bytes
unfolding take_msg
read_msg w i input next c =
    if ltb (length input) 4
    then pure input c
    else let len = ntohl_ptr input in
      if ltb (length input) len
      then pure input c
      else take_msg w i len input next (parse_network_msg w.wire input len) c

unfoldable pub read_loop : ℕ → World → ℕ → Bytes → Exec Client Bytes
unfolding read_msg
read_loop zero w i input = pure input
read_loop (suc fuel) w i input = read_msg w i input (read_loop fuel w i)

-- A message takes more than twelve bytes off the input, so its length is fuel enough.
unfoldable pub read_msgs : World → ℕ → Bytes → Exec Client Bytes
unfolding read_loop
read_msgs w i input = read_loop (length input) w i input

-- What libuv reports: nread < 0 is an error, by its code.
pub data Input : Type 0 where
  eof : Input
  fails : ℕ → Input
  bytes : Bytes → Input

unfoldable pub cb_tcp_read : World → ℕ → Input → Bytes → Exec Client Bytes
unfolding read_msgs
cb_tcp_read w i eof input c = pure input (disconnect i err_closed_by_peer c)
cb_tcp_read w i (fails rc) input c = pure input (disconnect i rc c)
cb_tcp_read w i (bytes []) input c = pure input c
cb_tcp_read w i (bytes (b ∷ bs)) input c = read_msgs w i (input ++ b ∷ bs) c
