-- ===== src/Connection.antt =====
-- src/connection.cpp: the state of a connection. The calls of libuv are events and return codes: 0 is
-- success, another number is an error code. The address is resolved outside the model.
pub mod Limits
use nplex_cpp.Prelude.{
  ℕ, ◌+◌, ◌-◌, ◌%◌, ◌^◌, Bool, true, false, not, ◌||◌, Option, none, some, leb, ltb, ◌==◌,
  if◌then◌else◌,
}
use nplex_cpp.Result.{Exec, pure, throw, not_established, already_open, connect_failed, follow}

pub data ConnectionState : Type 0 where
  closed connecting connected : ConnectionState

-- `closing` is uv_is_closing. The limits are those of connection_params_t, 0 already replaced.
pub record Connection : Type 0 where
  pub state : ConnectionState
  pub error : ℕ
  pub closing : Bool
  pub unack_msgs : ℕ
  pub unack_bytes : ℕ
  pub recv_msgs : ℕ
  pub recv_bytes : ℕ
  pub sent_msgs : ℕ
  pub sent_bytes : ℕ
  pub max_unack_msgs : ℕ
  pub max_unack_bytes : ℕ

abbrev pub err_closed_by_local : ℕ
err_closed_by_local = 1000

abbrev pub err_closed_by_peer : ℕ
err_closed_by_peer = 1001

abbrev pub err_msg_error : ℕ
err_msg_error = 1002

abbrev pub err_msg_unexpected : ℕ
err_msg_unexpected = 1003

abbrev pub err_queue_exceeded : ℕ
err_queue_exceeded = 1004

abbrev pub err_already_connected : ℕ
err_already_connected = 1005

abbrev pub err_con_lost : ℕ
err_con_lost = 1006

abbrev pub err_auth : ℕ
err_auth = 1007

abbrev pub err_load : ℕ
err_load = 1008

abbrev pub uint32_max : ℕ
uint32_max = 4294967295

-- 0 stands for no limit
abbrev pub limit : ℕ → ℕ
limit n = if n == 0 then uint32_max else n

abbrev pub new_connection : ℕ → ℕ → Connection
new_connection max_msgs max_bytes = record {
  state = ConnectionState.closed;
  error = 0;
  closing = false;
  unack_msgs = 0;
  unack_bytes = 0;
  recv_msgs = 0;
  recv_bytes = 0;
  sent_msgs = 0;
  sent_bytes = 0;
  max_unack_msgs = limit max_msgs;
  max_unack_bytes = limit max_bytes;
}

abbrev pub is_closed : ConnectionState → Bool
is_closed ConnectionState.closed = true
is_closed _ = false

abbrev pub is_connected : ConnectionState → Bool
is_connected ConnectionState.connected = true
is_connected _ = false

-- The counters are size_t.
abbrev pub add64 : ℕ → ℕ → ℕ
add64 a b = (a + b) % 2 ^ 64

abbrev pub sub64 : ℕ → ℕ → ℕ
sub64 a b = (a + 2 ^ 64 - b) % 2 ^ 64

-- uv_tcp_init makes a handle that is not closing; `rc` is the first error of the calls behind it
unfoldable pub connect : ℕ → Exec Connection (Unit {0})
connect rc c =
    if not (is_closed c.state)
    then throw already_open c
    else let c' = record c {
      state = ConnectionState.connecting;
      error = 0;
      closing = false;
      unack_msgs = 0;
      unack_bytes = 0;
      recv_msgs = 0;
      recv_bytes = 0;
      sent_msgs = 0;
      sent_bytes = 0;
    } in
      if rc == 0 then pure tt c' else throw connect_failed c'

-- the first cause stays; uv_close is called once
unfoldable pub disconnect : ℕ → Connection → Connection
disconnect rc c =
    if is_closed c.state
    then c
    else record c { error = (if c.error == 0 then rc else c.error); closing = true }

-- `len` is the length of the framed message, `rc` what uv_write returns
unfoldable pub send : ℕ → ℕ → Exec Connection (Unit {0})
unfolding disconnect
send len rc c =
    if not (is_connected c.state)
    then throw not_established c
    else if leb c.max_unack_msgs c.unack_msgs
    then pure tt (disconnect err_queue_exceeded c)
    else if leb c.max_unack_bytes (add64 c.unack_bytes len)
    then pure tt (disconnect err_queue_exceeded c)
    else if not (rc == 0)
    then pure tt (disconnect rc c)
    else pure tt
        (record c { unack_msgs = add64 c.unack_msgs 1; unack_bytes = add64 c.unack_bytes len })

-- cb_tcp_write: whether the client is told that the message was delivered
unfoldable pub cb_tcp_write : ℕ → ℕ → Connection → Bool × Connection
unfolding disconnect
cb_tcp_write len status c =
    let c' = record c {
      unack_msgs = sub64 c.unack_msgs 1;
      unack_bytes = sub64 c.unack_bytes len;
      sent_msgs = add64 c.sent_msgs 1;
      sent_bytes = add64 c.sent_bytes len;
    } in
    if status == 0 then (true, c') else (false, disconnect status c')

-- cb_tcp_connect: whether the client is told that the connection is established
unfoldable pub cb_tcp_connect : ℕ → Connection → Bool × Connection
unfolding disconnect
cb_tcp_connect status c =
    if status == 0
    then (true, record c { state = ConnectionState.connected })
    else (false, disconnect status c)

-- cb_tcp_close; the client is told
unfoldable pub cb_tcp_close : Connection → Connection
cb_tcp_close c = record c { state = ConnectionState.closed }
