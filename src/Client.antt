-- ===== src/Client.antt =====
-- src/client_impl.hpp: the state of the client. The children hold the methods of client_impl.cpp, each
-- a function on this state; the event loop of libuv calls them one at a time.
pub mod Core
pub mod Link
pub mod Commands
pub mod Commit
pub mod Receive
pub mod Heap
pub mod Closing
pub mod Queue
pub mod Commits
pub mod Tracking
pub mod Answers
pub mod Creation
pub mod Syncing
pub mod Reading
pub mod Chunks
pub mod Stream
pub mod Trims
pub mod Trimming
pub mod Pipeline
pub mod Responses
pub mod Ordering
pub mod Events
pub mod Running
use nplex_cpp.Prelude.{ℕ, Bool, List, Option}
use nplex_cpp.Prelude.Order.{Bytes}
use nplex_cpp.Types.{Change}
use nplex_cpp.Schema.{Request}
use nplex_cpp.Messaging.Framing.{Wire}
use nplex_cpp.Key.{Utf8}
use nplex_cpp.User.{Glob, User}
use nplex_cpp.Store.{Store}
use nplex_cpp.Tx.{Tx}
use nplex_cpp.Connection.{Connection}

pub data ClientState : Type 0 where
  offline : ClientState
  connecting : ClientState
  authenticated : ClientState
  loading_snapshot : ClientState
  initialized : ClientState
  syncing : ClientState
  synced : ClientState
  closed : ClientState

pub record SessionInfo : Type 0 where
  pub user : Bytes
  pub address : Bytes
  pub code : ℕ
  pub since : ℕ
  pub until : ℕ

-- What a request still needs when the response comes. A transaction is its index in `heap`; a ping and
-- a sessions request are known by the number of the promise that they hold.
pub data Body : Type 0 where
  submit : ℕ → Bool → Body
  ping : ℕ → Bytes → Body
  sessions : ℕ → Bool → Body

-- command_t: a close command, or a request that has no correlation id yet
pub data Command : Type 0 where
  close : Command
  request : Body → Command

-- request_t in m_requests
pub record Pending : Type 0 where
  pub cid : ℕ
  pub body : Body

-- submit_req_t in m_accepted
pub record Accepted : Type 0 where
  pub tx : ℕ
  pub erev : ℕ

-- What the promise of a ping or of a sessions request was given.
pub data Reply : Type 0 where
  pong : Reply
  listed : List SessionInfo → Reply
  failed : Reply

pub record Client : Type 0 where
  pub state : ClientState
  pub user : Option User
  pub store : Store
  pub heap : List Tx
  pub transactions : List ℕ
  pub user_name : Bytes
  pub password : Bytes
  pub max_active_txs : ℕ
  pub rev0 : ℕ
  pub connections : List Connection
  pub con : Option ℕ
  pub correlation : ℕ
  pub data_cid : ℕ
  pub sessions_cid : ℕ
  pub populated : Bool
  pub has_error : Bool
  pub commands : List Command
  pub requests : List Pending
  pub accepted : List Accepted
  pub replies : List (ℕ × Reply)
  pub con_lost_timer : Bool
  pub reconnect_timer : Bool
  pub running : Bool
  pub stopped : Bool
  pub sent : List Request
  pub wakeups : ℕ

-- What the code below the client does, and what the callbacks of its user do: the checksum and
-- the binary form of messages, the code that `uv_write` returns, the first error of a connect (by connection), whether a
-- transaction has an owner besides `m_transactions`, and the answers of the manager and the reactor.
pub record World : Type 0 where
  pub utf8 : Utf8
  pub glob : Glob
  pub wire : Wire
  pub write_rc : ℕ
  pub connect_rc : ℕ → ℕ
  pub is_owned : ℕ → Bool
  pub failed_wait : Option ℕ
  pub retries_lost : Bool
  pub established_throws : Bool
  pub has_reactor : Bool
  pub initial_data_throws : Bool
