-- ===== src/Tests/Data.antt =====
-- Concrete data: a matcher that takes equal texts, a reader of one-byte code points, a small store,
-- an update of it, transactions and a client.
use nplex_cpp.Prelude.{ℕ, ◌+◌, ◌%◌, ◌==◌, if◌then◌else◌, true, false, List, [], ◌∷◌, none, some}
use nplex_cpp.Messaging.Framing.{Wire}
use nplex_cpp.Prelude.Order.{Bytes, bytes_order, same}
use nplex_cpp.Types.{Value, Change, ChangeAction}
use nplex_cpp.Schema.{Update, keepalive_push, empty}
use nplex_cpp.Key.{Utf8}
use nplex_cpp.User.{Glob, User}
use nplex_cpp.Store.{Store}
use nplex_cpp.Tx.{Tx, State, Isolation, ItemAction, new_tx}
use nplex_cpp.Connection.{Connection, new_connection}
use nplex_cpp.Connection
use nplex_cpp.Client.{Client, ClientState, World, Body, Command}

abbrev pub utf8 : Utf8
utf8 = record { valid = λ _. true; codepoint = λ bs. elim bs [ [] ↦ (0, []) | c ∷ cs ↦ (c, cs) ] }

abbrev pub glob : Glob
glob = λ text pattern. same text pattern

abbrev pub key_a : Bytes
key_a = 97 ∷ []

abbrev pub key_b : Bytes
key_b = 98 ∷ []

abbrev pub old_value : Value
old_value = record { content = 49 ∷ []; meta = some 0 }

-- "a" holds "1" at revision 1.
abbrev pub store : Store
store = record {
  rev = 1;
  entries = (key_a, old_value) ∷ [];
  metas = (1, 0) ∷ [];
  users = (117 ∷ [], 1) ∷ [];
  heap = record { rev = 1; user = 117 ∷ []; timestamp = 5; tx_type = 0; nrefs = 1 } ∷ [];
}

-- At revision 2 another user writes "2" under "a" and creates "b".
abbrev pub upd : Update
upd = record {
  rev = 2;
  user = 118 ∷ [];
  timestamp = 6;
  tx_type = 0;
  upserts = some (
      some (record { key = some key_a; value = some (50 ∷ []) })
      ∷ some (record { key = some key_b; value = some (51 ∷ []) })
      ∷ []);
  deletes = some [];
}

abbrev pub new_a : Value
new_a = record { content = 50 ∷ []; meta = some 1 }

abbrev pub new_b : Value
new_b = record { content = 51 ∷ []; meta = some 1 }

-- what the update changes
abbrev pub changes : List Change
changes =
    record {
      action = ChangeAction.update;
      key = key_a;
      new_value = some new_a;
      old_value = some old_value;
    }
    ∷ record { action = ChangeAction.create; key = key_b; new_value = some new_b; old_value = none }
    ∷ []

abbrev pub user : User
user = record {
  name = 119 ∷ [];
  permissions = record { mode = 15; pattern = key_a } ∷ [];
  can_force = false;
  can_monitor = true;
}

-- A writer of "a".
abbrev pub writer : Isolation → Tx
writer isolation = record (new_tx (some user) 1 isolation false) {
  items =
      (
        key_a,
        record {
          action = ItemAction.upsert;
          value = some (record { content = 57 ∷ []; meta = none });
        },
      )
      ∷ [];
}

abbrev pub submitted : Tx
submitted = record (writer Isolation.serializable) {
  state = State.submitted;
  promise = record { outcome = none; retrieved = true };
}

abbrev pub accepted : Tx
accepted = record submitted { state = State.accepted }

abbrev pub connection : Connection
connection = record (new_connection 10 1000) { state = Connection.ConnectionState.connected }

abbrev pub sum : Bytes → ℕ → ℕ
sum [] p = p
sum (b ∷ bs) p = sum bs ((p + b) % 4294967296)

-- The checksum is the sum of the bytes, and every message is a keep-alive that no request uses.
abbrev pub wire : Wire
wire = record {
  calc = λ bs p. sum bs (p % 4294967296);
  null_crc = 0;
  encode = λ _. 7 ∷ [];
  decode = λ bs. elim bs [ [] ↦ none | b ∷ _ ↦ some (if b == 7 then keepalive_push else empty) ];
}

abbrev pub world : World
world = record {
  utf8 = utf8;
  glob = glob;
  wire = wire;
  write_rc = 0;
  connect_rc = λ _. 0;
  is_owned = λ _. true;
  failed_wait = none;
  retries_lost = true;
  established_throws = false;
  has_reactor = true;
  initial_data_throws = false;
}

-- A synced client with an accepted transaction, an open one and a submitted one, whose request waits
-- behind a ping.
abbrev pub client : Client
client = record {
  state = ClientState.synced;
  user = some user;
  store = store;
  heap = accepted ∷ writer Isolation.repeatable_read ∷ submitted ∷ [];
  transactions = 0 ∷ 1 ∷ 2 ∷ [];
  user_name = 119 ∷ [];
  password = 120 ∷ [];
  max_active_txs = 4;
  rev0 = 1;
  connections = connection ∷ [];
  con = some 0;
  correlation = 9;
  data_cid = 3;
  sessions_cid = 0;
  populated = true;
  has_error = false;
  commands = Command.request (Body.ping 1 []) ∷ Command.close ∷ [];
  requests =
      record { cid = 7; body = Body.ping 0 [] }
      ∷ record { cid = 8; body = Body.submit 2 false }
      ∷ [];
  accepted = record { tx = 0; erev = 2 } ∷ [];
  replies = [];
  con_lost_timer = true;
  reconnect_timer = false;
  running = true;
  stopped = false;
  sent = [];
  wakeups = 0;
}
