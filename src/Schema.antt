-- ===== src/Schema.antt =====
-- The tables of the flatbuffers schema (src/schema1.fbs, schema2.fbs, schema3.fbs), as the readers
-- that flatc generates give them: an optional field is an `Option`.
use nplex_cpp.Prelude.{ℕ, Bool, List, Option}
use nplex_cpp.Prelude.Order.{Bytes}

pub record KeyValue : Type 0 where
  pub key : Option Bytes
  pub value : Option Bytes

pub record Update : Type 0 where
  pub rev : ℕ
  pub user : Bytes
  pub timestamp : ℕ
  pub tx_type : ℕ
  pub upserts : Option (List (Option KeyValue))
  pub deletes : Option (List (Option Bytes))

pub record Snapshot : Type 0 where
  pub rev : ℕ
  pub updates : Option (List (Option Update))

pub data SubmitCode : Type 0 where
  accepted : SubmitCode
  try_later : SubmitCode
  no_modifications : SubmitCode
  rejected_permission : SubmitCode
  rejected_old_revision : SubmitCode
  rejected_integrity : SubmitCode
  rejected_ensure : SubmitCode
  error_invalid_revision : SubmitCode
  error_duplicate_key : SubmitCode
  error_invalid_key : SubmitCode
  invalid_message : SubmitCode

pub data LoginCode : Type 0 where
  authorized : LoginCode
  invalid_credentials : LoginCode
  too_many_connections : LoginCode
  unsupported_schema : LoginCode

pub record AclTable : Type 0 where
  pub pattern : Bytes
  pub mode : ℕ

pub record SessionTable : Type 0 where
  pub user : Option Bytes
  pub address : Option Bytes
  pub code : ℕ
  pub since : ℕ
  pub until : ℕ

pub record LoginResponse : Type 0 where
  pub cid : ℕ
  pub code : LoginCode
  pub rev0 : ℕ
  pub crev : ℕ
  pub can_force : Bool
  pub can_monitor : Bool
  pub keepalive : ℕ
  pub permissions : Option (List AclTable)

pub record SnapshotResponse : Type 0 where
  pub cid : ℕ
  pub accepted : Bool
  pub snapshot : Option Snapshot

pub record UpdatesResponse : Type 0 where
  pub cid : ℕ
  pub crev : ℕ
  pub accepted : Bool

pub record UpdatesPush : Type 0 where
  pub cid : ℕ
  pub crev : ℕ
  pub updates : Option (List Update)

pub record SubmitResponse : Type 0 where
  pub cid : ℕ
  pub code : SubmitCode
  pub erev : ℕ

pub record SessionsResponse : Type 0 where
  pub cid : ℕ
  pub sessions : Option (List (Option SessionTable))

pub record SessionsPush : Type 0 where
  pub cid : ℕ
  pub session : Option SessionTable

-- The messages of the server. A message without content is `empty`; one that only a client sends
-- is `other`.
pub data Message : Type 0 where
  empty : Message
  login_response : LoginResponse → Message
  submit_response : SubmitResponse → Message
  snapshot_response : SnapshotResponse → Message
  updates_response : UpdatesResponse → Message
  updates_push : UpdatesPush → Message
  keepalive_push : Message
  ping_response : ℕ → Message
  sessions_response : SessionsResponse → Message
  sessions_push : SessionsPush → Message
  other : Message

pub record SubmitRequest : Type 0 where
  pub cid : ℕ
  pub crev : ℕ
  pub tx_type : ℕ
  pub upserts : List (Bytes × Bytes)
  pub deletes : List Bytes
  pub ensures : List Bytes
  pub force : Bool

-- The messages of the client.
pub data Request : Type 0 where
  ping_request : ℕ → Bytes → Request
  login_request : ℕ → ℕ → Bytes → Bytes → Request
  snapshot_request : ℕ → ℕ → Request
  updates_request : ℕ → ℕ → Request
  submit_request : SubmitRequest → Request
  sessions_request : ℕ → Bool → Request
