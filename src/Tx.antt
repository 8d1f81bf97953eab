-- ===== src/Tx.antt =====
-- src/transaction_impl.hpp and .cpp, and the enums of include/nplex-cpp/transaction.hpp: the state of
-- a transaction. The locks and the log are not modelled: a method runs alone.
pub mod Access
pub mod View
pub mod Scan
pub mod Prefix
pub mod Visits
pub mod Effects
pub mod Scanned
pub mod Removal
pub mod Sorted
pub mod Ordered
pub mod Items
pub mod Writing
pub mod Lifecycle
pub mod Outcomes
pub mod Final
pub mod Leaving
pub mod Session
pub mod Tracking
pub mod Conflicts
pub mod Serializable
pub mod Repeatable
pub mod Track
pub mod Submit
use nplex_cpp.Prelude.{ℕ, Bool, true, false, ◌||◌, List, [], Option, none, some, if◌then◌else◌}
use nplex_cpp.Prelude.Order.{Bytes}
use nplex_cpp.OrderedMap.{Map}
use nplex_cpp.Types.{Value}
use nplex_cpp.User.{User}

pub data State : Type 0 where
  opened submitted accepted rejected committed discarded aborted : State

pub data Isolation : Type 0 where
  read_committed repeatable_read serializable : Isolation

pub data ItemAction : Type 0 where
  read snapshot upsert delete : ItemAction

-- entry_t
pub record Item : Type 0 where
  pub action : ItemAction
  pub value : Option Value

-- submit_e
pub data SubmitResult : Type 0 where
  no_modifications : SubmitResult
  committed : SubmitResult
  try_later : SubmitResult
  rejected_permission : SubmitResult
  rejected_old_revision : SubmitResult
  rejected_integrity : SubmitResult
  rejected_ensure : SubmitResult
  rejected_other : SubmitResult

-- What a promise was given: `set_value` or `set_exception`.
pub data Outcome : Type 0 where
  value : SubmitResult → Outcome
  failure : Outcome

-- std::promise<submit_e>
pub record Promise : Type 0 where
  pub outcome : Option Outcome
  pub retrieved : Bool

abbrev pub new_promise : Promise
new_promise = record { outcome = none; retrieved = false }

-- `earlier` has the promises that m_promise held before: their futures are with the caller.
pub record Tx : Type 0 where
  pub user : Option User
  pub rev_creation : ℕ
  pub items : Map Bytes Item
  pub ensures : Map Bytes (Unit {0})
  pub isolation : Isolation
  pub tx_type : ℕ
  pub state : State
  pub dirty : Bool
  pub read_only : Bool
  pub promise : Promise
  pub earlier : List Promise

-- The constructors; `rev` is the revision of the store.
abbrev pub new_tx : Option User → ℕ → Isolation → Bool → Tx
new_tx user rev isolation read_only = record {
  user = user;
  rev_creation = rev;
  items = [];
  ensures = [];
  isolation = isolation;
  tx_type = 0;
  state = State.opened;
  dirty = false;
  read_only = read_only;
  promise = new_promise;
  earlier = [];
}

abbrev pub is_open : State → Bool
is_open State.opened = true
is_open _ = false

abbrev pub is_submitted : State → Bool
is_submitted State.submitted = true
is_submitted _ = false

abbrev pub is_accepted : State → Bool
is_accepted State.accepted = true
is_accepted _ = false

-- transaction::is_closed
abbrev pub is_closed : State → Bool
is_closed State.rejected = true
is_closed State.committed = true
is_closed State.discarded = true
is_closed State.aborted = true
is_closed _ = false

-- Setting the state that it has already changes nothing, so that test leaves no trace.
abbrev pub set_state : State → Tx → Tx
set_state state tx = if is_closed tx.state then tx else record tx { state = state }

-- transaction_impl::set_type
unfoldable pub set_type : ℕ → Tx → Tx
set_type type tx = record tx { tx_type = type }

-- transaction_impl::rev
abbrev pub tx_rev : ℕ → Tx → ℕ
tx_rev store_rev tx = elim tx.isolation [ Isolation.serializable ↦ tx.rev_creation | _ ↦ store_rev ]
