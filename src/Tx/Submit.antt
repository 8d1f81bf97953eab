-- ===== src/Tx/Submit.antt =====
-- src/transaction_impl.cpp: submit, discard, set_submit_result and confirm_commit, with the promise
-- that they share.
use nplex_cpp.Prelude.{
  Bool, true, false, not, ◌&&◌, ◌||◌, [], ◌∷◌, ◌++◌, Option, none, some, is_some, if◌then◌else◌,
}
use nplex_cpp.Prelude.Order.{Bytes}
use nplex_cpp.OrderedMap.{Map}
use nplex_cpp.Result.{
  not_open, no_client, queue_overflow, promise_already_satisfied, future_already_retrieved, Exec,
  pure, throw, follow,
}
use nplex_cpp.User.{User}
use nplex_cpp.Schema.{SubmitCode}
use nplex_cpp.Tx.{
  Tx, State, Item, ItemAction, SubmitResult, Outcome, new_promise, is_open, is_submitted,
  is_accepted, set_state,
}

-- m_promise.set_value, m_promise.set_exception
unfoldable pub fulfil : Outcome → Exec Tx (Unit {0})
fulfil outcome tx =
    if is_some tx.promise.outcome
    then throw promise_already_satisfied tx
    else pure tt (record tx { promise = record tx.promise { outcome = some outcome } })

-- m_promise.get_future
unfoldable pub get_future : Exec Tx (Unit {0})
get_future tx =
    if tx.promise.retrieved
    then throw future_already_retrieved tx
    else pure tt (record tx { promise = record tx.promise { retrieved = true } })

-- The `catch (...)` of `discard`.
unfoldable pub discard : Tx → Tx
unfolding fulfil
discard tx = (fulfil Outcome.failure (set_state State.discarded tx)).1

abbrev pub modifies : ItemAction → Bool
modifies ItemAction.upsert = true
modifies ItemAction.delete = true
modifies _ = false

unfoldable pub has_modifications : Map Bytes Item → Bool
has_modifications [] = false
has_modifications ((k, item) ∷ items) = modifies item.action || has_modifications items

-- What `m_client.lock()` and `push_command` give: the client is gone, its command queue is full,
-- or the request goes through (a closed client drops it).
pub data Link : Type 0 where
  gone full ready : Link

-- m_promise.set_value(result); set_state(state); return m_promise.get_future()
unfoldable pub settle : SubmitResult → State → Exec Tx Bool
unfolding fulfil get_future
settle result state tx =
    follow (fulfil (Outcome.value result) tx)
      λ _ tx1. follow (get_future (set_state state tx1)) λ _. pure false

unfoldable pub refuses_force : Bool → Option User → Bool
refuses_force force none = false
refuses_force force (some user) = force && not user.can_force

-- The part behind the checks: it returns whether a request was pushed.
unfoldable pub send_submit : Link → Bool → Exec Tx Bool
send_submit Link.gone force tx = throw no_client tx
send_submit Link.full force tx =
    if refuses_force force tx.user
    then settle SubmitResult.rejected_permission State.rejected tx
    else throw queue_overflow (set_state State.submitted tx)
send_submit Link.ready force tx =
    if refuses_force force tx.user
    then settle SubmitResult.rejected_permission State.rejected tx
    else follow (get_future (set_state State.submitted tx)) λ _. pure true

unfoldable pub submit : Link → Bool → Exec Tx Bool
submit link force tx =
    if not (is_open tx.state)
    then throw not_open tx
    else if tx.read_only
    then settle SubmitResult.no_modifications State.discarded tx
    else if not force && not (has_modifications tx.items)
    then settle SubmitResult.no_modifications State.discarded tx
    else if not force && tx.dirty
    then settle SubmitResult.rejected_integrity State.rejected tx
    else send_submit link force tx

-- set_submit_result(std::exception_ptr)
unfoldable pub fail_submit : Exec Tx (Unit {0})
unfolding fulfil
fail_submit tx =
    if is_submitted tx.state
    then fulfil Outcome.failure (set_state State.aborted tx)
    else pure tt tx

unfoldable pub close_submit : State → SubmitResult → Exec Tx (Unit {0})
unfolding fulfil
close_submit state result tx = fulfil (Outcome.value result) (set_state state tx)

-- m_promise = std::promise{}: a promise without a result is broken then.
abbrev pub replace_promise : Tx → Tx
replace_promise tx = record tx {
  promise = new_promise;
  earlier =
      tx.earlier
      ++ (if is_some tx.promise.outcome
          then tx.promise
          else record tx.promise { outcome = some Outcome.failure })
        ∷ [];
}

unfoldable pub answer_submit : SubmitCode → Exec Tx (Unit {0})
unfolding close_submit
answer_submit SubmitCode.accepted tx = pure tt (set_state State.accepted tx)
answer_submit SubmitCode.try_later tx =
    follow (close_submit State.opened SubmitResult.try_later tx)
      λ _ tx1. pure tt (replace_promise tx1)
answer_submit SubmitCode.no_modifications tx =
    close_submit State.discarded SubmitResult.no_modifications tx
answer_submit SubmitCode.rejected_permission tx =
    close_submit State.rejected SubmitResult.rejected_permission tx
answer_submit SubmitCode.rejected_old_revision tx =
    close_submit State.rejected SubmitResult.rejected_old_revision tx
answer_submit SubmitCode.rejected_integrity tx =
    close_submit State.rejected SubmitResult.rejected_integrity tx
answer_submit SubmitCode.rejected_ensure tx =
    close_submit State.rejected SubmitResult.rejected_ensure tx
answer_submit _ tx = close_submit State.rejected SubmitResult.rejected_other tx

-- set_submit_result(msgs::SubmitCode)
unfoldable pub set_submit_result : SubmitCode → Exec Tx (Unit {0})
unfolding answer_submit
set_submit_result code tx = if is_submitted tx.state then answer_submit code tx else pure tt tx

unfoldable pub confirm_commit : Exec Tx (Unit {0})
unfolding fulfil
confirm_commit tx =
    if is_accepted tx.state
    then fulfil (Outcome.value SubmitResult.committed) (set_state State.committed tx)
    else pure tt tx
