-- ===== src/Tests/Transactions.antt =====
-- The life of a transaction at concrete states.
use nplex_cpp.Prelude.{◌≡◌, refl, true, false, some, [], ◌∷◌}
use nplex_cpp.Result.{ok}
use nplex_cpp.Schema.{SubmitCode}
use nplex_cpp.Tx.{Tx, State, Isolation, SubmitResult, Outcome, is_submitted}
use nplex_cpp.Tx.Submit.{get_future, Link, submit, send_submit, refuses_force, has_modifications}
use nplex_cpp.Tx.Lifecycle.{answers, step}
use nplex_cpp.Tx.Outcomes.{IsTold, step-IsTold}
use nplex_cpp.Tx.Final.{types, use_tx, use_tx_closed}
use nplex_cpp.Tx.Leaving.{MayLeave, submit-MayLeave}
use nplex_cpp.Tests.Data.{utf8, glob, store, writer, submitted}

-- The caller is told TRY_LATER, and the transaction has a new promise.
step-IsTold_example :
    IsTold (step (answers SubmitCode.try_later) submitted)
    × ((step (answers SubmitCode.try_later) submitted).earlier
        ≡ record { outcome = some (Outcome.value SubmitResult.try_later); retrieved = true } ∷ [])
step-IsTold_example = step-IsTold (answers SubmitCode.try_later) submitted refl

abbrev committed : Tx
committed = record submitted {
  state = State.committed;
  promise = record { outcome = some (Outcome.value SubmitResult.committed); retrieved = true };
}

use_tx_closed_example :
    use_tx utf8 glob store (types 7) committed ≡ record committed { tx_type = 7 }
use_tx_closed_example = use_tx_closed utf8 glob store (types 7) committed refl refl

leaves : (submit Link.ready false (writer Isolation.serializable)).0 ≡ ok true
unfolding submit send_submit get_future refuses_force has_modifications
leaves = refl

submit-MayLeave_example :
    MayLeave false (writer Isolation.serializable)
    × (is_submitted (submit Link.ready false (writer Isolation.serializable)).1.state ≡ true)
submit-MayLeave_example = submit-MayLeave Link.ready false (writer Isolation.serializable) leaves
