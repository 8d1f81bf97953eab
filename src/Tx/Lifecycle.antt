-- ===== src/Tx/Lifecycle.antt =====
-- The calls in the life of a transaction, submit, the answers of the server and discard, and what they
-- answer: src/transaction_impl.cpp.
use nplex_cpp.Prelude.{◌≡◌, Bool, true, false, none, ◌⊎◌, is_some}
use nplex_cpp.Result.{ok, err, not_open, no_client, queue_overflow}
use nplex_cpp.Schema.{SubmitCode}
use nplex_cpp.Tx.{Tx, State, Promise, is_closed}
use nplex_cpp.Tx.Submit.{discard, Link, submit, fail_submit, set_submit_result, confirm_commit}

-- An open transaction has a fresh promise, a closed one has kept it, and one on its way has not.
abbrev pub Fits : State → Promise → Type 0
Fits State.opened p = (p.outcome ≡ none) × (p.retrieved ≡ false)
Fits State.submitted p = p.outcome ≡ none
Fits State.accepted p = p.outcome ≡ none
Fits _ p = is_some p.outcome ≡ true

abbrev pub IsSound : Tx → Type 0
IsSound t = Fits t.state t.promise

pub data Call : Type 0 where
  submits : Link → Bool → Call
  discards : Call
  fails : Call
  answers : SubmitCode → Call
  confirms : Call

-- The transaction after a call, whether it returned or threw.
unfoldable pub step : Call → Tx → Tx
step (submits link force) t = (submit link force t).1
step discards t = discard t
step fails t = (fail_submit t).1
step (answers code) t = (set_submit_result code t).1
step confirms t = (confirm_commit t).1

-- What each call may answer.
abbrev pub Answers : Call → Tx → Type 0
Answers (submits link force) t =
    ((submit link force t).0 ≡ ok true)
    ⊎ ((submit link force t).0 ≡ ok false)
    ⊎ ((submit link force t).0 ≡ err not_open)
    ⊎ ((submit link force t).0 ≡ err no_client)
    ⊎ ((submit link force t).0 ≡ err queue_overflow)
Answers discards t = is_closed (discard t).state ≡ true
Answers fails t = (fail_submit t).0 ≡ ok tt
Answers (answers code) t = (set_submit_result code t).0 ≡ ok tt
Answers confirms t = (confirm_commit t).0 ≡ ok tt
