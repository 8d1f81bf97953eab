-- ===== src/Tx/Outcomes.antt =====
-- What the caller of submit of src/transaction_impl.cpp is told through its future.
use nplex_cpp.Prelude.{
  ◌≡◌, refl, Bool, true, false, not, ◌&&◌, ◌⊎◌, inl, inr, List, [], ◌∷◌, ◌++◌, Option, none, some,
  Bool-cases, arith, if◌then◌else◌,
}
use nplex_cpp.Schema.{SubmitCode}
use nplex_cpp.Tx.{Tx, State, SubmitResult, Outcome, Promise, is_closed, is_open, is_submitted}
use nplex_cpp.Tx.Submit.{
  get_future, discard, has_modifications, Link, settle, refuses_force, send_submit, submit,
  fail_submit, set_submit_result, confirm_commit,
}
use nplex_cpp.Tx.Lifecycle.{Call, submits, discards, fails, answers, confirms, step}

abbrev pub is_rejection : Option Outcome → Bool
is_rejection (some (Outcome.value SubmitResult.rejected_permission)) = true
is_rejection (some (Outcome.value SubmitResult.rejected_old_revision)) = true
is_rejection (some (Outcome.value SubmitResult.rejected_integrity)) = true
is_rejection (some (Outcome.value SubmitResult.rejected_ensure)) = true
is_rejection (some (Outcome.value SubmitResult.rejected_other)) = true
is_rejection _ = false

-- What the promise holds in each state.
abbrev pub Tells : State → Promise → Type 0
Tells State.opened p = (p.outcome ≡ none) × (p.retrieved ≡ false)
Tells State.submitted p = p.outcome ≡ none
Tells State.accepted p = p.outcome ≡ none
Tells State.rejected p = is_rejection p.outcome ≡ true
Tells State.committed p = p.outcome ≡ some (Outcome.value SubmitResult.committed)
Tells State.discarded p =
    (p.outcome ≡ some (Outcome.value SubmitResult.no_modifications))
    ⊎ (p.outcome ≡ some Outcome.failure)
Tells State.aborted p = p.outcome ≡ some Outcome.failure

abbrev pub IsTold : Tx → Type 0
IsTold t = Tells t.state t.promise

-- The promises that a call replaces, with what they were given before.
abbrev pub earlier_after : Call → Tx → List Promise
earlier_after (answers SubmitCode.try_later) t =
    if is_submitted t.state
    then t.earlier
      ++ record {
        outcome = some (Outcome.value SubmitResult.try_later);
        retrieved = t.promise.retrieved;
      }
        ∷ []
    else t.earlier
earlier_after _ t = t.earlier

-- The state after a call tells the truth, and the earlier promises are these.
abbrev pub Follows : Tx → List Promise → Type 0
Follows t ps = IsTold t × (t.earlier ≡ ps)

opened-IsTold :
    (t : Tx)
    → is_open t.state ≡ true
    → IsTold t
    → (is_closed t.state ≡ false) × (t.promise.outcome ≡ none) × (t.promise.retrieved ≡ false)
opened-IsTold t o h = ground arith

settle-Follows :
    (r : SubmitResult) (s : State) (t : Tx)
    → is_open t.state ≡ true
    → Tells s (record { outcome = some (Outcome.value r); retrieved = true })
    → IsTold t
    → Follows (settle r s t).1 t.earlier
unfolding settle
settle-Follows r s t o c h = let q = opened-IsTold t o h in simp (q.0, q.1, q.2) (c, refl)

send_submit-Follows :
    (link : Link) (force : Bool) (t : Tx)
    → is_open t.state ≡ true
    → IsTold t
    → Follows (send_submit link force t).1 t.earlier
unfolding send_submit
send_submit-Follows Link.gone force t o h = (h, refl)
send_submit-Follows Link.full force t o h =
    let q = opened-IsTold t o h in
    elim (Bool-cases (refuses_force force t.user)) [
      | inl f ↦ simp f (settle-Follows SubmitResult.rejected_permission State.rejected t o refl h)
      | inr f ↦ simp (f, q.0) (q.1, refl)
    ]
send_submit-Follows Link.ready force t o h =
    let q = opened-IsTold t o h in
    elim (Bool-cases (refuses_force force t.user)) [
      | inl f ↦ simp f (settle-Follows SubmitResult.rejected_permission State.rejected t o refl h)
      | inr f ↦ unfold get_future in (simp (f, q.0, q.2) (q.1, refl))
    ]

discard-Follows : (t : Tx) → IsTold t → Follows (discard t) t.earlier
unfolding discard
discard-Follows t h = ground arith

fail_submit-Follows : (t : Tx) → IsTold t → Follows (fail_submit t).1 t.earlier
unfolding fail_submit
fail_submit-Follows t h = ground arith

confirm_commit-Follows : (t : Tx) → IsTold t → Follows (confirm_commit t).1 t.earlier
unfolding confirm_commit
confirm_commit-Follows t h = ground arith

set_submit_result-Follows :
    (code : SubmitCode) (t : Tx)
    → IsTold t
    → Follows (set_submit_result code t).1 (earlier_after (answers code) t)
unfolding set_submit_result
set_submit_result-Follows code t h = ground arith

submit-Follows :
    (link : Link) (force : Bool) (t : Tx) → IsTold t → Follows (submit link force t).1 t.earlier
unfolding submit
submit-Follows link force t h = elim (Bool-cases (is_open t.state)) [
  | inr o ↦ rw o (h, refl)
  | inl o ↦ elim (Bool-cases t.read_only) [
    | inl r ↦
        simp (o, r) (settle-Follows SubmitResult.no_modifications State.discarded t o (inl refl) h)
    | inr r ↦ elim (Bool-cases (not force && not (has_modifications t.items))) [
      | inl m ↦
          simp (o, r, m)
            (settle-Follows SubmitResult.no_modifications State.discarded t o (inl refl) h)
      | inr m ↦ elim (Bool-cases (not force && t.dirty)) [
        | inl d ↦
            simp (o, r, m, d)
              (settle-Follows SubmitResult.rejected_integrity State.rejected t o refl h)
        | inr d ↦ simp (o, r, m, d) (send_submit-Follows link force t o h)
      ]
    ]
  ]
]

-- Through every call of the life of a transaction, whether it returns or throws, the promise holds what the
-- state says: nothing while it is open or on its way, COMMITTED or a rejection where it is committed or
-- rejected, NO_MODIFICATIONS or an exception where it is discarded, an exception where it is aborted. A
-- promise is replaced only by the answer TRY_LATER to a submitted transaction, and is given TRY_LATER before.
pub step-IsTold :
    (c : Call) (t : Tx) → IsTold t → IsTold (step c t) × ((step c t).earlier ≡ earlier_after c t)
unfolding step
step-IsTold (submits link force) t h = submit-Follows link force t h
step-IsTold discards t h = discard-Follows t h
step-IsTold fails t h = fail_submit-Follows t h
step-IsTold (answers code) t h = set_submit_result-Follows code t h
step-IsTold confirms t h = confirm_commit-Follows t h
