-- ===== src/Tx/Leaving.antt =====
-- When a request leaves a transaction of src/transaction_impl.cpp.
use nplex_cpp.Prelude.{◌≡◌, refl, Bool, true, false, not, ◌&&◌, ◌⊎◌, inl, inr, Bool-cases, arith}
use nplex_cpp.Result.{Result, ok, err, not_open}
use nplex_cpp.Tx.{Tx, State, SubmitResult, is_open, is_submitted}
use nplex_cpp.Tx.Submit.{
  fulfil, get_future, has_modifications, Link, settle, refuses_force, send_submit, submit,
}

-- The reasons for which a request may leave.
pub record MayLeave (force : Bool) (t : Tx) : Type 0 where
  pub opened : is_open t.state ≡ true
  pub writable : t.read_only ≡ false
  pub modified : (force ≡ true) ⊎ (has_modifications t.items ≡ true)
  pub consistent : (force ≡ true) ⊎ (t.dirty ≡ false)
  pub allowed : refuses_force force t.user ≡ false

settle-ne-true : (r : SubmitResult) (s : State) (t : Tx) → (settle r s t).0 ≡ ok true → ⊥
unfolding settle
settle-ne-true r s t h = ground arith

send_submit-leaves :
    (link : Link) (force : Bool) (t : Tx)
    → is_open t.state ≡ true
    → (send_submit link force t).0 ≡ ok true
    → (refuses_force force t.user ≡ false)
      × (is_submitted (send_submit link force t).1.state ≡ true)
unfolding send_submit settle get_future fulfil
send_submit-leaves Link.gone force t o h = cc
send_submit-leaves Link.full force t o h = ground arith
send_submit-leaves Link.ready force t o h = ground arith

unforced : (force b : Bool) → (not force && b) ≡ false → (force ≡ true) ⊎ (b ≡ false)
unforced true b h = inl refl
unforced false b h = inr h

-- A request reaches the client only from an open, writable transaction that has modifications and no
-- conflict, or else is forced, and never forced by a user who may not; the transaction is then
-- SUBMITTED.
pub submit-MayLeave :
    (link : Link) (force : Bool) (t : Tx)
    → (submit link force t).0 ≡ ok true
    → MayLeave force t × (is_submitted (submit link force t).1.state ≡ true)
unfolding submit
submit-MayLeave link force t h = elim (Bool-cases (is_open t.state)) [
  | inr o ↦ absurd (closed (rw o at h))
  | inl o ↦ elim (Bool-cases t.read_only) [
    | inl r ↦
        absurd (settle-ne-true SubmitResult.no_modifications State.discarded t (simp (o, r) at h))
    | inr r ↦ elim (Bool-cases (not force && not (has_modifications t.items))) [
      | inl m ↦
          absurd
            (settle-ne-true SubmitResult.no_modifications State.discarded t (simp (o, r, m) at h))
      | inr m ↦ elim (Bool-cases (not force && t.dirty)) [
        | inl d ↦ absurd (
            settle-ne-true SubmitResult.rejected_integrity State.rejected t
              (simp (o, r, m, d) at h))
        | inr d ↦
            let (a, s) = send_submit-leaves link force t o (simp (o, r, m, d) at h) in
            simp (o, r, m, d)
              (
                record {
                  opened = o;
                  writable = r;
                  modified = some_modified m;
                  consistent = unforced force t.dirty d;
                  allowed = a;
                },
                s,
              )
      ]
    ]
  ]
]
  where
    closed : ◌≡◌ {A = Result Bool} (err not_open) (ok true) → ⊥
    closed h = cc

    some_modified :
        (not force && not (has_modifications t.items)) ≡ false
        → (force ≡ true) ⊎ (has_modifications t.items ≡ true)
    some_modified m = ground arith
