-- ===== src/Tx/Final.antt =====
-- What is left to do with a closed transaction: src/transaction_impl.cpp and .hpp.
use nplex_cpp.Prelude.{
  ℕ, ◌≡◌, refl, Bool, true, false, not, ◌||◌, List, Option, none, some, Bool-cases, inl, inr, arith,
}
use nplex_cpp.Prelude.Order.{Bytes}
use nplex_cpp.Result.{Exec, follow-state}
use nplex_cpp.Types.{Value, Change}
use nplex_cpp.Key.{Utf8, is_valid_key}
use nplex_cpp.User.{Glob}
use nplex_cpp.Store.{Store}
use nplex_cpp.Tx.{Tx, State, is_closed, is_open, set_type}
use nplex_cpp.Tx.Submit.{fulfil, discard, submit, fail_submit, set_submit_result, confirm_commit}
use nplex_cpp.Tx.Access.{is_empty, ensure, read, upsert_internal, upsert, upsert_if_changed, remove}
use nplex_cpp.Tx.Scan.{for_each, remove_all}
use nplex_cpp.Tx.Track
use nplex_cpp.Tx.Lifecycle.{Call, IsSound, submits, discards, fails, answers, confirms, step}

-- The methods that change a transaction.
pub data Use : Type 0 where
  lives : Call → Use
  types : ℕ → Use
  ensures : Option Bytes → Use
  reads : Bytes → Bool → Use
  upserts upserts_if_changed : Bytes → Bytes → Use
  removes : Bytes → Use
  removes_all : Option Bytes → Use
  visits : Option Bytes → (Bytes → Value → Exec Tx Bool) → Use
  updates : List Change → Use

step_closed : (c : Call) (t : Tx) → IsSound t → is_closed t.state ≡ true → step c t ≡ t
unfolding step
step_closed (submits link force) t h c = unfold submit in (ground arith)
step_closed discards t h c = unfold discard fulfil in (ground arith)
step_closed fails t h c = unfold fail_submit in (ground arith)
step_closed (answers code) t h c = unfold set_submit_result in (ground arith)
step_closed confirms t h c = unfold confirm_commit in (ground arith)

shut : (s : State) → is_closed s ≡ true → is_open s ≡ false
shut s h = ground arith

-- What a use leaves, whether it returned or threw.
unfoldable pub use_tx : Utf8 → Glob → Store → Use → Tx → Tx
use_tx u glob s (lives c) t = step c t
use_tx u glob s (types type) t = set_type type t
use_tx u glob s (ensures pattern) t = (ensure pattern t).1
use_tx u glob s (reads key check) t = (read u s key check t).1
use_tx u glob s (upserts key content) t = (upsert u glob s key content t).1
use_tx u glob s (upserts_if_changed key content) t = (upsert_if_changed u glob s key content t).1
use_tx u glob s (removes key) t = (remove u glob s key t).1
use_tx u glob s (removes_all pattern) t = (remove_all u glob s pattern t).1
use_tx u glob s (visits pattern callback) t = (for_each glob s pattern callback t).1
use_tx u glob s (updates changes) t = Track.update glob changes t

abbrev pub retyped : Use → Tx → Tx
retyped (types type) t = record t { tx_type = type }
retyped _ t = t

module _ (u : Utf8) (glob : Glob) (s : Store) (t : Tx) (o : is_open t.state ≡ false) where
  ensure_shut : (pattern : Option Bytes) → (ensure pattern t).1 ≡ t
  unfolding ensure
  ensure_shut none = refl
  ensure_shut (some pattern) = rw o refl

  read_shut : (key : Bytes) (check : Bool) → (read u s key check t).1 ≡ t
  unfolding read
  read_shut key check = elim (Bool-cases (is_valid_key u key)) [
    | inl v ↦ simp (v, o) refl
    | inr v ↦ simp v refl
  ]

  upsert_shut :
      (key content : Bytes) (force : Bool) → (upsert_internal u glob s key content force t).1 ≡ t
  unfolding upsert_internal
  upsert_shut key content force = elim (Bool-cases (not (is_valid_key u key) || is_empty content)) [
    | inl v ↦ rw v refl
    | inr v ↦ elim (Bool-cases t.read_only) [
      | inl r ↦ simp (v, r) refl
      | inr r ↦ simp (v, r, o) refl
    ]
  ]

  remove_shut : (key : Bytes) → (remove u glob s key t).1 ≡ t
  unfolding remove
  remove_shut key = elim (Bool-cases (is_valid_key u key)) [
    | inr v ↦ simp v refl
    | inl v ↦ elim (Bool-cases t.read_only) [
      | inl r ↦ simp (v, r) refl
      | inr r ↦ simp (v, r, o) refl
    ]
  ]

  for_each_shut :
      (pattern : Option Bytes) (callback : Bytes → Value → Exec Tx Bool)
      → (for_each glob s pattern callback t).1 ≡ t
  unfolding for_each
  for_each_shut none callback = refl
  for_each_shut (some pattern) callback = elim (Bool-cases (is_empty pattern)) [
    | inl e ↦ simp e refl
    | inr e ↦ simp (e, o) refl
  ]

  remove_all_shut : (pattern : Option Bytes) → (remove_all u glob s pattern t).1 ≡ t
  unfolding remove_all
  remove_all_shut pattern = elim (Bool-cases t.read_only) [
    | inl r ↦ simp r refl
    | inr r ↦ simp (r, o) refl
  ]

-- A closed transaction is final: no method of it, neither of the user nor of the client, changes anything of it,
-- but for set_type, which sets its type even then.
pub use_tx_closed :
    (u : Utf8) (glob : Glob) (s : Store) (a : Use) (t : Tx)
    → IsSound t
    → is_closed t.state ≡ true
    → use_tx u glob s a t ≡ retyped a t
unfolding use_tx
use_tx_closed u glob s (lives c) t h e = step_closed c t h e
use_tx_closed u glob s (types type) t h e = unfold set_type in refl
use_tx_closed u glob s (ensures pattern) t h e = ensure_shut u glob s t (shut t.state e) pattern
use_tx_closed u glob s (reads key check) t h e = read_shut u glob s t (shut t.state e) key check
use_tx_closed u glob s (upserts key content) t h e =
    let k = upsert_shut u glob s t (shut t.state e) key content true in
    unfold upsert in
    (follow-state (λ (t' : Tx). t' ≡ t) (upsert_internal u glob s key content true t) _ k (λ _. k))
use_tx_closed u glob s (upserts_if_changed key content) t h e =
    unfold upsert_if_changed in (upsert_shut u glob s t (shut t.state e) key content false)
use_tx_closed u glob s (removes key) t h e = remove_shut u glob s t (shut t.state e) key
use_tx_closed u glob s (removes_all pattern) t h e =
    remove_all_shut u glob s t (shut t.state e) pattern
use_tx_closed u glob s (visits pattern callback) t h e =
    for_each_shut u glob s t (shut t.state e) pattern callback
use_tx_closed u glob s (updates changes) t h e = unfold Track.update in (rw (shut t.state e) refl)
