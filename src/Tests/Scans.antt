-- ===== src/Tests/Scans.antt =====
-- Scans and removals by pattern, at the store of the data and a transaction that wrote "a".
use nplex_cpp.Prelude.{arith, ◌≡◌, refl, true, false, some, length, inl, inr}
use nplex_cpp.Prelude.Order.{Bytes, bytes_order, same-cases, compare_bytes}
use nplex_cpp.Result.{ok}
use nplex_cpp.User.{crud_delete, is_authorized}
use nplex_cpp.Tx.{Isolation}
use nplex_cpp.Tx.Access.{is_refused}
use nplex_cpp.Tx.Scan.{for_each_internal, remove_all}
use nplex_cpp.Tx.Scanned.{matches, ScansAs, for_each_internal-ScansAs}
use nplex_cpp.Tx.Removal.{Removes, remove_all-Removes}
use nplex_cpp.Tests.Data.{utf8, glob, key_a, store, user, writer}
use nplex_cpp.Tests.Stores.{valid_a}
use nplex_cpp.Tests.Sessions.{ordered}

for_each_internal-ScansAs_example :
    ScansAs glob store key_a
      (writer Isolation.serializable)
      (for_each_internal glob store key_a (writer Isolation.serializable))
for_each_internal-ScansAs_example =
    for_each_internal-ScansAs glob store key_a (writer Isolation.serializable) (tt, tt)
      ordered.entries

is_a : (k : Bytes) → matches glob key_a k ≡ true → k ≡ key_a
unfolding matches
is_a k m = elim (same-cases k key_a) [ inl (e, q) ↦ q | inr e ↦ ground (arith) ]

may_delete : is_refused glob (some user) crud_delete key_a ≡ false
unfolding is_refused is_authorized compare_bytes
may_delete = refl

remove_all-Removes_example :
    ((remove_all utf8 glob store (some key_a) (writer Isolation.serializable)).0
      ≡ ok (length (for_each_internal glob store key_a (writer Isolation.serializable)).0))
    × Removes store
        (matches glob key_a)
        (writer Isolation.serializable)
        (remove_all utf8 glob store (some key_a) (writer Isolation.serializable)).1
remove_all-Removes_example =
    remove_all-Removes store utf8 glob key_a (writer Isolation.serializable) (tt, tt)
      ordered.entries refl refl refl (λ k m _. rw (is_a k m) (valid_a, may_delete))
