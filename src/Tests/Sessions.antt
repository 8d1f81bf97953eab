-- ===== src/Tests/Sessions.antt =====
-- Reads of a transaction behind a commit, and the transaction's own view.
use nplex_cpp.Prelude.{◌≡◌, refl, true, false, some, []}
use nplex_cpp.Prelude.Order.{bytes_order, compare_bytes}
use nplex_cpp.OrderedMap.{find, emplace}
use nplex_cpp.Result.{ok}
use nplex_cpp.Store.{apply_update}
use nplex_cpp.Tx.{Isolation, State, SubmitResult, Outcome}
use nplex_cpp.Tx.Access.{read}
use nplex_cpp.Tx.Submit.{Link, submit, has_modifications}
use nplex_cpp.Tx.Track.{
  track_item, track_change, update_serializable, update_default, update_by, any_held, check_ensures,
  breaks_ensure, any_ensured,
}
use nplex_cpp.Tx.Track
use nplex_cpp.Tx.View.{ReadsAs, read-ReadsAs}
use nplex_cpp.Tx.Session.{Session, here, next, commits, scans}
use nplex_cpp.Tx.Scan.{for_each_internal}
use nplex_cpp.Store.Ordered.{IsOrdered}
use nplex_cpp.Tx.Tracking.{Follows, update-Follows}
use nplex_cpp.Tx.Conflicts.{on_item, update-Detects, submit-update_rejected}
use nplex_cpp.Tx.Serializable.{begin, is_own_write, serializable_read}
use nplex_cpp.Tx.Repeatable.{repeatable_read}
use nplex_cpp.Tests.Data.{utf8, glob, key_a, store, upd, changes, user, writer}
use nplex_cpp.Tests.Stores.{valid_a, stored}

abbrev begun : Session
begun = begin utf8 glob (some user) Isolation.serializable false store

abbrev behind_commit : Session
behind_commit = record {
  tx = Track.update glob changes begun.tx;
  store = (apply_update utf8 upd store).1;
}

not_own : is_own_write (find key_a behind_commit.tx.items) ≡ false
unfolding Track.update update_by update_serializable track_change track_item check_ensures
    breaks_ensure any_ensured find emplace compare_bytes
not_own = refl

pub ordered : IsOrdered store
unfolding compare_bytes
ordered = record { entries = (tt, tt); metas = (tt, tt); users = (tt, tt) }

serializable_read_example :
    (read utf8 behind_commit.store key_a false behind_commit.tx).0 ≡ ok (find key_a store.entries)
serializable_read_example =
    serializable_read utf8 glob (some user) false store {W = λ _. Unit {0}} {a = behind_commit}
      ordered (next here (commits upd (changes, 1) stored)) key_a false valid_a not_own

-- A transaction that has read "a".
abbrev reader : Session
reader = begin utf8 glob (some user) Isolation.repeatable_read false store

abbrev has_read : Session
has_read = record { tx = (read utf8 store key_a false reader.tx).1; store = store }

-- A commit of "a" and "b" comes in between, and then a scan of all keys.
repeatable_read_example :
    (read utf8
      (apply_update utf8 upd store).1
      key_a
      true
      (for_each_internal glob
        (apply_update utf8 upd store).1
        []
        (Track.update glob changes has_read.tx)).1).0
    ≡ (read utf8 store key_a false reader.tx).0
repeatable_read_example =
    repeatable_read utf8 glob key_a false reader (record { items = tt; store = ordered }) valid_a
      refl refl (next (next here (commits upd (changes, 1) stored)) (scans [])) true

read-ReadsAs_example : ReadsAs store key_a reader.tx (read utf8 store key_a true reader.tx)
read-ReadsAs_example = read-ReadsAs store key_a utf8 true reader.tx valid_a refl

update-Follows_example :
    Follows
      (writer Isolation.serializable)
      (Track.update glob changes (writer Isolation.serializable))
update-Follows_example = update-Follows glob changes (writer Isolation.serializable)

held : any_held (writer Isolation.serializable) changes ≡ true
unfolding any_held find compare_bytes
held = refl

modified :
    has_modifications (Track.update glob changes (writer Isolation.serializable)).items ≡ true
unfolding has_modifications Track.update update_by update_serializable track_change track_item
    check_ensures breaks_ensure any_ensured find emplace compare_bytes
modified = refl

update-Detects_example : (Track.update glob changes (writer Isolation.serializable)).dirty ≡ true
update-Detects_example =
    update-Detects glob changes (writer Isolation.serializable) refl (on_item held)

submit-update_rejected_example :
    ((submit Link.ready false (Track.update glob changes (writer Isolation.serializable))).0
      ≡ ok false)
    × ((submit Link.ready false (Track.update glob changes (writer Isolation.serializable))).1.state
        ≡ State.rejected)
    × ((submit Link.ready false
          (Track.update glob changes (writer Isolation.serializable))).1.promise.outcome
        ≡ some (Outcome.value SubmitResult.rejected_integrity))
submit-update_rejected_example =
    submit-update_rejected glob changes (writer Isolation.serializable) Link.ready refl (refl, refl)
      refl modified (on_item held)
