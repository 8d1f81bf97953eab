-- ===== src/Tx/Conflicts.antt =====
-- Conflicts between a transaction and a commit: update and submit of src/transaction_impl.cpp.
use nplex_cpp.Prelude.{
  ◌≡◌, refl, ap, ◌∙◌, Bool, true, false, ◌||◌, List, [], ◌∷◌, some, inl, inr, is_some, Bool-cases,
  Option-cases, arith,
}
use nplex_cpp.Prelude.Order.{Bytes, bytes_order}
use nplex_cpp.OrderedMap.{find}
use nplex_cpp.Result.{ok}
use nplex_cpp.Types.{Change}
use nplex_cpp.User.{Glob}
use nplex_cpp.Tx.{Tx, Isolation, State, SubmitResult, Outcome, is_open}
use nplex_cpp.Tx.Track.{
  any_held, update_default, track_item, track_change, update_serializable, update_by, breaks_ensure,
  check_ensures,
}
use nplex_cpp.Tx.Track
use nplex_cpp.Tx.Submit.{fulfil, get_future, has_modifications, Link, settle, submit}
use nplex_cpp.Tx.Tracking.{Follows, track_change-Follows, update-Follows}
use nplex_cpp.Tx.Lifecycle.{IsSound}

track_change-dirty : (c : Change) (t : Tx) → t.dirty ≡ true → (track_change c t).dirty ≡ true
unfolding track_change track_item
track_change-dirty c t d = ground arith

track_change-held :
    (c : Change) (t : Tx) → is_some (find c.key t.items) ≡ true → (track_change c t).dirty ≡ true
unfolding track_change track_item
track_change-held c t h = ground arith

update_serializable-dirty :
    (cs : List Change) (t : Tx) → t.dirty ≡ true → (update_serializable cs t).dirty ≡ true
unfolding update_serializable
update_serializable-dirty [] t d = d
update_serializable-dirty (c ∷ cs) t d =
    update_serializable-dirty cs (track_change c t) (track_change-dirty c t d)

-- A key that is held stays so.
is_some-Follows :
    {t t' : Tx} (k : Bytes)
    → Follows t t'
    → is_some (find k t.items) ≡ true
    → is_some (find k t'.items) ≡ true
is_some-Follows {t = t} k f h = elim (Option-cases (find k t.items)) [
  | inl e ↦ absurd (cc)
  | inr (i, e) ↦ ap is_some (f.held k i e)
]

or_right : (a : Bool) {b : Bool} → b ≡ true → a || b ≡ true
or_right true h = refl
or_right false h = h

any_held-Follows :
    {t t' : Tx} (cs : List Change) → Follows t t' → any_held t cs ≡ true → any_held t' cs ≡ true
unfolding any_held
any_held-Follows {t = t} [] f h = h
any_held-Follows {t = t} {t' = t'} (c ∷ cs) f h = elim (Bool-cases (is_some (find c.key t.items))) [
  | inl e ↦ simp (is_some-Follows c.key f e)
  | inr e ↦ or_right (is_some (find c.key t'.items)) (any_held-Follows cs f (rw e at h))
]

update_serializable-held :
    (cs : List Change) (t : Tx) → any_held t cs ≡ true → (update_serializable cs t).dirty ≡ true
unfolding update_serializable any_held
update_serializable-held [] t h = absurd (cc)
update_serializable-held (c ∷ cs) t h = elim (Bool-cases (is_some (find c.key t.items))) [
  | inl e ↦ update_serializable-dirty cs (track_change c t) (track_change-held c t e)
  | inr e ↦
      update_serializable-held cs (track_change c t)
        (any_held-Follows cs (track_change-Follows c t) (rw e at h))
]

update_default-held :
    (cs : List Change) (t : Tx) → any_held t cs ≡ true → (update_default cs t).dirty ≡ true
unfolding update_default
update_default-held cs t h = ground arith

update_by-held :
    (i : Isolation) (cs : List Change) (t : Tx)
    → any_held t cs ≡ true
    → (update_by i cs t).dirty ≡ true
unfolding update_by
update_by-held Isolation.serializable cs t h = update_serializable-held cs t h
update_by-held Isolation.read_committed cs t h = update_default-held cs t h
update_by-held Isolation.repeatable_read cs t h = update_default-held cs t h

check_ensures-already :
    (glob : Glob) (cs : List Change) (t : Tx)
    → t.dirty ≡ true
    → (check_ensures glob cs t).dirty ≡ true
unfolding check_ensures
check_ensures-already glob cs t d = ground arith

check_ensures-breaks :
    (glob : Glob) (cs : List Change) (t : Tx)
    → breaks_ensure glob t.ensures cs ≡ true
    → (check_ensures glob cs t).dirty ≡ true
unfolding check_ensures
check_ensures-breaks glob cs t d = ground arith

track_change-ensures : (c : Change) (t : Tx) → (track_change c t).ensures ≡ t.ensures
unfolding track_change track_item
track_change-ensures c t = ground arith

update_serializable-ensures :
    (cs : List Change) (t : Tx) → (update_serializable cs t).ensures ≡ t.ensures
unfolding update_serializable
update_serializable-ensures [] t = refl
update_serializable-ensures (c ∷ cs) t =
    update_serializable-ensures cs (track_change c t) ∙ track_change-ensures c t

update_default-ensures : (cs : List Change) (t : Tx) → (update_default cs t).ensures ≡ t.ensures
unfolding update_default
update_default-ensures cs t = ground arith

update_by-ensures :
    (i : Isolation) (cs : List Change) (t : Tx) → (update_by i cs t).ensures ≡ t.ensures
unfolding update_by
update_by-ensures Isolation.serializable cs t = update_serializable-ensures cs t
update_by-ensures Isolation.read_committed cs t = update_default-ensures cs t
update_by-ensures Isolation.repeatable_read cs t = update_default-ensures cs t

-- A commit conflicts with a transaction: it changes a key that the transaction holds an item of, or
-- one that a pattern of its ensures matches.
pub data Conflict (glob : Glob) (cs : List Change) (t : Tx) : Type 0 where
  on_item : any_held t cs ≡ true → Conflict glob cs t
  on_ensure : breaks_ensure glob t.ensures cs ≡ true → Conflict glob cs t

-- An open transaction is dirty after a commit that conflicts with it, at every isolation level.
pub update-Detects :
    (glob : Glob) (cs : List Change) (t : Tx)
    → is_open t.state ≡ true
    → Conflict glob cs t
    → (Track.update glob cs t).dirty ≡ true
unfolding Track.update
update-Detects glob cs t o (on_item h) =
    rw o (check_ensures-already glob cs _ (update_by-held t.isolation cs t h))
update-Detects glob cs t o (on_ensure h) = rw o (
    check_ensures-breaks glob cs (update_by t.isolation cs t)
      (rw (update_by-ensures t.isolation cs t) h))

dirty_submit :
    (t : Tx) (link : Link)
    → is_open t.state ≡ true
    → IsSound t
    → t.read_only ≡ false
    → has_modifications t.items ≡ true
    → t.dirty ≡ true
    → ((submit link false t).0 ≡ ok false)
      × ((submit link false t).1.state ≡ State.rejected)
      × ((submit link false t).1.promise.outcome
          ≡ some (Outcome.value SubmitResult.rejected_integrity))
unfolding submit settle fulfil get_future
dirty_submit t link o sound ro mods d = ground arith

-- An open transaction in a sound state that has changes of its own, after a commit that conflicts
-- with it: an unforced submit sends nothing, rejects the transaction, and its promise gets
-- REJECTED_INTEGRITY.
pub submit-update_rejected :
    (glob : Glob) (cs : List Change) (t : Tx) (link : Link)
    → is_open t.state ≡ true
    → IsSound t
    → t.read_only ≡ false
    → has_modifications (Track.update glob cs t).items ≡ true
    → Conflict glob cs t
    → ((submit link false (Track.update glob cs t)).0 ≡ ok false)
      × ((submit link false (Track.update glob cs t)).1.state ≡ State.rejected)
      × ((submit link false (Track.update glob cs t)).1.promise.outcome
          ≡ some (Outcome.value SubmitResult.rejected_integrity))
submit-update_rejected glob cs t link o sound ro mods h =
    dirty_submit (Track.update glob cs t) link (rw f.frame.state o)
      (rw f.frame.state (rw f.frame.promise sound)) (rw f.frame.read_only ro) mods
      (update-Detects glob cs t o h)
  where
    f : Follows t (Track.update glob cs t)
    f = update-Follows glob cs t
