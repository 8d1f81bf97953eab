-- ===== src/Tx/Writing.antt =====
-- How upsert and remove of src/transaction_impl.cpp change the items of a transaction.
use nplex_cpp.Prelude.{
  ◌≡◌, refl, Bool, true, not, ◌&&◌, ◌||◌, Option, none, some, inl, inr, is_some, Bool-cases,
}
use nplex_cpp.Prelude.Order.{Bytes, bytes_order, same}
use nplex_cpp.OrderedMap.{find, find-insert, find-emplace}
use nplex_cpp.Types.{Value}
use nplex_cpp.Key.{Utf8, is_valid_key}
use nplex_cpp.User.{Glob, crud_create, crud_update, crud_delete}
use nplex_cpp.Store.{Store}
use nplex_cpp.Tx.{Tx, Item, is_open}
use nplex_cpp.Tx.Access.{
  is_delete, is_empty, is_refused, has_content, is_repeatable_read, is_read_or_snapshot, deletion,
  upsert_item, upsert_store, upsert_found, upsert_internal, remove_found, remove,
}
use nplex_cpp.Tx.Items.{keeps, writes, pins, Steps, made}

module _ (s : Store) (key : Bytes) where
  upsert_item-Steps :
      (glob : Glob) (content : Bytes) (force : Bool) (item : Item) (t : Tx)
      → Steps s key true t (upsert_item glob key content force item t).1
  unfolding upsert_item
  upsert_item-Steps glob content force item t =
      elim (Bool-cases (is_refused glob t.user crud_update key)) [
        | inl r ↦ rw r (made s key true t _ _ _ (keeps refl))
        | inr r ↦
            elim (Bool-cases
              (not force && (not (is_delete item.action) && has_content content item.value))) [
                | inl x ↦ rw (r, x) (made s key true t _ _ _ (keeps refl))
                | inr x ↦
                    rw (r, x)
                      (made s key true t _ _ _
                        (writes _ refl refl (λ k. find-insert key k _ t.items)))
              ]
      ]

  upsert_store-Steps :
      (glob : Glob) (content : Bytes) (force : Bool) (v : Option Value) (t : Tx)
      → find key t.items ≡ none
      → find key s.entries ≡ v
      → Steps s key true t (upsert_store glob key content force v t).1
  unfolding upsert_store
  upsert_store-Steps glob content force none t e f =
      elim (Bool-cases (is_refused glob t.user crud_create key)) [
        | inl r ↦ rw r (made s key true t _ _ _ (keeps refl))
        | inr r ↦
            rw r
              (made s key true t _ _ _ (writes _ refl refl (λ k. find-emplace key k _ t.items e)))
      ]
  upsert_store-Steps glob content force (some v) t e f =
      elim (Bool-cases (is_refused glob t.user crud_update key)) [
        | inl r ↦ rw r (made s key true t _ _ _ (keeps refl))
        | inr r ↦ elim (Bool-cases (not force && same v.content content)) [
          | inr x ↦
              rw (r, x)
                (made s key true t _ _ _ (writes _ refl refl (λ k. find-emplace key k _ t.items e)))
          | inl x ↦ elim (Bool-cases (is_repeatable_read t.isolation)) [
            | inl i ↦
                rw (r, x, i)
                  (made s key true t _ _ _ (pins e (λ k. rw f (find-emplace key k _ t.items e))))
            | inr i ↦ rw (r, x, i) (made s key true t _ _ _ (keeps refl))
          ]
        ]
      ]

  upsert_found-Steps :
      (glob : Glob) (content : Bytes) (force : Bool) (item : Option Item) (t : Tx)
      → find key t.items ≡ item
      → Steps s key true t (upsert_found glob s key content force item t).1
  unfolding upsert_found
  upsert_found-Steps glob content force (some item) t e =
      upsert_item-Steps glob content force item t
  upsert_found-Steps glob content force none t e =
      upsert_store-Steps glob content force (find key s.entries) t e refl

  pub upsert_internal-ItemStep :
      (u : Utf8) (glob : Glob) (content : Bytes) (force : Bool) (t : Tx)
      → Steps s key true t (upsert_internal u glob s key content force t).1
  unfolding upsert_internal
  upsert_internal-ItemStep u glob content force t =
      elim (Bool-cases (not (is_valid_key u key) || is_empty content)) [
        | inl v ↦ rw v (made s key true t _ _ _ (keeps refl))
        | inr v ↦ elim (Bool-cases t.read_only) [
          | inl r ↦ simp (v, r) ((made s key true t _ _ _ (keeps refl)))
          | inr r ↦ elim (Bool-cases (is_open t.state)) [
            | inr o ↦ simp (v, r, o) (made s key true t _ _ _ (keeps refl))
            | inl o ↦
                simp (v, r, o) (upsert_found-Steps glob content force (find key t.items) t refl)
          ]
        ]
      ]

  remove_found-Steps :
      (item : Option Item) (t : Tx)
      → find key t.items ≡ item
      → Steps s key true t (remove_found s key item t).1
  unfolding remove_found
  remove_found-Steps (some item) t e =
      elim (Bool-cases (is_read_or_snapshot item.action && not (is_some item.value))) [
        | inl x ↦ rw x (made s key true t _ _ _ (keeps refl))
        | inr x ↦ elim (Bool-cases (is_delete item.action)) [
          | inl d ↦ rw (x, d) (made s key true t _ _ _ (keeps refl))
          | inr d ↦
              rw (x, d)
                (made s key true t _ _ _
                  (writes deletion refl refl (λ k. find-insert key k _ t.items)))
        ]
      ]
  remove_found-Steps none t e = elim (Bool-cases (is_some (find key s.entries))) [
    | inl x ↦
        rw x (
          made s key true t _ _ _ (writes deletion refl refl (λ k. find-emplace key k _ t.items e)))
    | inr x ↦ rw x (made s key true t _ _ _ (keeps refl))
  ]

  pub remove-ItemStep :
      (u : Utf8) (glob : Glob) (t : Tx) → Steps s key true t (remove u glob s key t).1
  unfolding remove
  remove-ItemStep u glob t = elim (Bool-cases (is_valid_key u key)) [
    | inr v ↦ rw v (made s key true t _ _ _ (keeps refl))
    | inl v ↦ elim (Bool-cases t.read_only) [
      | inl r ↦ simp (v, r) ((made s key true t _ _ _ (keeps refl)))
      | inr r ↦ elim (Bool-cases (is_open t.state)) [
        | inr o ↦ simp (v, r, o) (made s key true t _ _ _ (keeps refl))
        | inl o ↦ elim (Bool-cases (is_refused glob t.user crud_delete key)) [
          | inl a ↦ simp (v, r, o, a) (made s key true t _ _ _ (keeps refl))
          | inr a ↦ simp (v, r, o, a) (remove_found-Steps (find key t.items) t refl)
        ]
      ]
    ]
  ]
