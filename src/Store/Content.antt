-- ===== src/Store/Content.antt =====
-- `update` against the abstract database.
use nplex_cpp.Prelude.{
  ℕ, ◌≡◌, refl, ap, ◌∙◌, Bool, true, false, ◌||◌, ◌<◌, List, [], ◌∷◌, ◌++◌, Option, none, some, leb,
  if◌then◌else◌, length, arith,
}
use nplex_cpp.Prelude.Order.{Bytes, bytes_order, same}
use nplex_cpp.OrderedMap.{find, find-insert, find-erase}
use nplex_cpp.Result.{Result, follow-returns, ok, err, Exec, follow, pure}
use nplex_cpp.Types.{Value, Change}
use nplex_cpp.Schema.{KeyValue, Update}
use nplex_cpp.Key.{Utf8, c_str, is_valid_key}
use nplex_cpp.Store.Frame.{
  release_meta-SameData, retain_meta-SameData, register_meta-SameData, rev-upsert_all,
  rev-delete_all,
}
use nplex_cpp.Store.{
  Store, register_meta, upsert_found, upsert_entry, upsert_pair, upsert_one, upsert_all,
  delete_found, delete_entry, delete_one, delete_all, install_update, apply_update, create_meta,
  collect, or_empty, created, updated, deleted,
}
use nplex_cpp.Store.Abstract.{
  content, names, or_else, written_by, written, removed, updated_content, IsGoodPair, IsGoodUpsert,
  IsGoodDelete, AllUpserts, AllDeletes, IsWellFormed,
}

module _ (u : Utf8) where
  -- A call that returns, and what it leaves.
  abbrev pub Succeeds : {A : Type 0} → Result A × Store → (Bytes → Option Bytes) → Type 0
  Succeeds {A} r f = (a : A) × (r.0 ≡ ok a) × ((k : Bytes) → content r.1 k ≡ f k)

  upsert_found-content :
      (key value : Bytes) (p : Option ℕ) (old : Option Value) (s : Store)
      → let v : Value = record { content = value; meta = p } in
        Succeeds (upsert_found key v old s) (λ k. if same k key then some value else content s k)
  unfolding upsert_found
  upsert_found-content key value p none s = (
    created key (record { content = value; meta = p }),
    refl,
    λ k. rw ((retain_meta-SameData p _).entries, find-insert) (ground arith),
  )
  upsert_found-content key value p (some old) s = (
    updated key (record { content = value; meta = p }) old,
    refl,
    λ k.
        rw
          (
            (retain_meta-SameData p _).entries,
            (release_meta-SameData old.meta s).entries,
            find-insert,
          )
          (ground arith),
  )

  upsert_entry-content :
      (key value : Bytes) (p : Option ℕ) (s : Store)
      → is_valid_key u key ≡ true
      → let v : Value = record { content = value; meta = p } in
        Succeeds (upsert_entry u key v s) (λ k. if same k key then some value else content s k)
  unfolding upsert_entry
  upsert_entry-content key value p s e =
      rw (e, upsert_entry) (upsert_found-content key value p (find key s.entries) s)

  upsert_pair-content :
      (p : ℕ) (key value : Option Bytes) (s : Store)
      → IsGoodPair u key value
      → Succeeds
          (upsert_pair u p key value s)
          (λ k. or_else (if names k key then value else none) (content s k))
  unfolding upsert_pair
  upsert_pair-content p (some key) (some value) s g =
      let (c, e, after) = upsert_entry-content (c_str key) value (some p) s g in
      (c, e, λ k. after k ∙ or_else_if (same k (c_str key)) (content s k))
    where
      or_else_if :
          (b : Bool) (w : Option Bytes)
          → (if b then some value else w) ≡ or_else (if b then some value else none) w
      or_else_if true w = refl
      or_else_if false w = refl
  upsert_pair-content p (some key) none s g = absurd g
  upsert_pair-content p none value s g = absurd g

  upsert_one-content :
      (p : ℕ) (kv : Option KeyValue) (s : Store)
      → IsGoodUpsert u kv
      → Succeeds (upsert_one u p kv s) (λ k. or_else (written_by k kv) (content s k))
  unfolding upsert_one
  upsert_one-content p none s g = absurd g
  upsert_one-content p (some kv) s g = upsert_pair-content p kv.key kv.value s g

  delete_found-content :
      (key : Bytes) (old : Option Value) (s : Store)
      → find key s.entries ≡ old
      → Succeeds (delete_found key old s) (λ k. if same k key then none else content s k)
  unfolding delete_found
  delete_found-content key none s f =
      (deleted [] none, refl, λ k. ground (arith, bytes_order.identify k key))
  delete_found-content key (some old) s f = (
    deleted key (some old),
    refl,
    λ k. rw ((release_meta-SameData old.meta s).entries, find-erase) (ground arith),
  )

  delete_one-content :
      (key : Option Bytes) (s : Store)
      → IsGoodDelete u key
      → Succeeds (delete_one u key s) (λ k. if names k key then none else content s k)
  unfolding delete_one delete_entry
  delete_one-content none s g = absurd g
  delete_one-content (some key) s g =
      rw (g, delete_entry) (delete_found-content (c_str key) (find (c_str key) s.entries) s refl)

  -- One round of either loop, and the rounds behind it.
  round-content :
      (r : Result Change × Store) (loop : Exec Store (List Change)) (f g : Bytes → Option Bytes)
      → Succeeds r f
      → (((k : Bytes) → content r.1 k ≡ f k) → Succeeds (loop r.1) g)
      → Succeeds (follow r (λ c s1. follow (loop s1) (λ ds. pure (collect c c.key ds)))) g
  round-content (ok c, s) loop f g (c', e, h) rest = second (loop s) (rest h)
    where
      second :
          (q : Result (List Change) × Store)
          → Succeeds q g
          → Succeeds (follow q (λ ds. pure (collect c c.key ds))) g
      second (ok ds, t) (ds', e, h) = (collect c c.key ds, refl, h)
      second (err x, t) (ds', e, h) = absurd (cc)
  round-content (err x, s) loop f g (c', e, h) rest = absurd (cc)

  upsert_all-content :
      (p : ℕ) (kvs : List (Option KeyValue)) (s : Store)
      → AllUpserts u kvs
      → Succeeds (upsert_all u p kvs s) (λ k. or_else (written k kvs) (content s k))
  unfolding upsert_all written
  upsert_all-content p [] s g = ([], refl, λ k. refl)
  upsert_all-content p (kv ∷ kvs) s g =
      round-content (upsert_one u p kv s) (upsert_all u p kvs) _
        (λ k. or_else (or_else (written k kvs) (written_by k kv)) (content s k))
        (upsert_one-content p kv s g.0)
        λ h.
          let (cs, e, after) = upsert_all-content p kvs (upsert_one u p kv s).1 g.1 in
          (cs, e, λ k. after k ∙ or_else_assoc (written k kvs) _ _ _ (h k))
    where
      or_else_assoc :
          (a : Option Bytes) (b c d : Option Bytes)
          → c ≡ or_else b d
          → or_else a c ≡ or_else (or_else a b) d
      or_else_assoc none b c d h = h
      or_else_assoc (some x) b c d h = refl

  delete_all-content :
      (keys : List (Option Bytes)) (s : Store)
      → AllDeletes u keys
      → Succeeds (delete_all u keys s) (λ k. if removed k keys then none else content s k)
  unfolding delete_all removed
  delete_all-content [] s g = ([], refl, λ k. refl)
  delete_all-content (key ∷ keys) s g =
      round-content (delete_one u key s) (delete_all u keys) _
        (λ k. if names k key || removed k keys then none else content s k)
        (delete_one-content key s g.0)
        λ h.
          let (cs, e, after) = delete_all-content keys (delete_one u key s).1 g.1 in
          (cs, e, λ k. after k ∙ either (names k key) (removed k keys) _ _ (h k))
    where
      either :
          (a b : Bool) (c d : Option Bytes)
          → c ≡ (if a then none else d)
          → (if b then none else c) ≡ (if a || b then none else d)
      either true b c d h = ground arith
      either false b c d h = ground arith

  -- The update does to the content `f` what the abstract update says.
  pub record Implements (upd : Update) (f : Bytes → Option Bytes)
      (r : Result (List Change × ℕ) × Store) : Type 0 where
    pub value : List Change × ℕ
    pub returns : r.0 ≡ ok value
    pub rev : r.1.rev ≡ upd.rev
    pub contents : (k : Bytes) → content r.1 k ≡ updated_content upd f k

  install_update-Implements :
      (upd : Update) (p : ℕ) (s : Store)
      → s.rev ≡ upd.rev
      → IsWellFormed u upd
      → Implements upd (content s) (install_update u upd p s)
  unfolding install_update updated_content
  install_update-Implements upd p s e g =
      let (cs, ecs, wrote) = upsert_all-content p (or_empty upd.upserts) s g.0 in
      let s2 = (upsert_all u p (or_empty upd.upserts) s).1 in
      let (ds, eds, erased) = delete_all-content (or_empty upd.deletes) s2 g.1 in
      let s3 = (delete_all u (or_empty upd.deletes) s2).1 in
      rw
        (
          follow-returns {B = List Change × ℕ} (upsert_all u p (or_empty upd.upserts) s)
              (λ cs s2.
                follow (delete_all u (or_empty upd.deletes) s2)
                  λ ds s3. pure (cs ++ ds, p) (register_meta upd.rev p s3))
              cs ecs,
          follow-returns {B = List Change × ℕ} (delete_all u (or_empty upd.deletes) s2)
              (λ ds s3. pure (cs ++ ds, p) (register_meta upd.rev p s3)) ds eds,
        )
        (record {
          value = (cs ++ ds, p);
          returns = refl;
          rev =
              (register_meta-SameData upd.rev p s3).rev
              ∙ rev-delete_all u (or_empty upd.deletes) s2
              ∙ rev-upsert_all u p (or_empty upd.upserts) s
              ∙ e;
          contents = λ k.
              rw (register_meta-SameData upd.rev p s3).entries (
                erased k
                ∙ ap (λ c. if removed k (or_empty upd.deletes) then none else c) (wrote k));
        })

  -- An update that is newer than the store and well formed is applied: the call returns, the store
  -- has its revision, and its content is that of the abstract update.
  pub apply_update-Implements :
      (upd : Update) (s : Store)
      → s.rev < upd.rev
      → IsWellFormed u upd
      → Implements upd (content s) (apply_update u upd s)
  unfolding apply_update create_meta
  apply_update-Implements upd s h g =
      let newer : leb upd.rev s.rev ≡ false = ground arith in
      rw newer (install_update-Implements upd (length s.heap) _ refl g)
