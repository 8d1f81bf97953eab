-- ===== src/Store/Changes.antt =====
-- The list of changes that `update` returns, against the content before and after.
use nplex_cpp.Prelude.{
  ℕ, ◌≡◌, ◌≢◌, refl, ap, true, List, [], ◌∷◌, ◌++◌, Option, none, some, ◌⊎◌, inl, inr, arith,
  Bool-cases, leb, subst, length,
}
use nplex_cpp.Prelude.Order.{Bytes, bytes_order}
use nplex_cpp.OrderedMap.{find, find-insert, find-erase}
use nplex_cpp.Result.{Result, ok, Exec, follow, follow-elim, ok-injective, pure}
use nplex_cpp.Types.{Value, Change}
use nplex_cpp.Schema.{KeyValue, Update}
use nplex_cpp.Key.{Utf8, c_str, is_valid_key}
use nplex_cpp.Store.{
  Store, upsert_found, upsert_entry, delete_found, delete_entry, upsert_one, upsert_all, delete_one,
  delete_all, register_meta, install_update, apply_update, create_meta, created, updated, deleted,
  upsert_pair, collect, or_empty,
}
use nplex_cpp.Store.Replays.{view, write, Fits, Replays, Replays-from, Replays-append}
use nplex_cpp.Store.Frame.{entries-release_meta, entries-retain_meta, entries-register_meta}

-- One change was made, and it is reported.
pub record Makes (f : Bytes → Option Value) (c : Change) (g : Bytes → Option Value) : Type 0 where
  pub fits : Fits c
  pub found : f c.key ≡ c.old_value
  pub after : (k : Bytes) → g k ≡ write c f k
  pub named : c.key ≢ []

module _ (u : Utf8) where
  valid-ne-nil : (k : Bytes) → is_valid_key u k ≡ true → k ≢ []
  unfolding is_valid_key
  valid-ne-nil [] h = cc
  valid-ne-nil (c ∷ cs) h = λ e. cc

  upsert_found-Makes :
      (key : Bytes) (v : Value) (old : Option Value) (s : Store) {c : Change}
      → view s key ≡ old
      → key ≢ []
      → (upsert_found key v old s).0 ≡ ok c
      → Makes (view s) c (view (upsert_found key v old s).1)
  unfolding upsert_found
  upsert_found-Makes key v none s f n h =
      subst (λ c. Makes (view s) c (view (upsert_found key v none s).1)) (ok-injective h) made
    where
      made : Makes (view s) (created key v) (view (upsert_found key v none s).1)
      made = record {
        fits = (refl, refl);
        found = f;
        after = λ k. rw entries-retain_meta (find-insert key k v s.entries);
        named = n;
      }
  upsert_found-Makes key v (some old) s f n h =
      subst (λ c. Makes (view s) c (view (upsert_found key v (some old) s).1)) (ok-injective h) made
    where
      made : Makes (view s) (updated key v old) (view (upsert_found key v (some old) s).1)
      made = record {
        fits = (refl, refl);
        found = f;
        after = λ k. rw (entries-retain_meta, entries-release_meta) (find-insert key k v s.entries);
        named = n;
      }

  upsert_entry-Makes :
      (key : Bytes) (v : Value) (s : Store) {c : Change}
      → (upsert_entry u key v s).0 ≡ ok c
      → Makes (view s) c (view (upsert_entry u key v s).1)
  unfolding upsert_entry
  upsert_entry-Makes key v s h = elim (Bool-cases (is_valid_key u key)) [
    | inl e ↦
        rw (e, upsert_entry)
          (upsert_found-Makes key v (find key s.entries) s refl (valid-ne-nil key e)
            (rw (e, upsert_entry) at h))
    | inr e ↦ absurd (ground (arith, e))
  ]

  upsert_pair-Makes :
      (p : ℕ) (key value : Option Bytes) (s : Store) {c : Change}
      → (upsert_pair u p key value s).0 ≡ ok c
      → Makes (view s) c (view (upsert_pair u p key value s).1)
  unfolding upsert_pair
  upsert_pair-Makes p (some key) (some value) s h = upsert_entry-Makes (c_str key) _ s h
  upsert_pair-Makes p (some key) none s h = cc
  upsert_pair-Makes p none value s h = cc

  upsert_one-Makes :
      (p : ℕ) (kv : Option KeyValue) (s : Store) {c : Change}
      → (upsert_one u p kv s).0 ≡ ok c
      → Makes (view s) c (view (upsert_one u p kv s).1)
  unfolding upsert_one
  upsert_one-Makes p none s h = cc
  upsert_one-Makes p (some kv) s h = upsert_pair-Makes p kv.key kv.value s h

  -- A deletion that finds nothing has an empty key, and changes nothing.
  abbrev Deletes : Store → Change → Store → Type 0
  Deletes s c t = Makes (view s) c (view t) ⊎ ((c.key ≡ []) × (t ≡ s))

  delete_found-Deletes :
      (key : Bytes) (old : Option Value) (s : Store) {c : Change}
      → view s key ≡ old
      → key ≢ []
      → (delete_found key old s).0 ≡ ok c
      → Deletes s c (delete_found key old s).1
  unfolding delete_found
  delete_found-Deletes key none s {c} f n h =
      subst (λ c. Deletes s c s) (ok-injective h) (inr (refl, refl))
  delete_found-Deletes key (some old) s f n h =
      subst (λ c. Deletes s c (delete_found key (some old) s).1) (ok-injective h) (inl made)
    where
      made : Makes (view s) (deleted key (some old)) (view (delete_found key (some old) s).1)
      made = record {
        fits = (refl, refl);
        found = f;
        after = λ k. rw entries-release_meta (find-erase key k s.entries);
        named = n;
      }

  delete_entry-Deletes :
      (key : Bytes) (s : Store) {c : Change}
      → (delete_entry u key s).0 ≡ ok c
      → Deletes s c (delete_entry u key s).1
  unfolding delete_entry
  delete_entry-Deletes key s h = elim (Bool-cases (is_valid_key u key)) [
    | inl e ↦
        rw (e, delete_entry)
          (delete_found-Deletes key (find key s.entries) s refl (valid-ne-nil key e)
            (rw (e, delete_entry) at h))
    | inr e ↦ absurd (ground (arith, e))
  ]

  delete_one-Deletes :
      (key : Option Bytes) (s : Store) {c : Change}
      → (delete_one u key s).0 ≡ ok c
      → Deletes s c (delete_one u key s).1
  unfolding delete_one
  delete_one-Deletes none s h = cc
  delete_one-Deletes (some key) s h = delete_entry-Deletes (c_str key) s h

  collect-Replays :
      (f g h : Bytes → Option Value) (c : Change) (cs : List Change)
      → Makes f c g
      → Replays g cs h
      → Replays f (collect c c.key cs) h
  collect-Replays f g h c cs m r = nonempty c.key m.named
    where
      step : Replays f (c ∷ cs) h
      step = (m.fits, m.found, Replays-from (write c f) g h cs m.after r)

      nonempty : (k : Bytes) → k ≢ [] → Replays f (collect c k cs) h
      nonempty [] n = absurd (n refl)
      nonempty (b ∷ bs) n = step

  -- One round of either loop, and the rounds behind it.
  round-Replays :
      (s : Store) (r : Result Change × Store) (loop : Exec Store (List Change)) {cs : List Change}
      → ((c : Change) → r.0 ≡ ok c → Deletes s c r.1)
      → ((ds : List Change) → (loop r.1).0 ≡ ok ds → Replays (view r.1) ds (view (loop r.1).1))
      → (follow r (λ c s1. follow (loop s1) (λ ds. pure (collect c c.key ds)))).0 ≡ ok cs
      → Replays
          (view s)
          cs
          (view (follow r (λ c s1. follow (loop s1) (λ ds. pure (collect c c.key ds)))).1)
  round-Replays s r loop step rest h =
      follow-elim (λ cs t. Replays (view s) cs (view t)) r
        (λ c s1. follow (loop s1) (λ ds. pure (collect c c.key ds))) h
        λ c e h1.
          follow-elim (λ cs t. Replays (view s) cs (view t)) (loop r.1)
            (λ ds. pure (collect c c.key ds)) h1
            λ ds e1 h2.
              subst (λ cs. Replays (view s) cs (view (loop r.1).1)) (ok-injective h2)
                (Deletes-Replays c ds (step c e) (rest ds e1))
    where
      Deletes-Replays :
          (c : Change) (ds : List Change)
          → Deletes s c r.1
          → Replays (view r.1) ds (view (loop r.1).1)
          → Replays (view s) (collect c c.key ds) (view (loop r.1).1)
      Deletes-Replays c ds (inl m) q = collect-Replays (view s) (view r.1) _ c ds m q
      Deletes-Replays c ds (inr (e, t)) q =
          rw (e, collect) (Replays-from _ _ _ ds (λ k. ap (λ s. view s k) t) q)

  upsert_all-Replays :
      (p : ℕ) (kvs : List (Option KeyValue)) (s : Store) {cs : List Change}
      → (upsert_all u p kvs s).0 ≡ ok cs
      → Replays (view s) cs (view (upsert_all u p kvs s).1)
  unfolding upsert_all
  upsert_all-Replays p [] s h =
      subst (λ cs. Replays (view s) cs (view s)) (ok-injective h) (λ k. refl)
  upsert_all-Replays p (kv ∷ kvs) s h =
      round-Replays s (upsert_one u p kv s) (upsert_all u p kvs)
        (λ c e. inl (upsert_one-Makes p kv s e))
        (λ ds e. upsert_all-Replays p kvs (upsert_one u p kv s).1 e) h

  delete_all-Replays :
      (keys : List (Option Bytes)) (s : Store) {cs : List Change}
      → (delete_all u keys s).0 ≡ ok cs
      → Replays (view s) cs (view (delete_all u keys s).1)
  unfolding delete_all
  delete_all-Replays [] s h =
      subst (λ cs. Replays (view s) cs (view s)) (ok-injective h) (λ k. refl)
  delete_all-Replays (key ∷ keys) s h =
      round-Replays s (delete_one u key s) (delete_all u keys) (λ c e. delete_one-Deletes key s e)
        (λ ds e. delete_all-Replays keys (delete_one u key s).1 e) h

  install_update-Replays :
      (upd : Update) (p : ℕ) (s : Store) {r : List Change × ℕ}
      → (install_update u upd p s).0 ≡ ok r
      → Replays (view s) r.0 (view (install_update u upd p s).1)
  unfolding install_update
  install_update-Replays upd p s h =
      follow-elim P (upsert_all u p (or_empty upd.upserts) s) _ h λ cs e h1.
        follow-elim P (delete_all u (or_empty upd.deletes) s2)
          (λ ds s3. pure (cs ++ ds, p) (register_meta upd.rev p s3)) h1
          λ ds e1 h2.
            subst (λ r. P r s4) {x = (cs ++ ds, p)} (ok-injective h2)
              (Replays-append (view s) (view s2) (view s4) cs ds
                (upsert_all-Replays p (or_empty upd.upserts) s e)
                (rw entries-register_meta (delete_all-Replays (or_empty upd.deletes) s2 e1)))
    where
      P : List Change × ℕ → Store → Type 0
      P r t = Replays (view s) r.0 (view t)

      s2 : Store
      s2 = (upsert_all u p (or_empty upd.upserts) s).1

      s4 : Store
      s4 = register_meta upd.rev p (delete_all u (or_empty upd.deletes) s2).1

  -- An update that returns gives the exact difference: its changes, done in their order, lead from
  -- the content before to the content after, and each one reports the value that it found.
  pub apply_update-Replays :
      (upd : Update) (s : Store) {r : List Change × ℕ}
      → (apply_update u upd s).0 ≡ ok r
      → Replays (view s) r.0 (view (apply_update u upd s).1)
  unfolding apply_update create_meta
  apply_update-Replays upd s h = elim (Bool-cases (leb upd.rev s.rev)) [
    | inl e ↦ absurd (ground (arith, e))
    | inr e ↦
        rw (e, apply_update)
          (install_update-Replays upd (length s.heap) _ (rw (e, apply_update) at h))
  ]
