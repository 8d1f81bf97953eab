-- ===== src/Store/Replays.antt =====
-- What a list of changes does to the content of a store.
use nplex_cpp.Prelude.{
  ◌≡◌, sym, ◌∙◌, true, List, [], ◌∷◌, ◌++◌, Option, none, arith, if◌then◌else◌, is_some,
}
use nplex_cpp.Prelude.Order.{Bytes, bytes_order, same}
use nplex_cpp.OrderedMap.{find}
use nplex_cpp.Types.{Value, Change, ChangeAction}
use nplex_cpp.Store.{Store}

-- The content as a function of the key.
abbrev pub view : Store → Bytes → Option Value
view s k = find k s.entries

-- What a change does to the content.
abbrev pub write : Change → (Bytes → Option Value) → Bytes → Option Value
write c f k = if same k c.key then c.new_value else f k

-- The action fits the values: CREATE has no old value, DELETE no new one, UPDATE has both.
abbrev pub Fits : Change → Type 0
Fits c = elim c.action [
  | ChangeAction.create ↦ (c.old_value ≡ none) × (is_some c.new_value ≡ true)
  | ChangeAction.update ↦ (is_some c.old_value ≡ true) × (is_some c.new_value ≡ true)
  | ChangeAction.delete ↦ (is_some c.old_value ≡ true) × (c.new_value ≡ none)
]

-- The changes, done in their order, lead from one content to the other, and each reports the value
-- that it found.
abbrev pub Replays : (Bytes → Option Value) → List Change → (Bytes → Option Value) → Type 0
Replays f [] g = (k : Bytes) → g k ≡ f k
Replays f (c ∷ cs) g = Fits c × (f c.key ≡ c.old_value) × Replays (write c f) cs g

pub Replays-from :
    (f g h : Bytes → Option Value) (cs : List Change)
    → ((k : Bytes) → g k ≡ f k)
    → Replays g cs h
    → Replays f cs h
Replays-from f g h [] e r = λ k. r k ∙ e k
Replays-from f g h (c ∷ cs) e r = (
  r.0,
  sym (e c.key) ∙ r.1,
  Replays-from (write c f) (write c g) h cs (λ k. ground (arith, e k)) r.2,
)

pub Replays-append :
    (f g h : Bytes → Option Value) (cs ds : List Change)
    → Replays f cs g
    → Replays g ds h
    → Replays f (cs ++ ds) h
Replays-append f g h [] ds r q = Replays-from f g h ds r q
Replays-append f g h (c ∷ cs) ds r q = (r.0, r.1, Replays-append (write c f) g h cs ds r.2 q)
