-- ===== src/Store/Abstract.antt =====
-- The abstract database: a function from keys to contents, and what an update does to it. The last
-- upsert of a key wins, and a deletion wins over every upsert.
use nplex_cpp.Prelude.{
  ◌≡◌, Bool, true, false, ◌||◌, List, [], ◌∷◌, Option, none, some, if◌then◌else◌,
}
use nplex_cpp.Prelude.Order.{Bytes, bytes_order, same}
use nplex_cpp.OrderedMap.{find}
use nplex_cpp.Types.{Value}
use nplex_cpp.Schema.{KeyValue, Update}
use nplex_cpp.Key.{Utf8, c_str, is_valid_key}
use nplex_cpp.Store.{Store, or_empty}

abbrev pub content_of : Option Value → Option Bytes
content_of none = none
content_of (some v) = some v.content

-- The content under a key.
abbrev pub content : Store → Bytes → Option Bytes
content s k = content_of (find k s.entries)

abbrev pub names : Bytes → Option Bytes → Bool
names k none = false
names k (some key) = same k (c_str key)

abbrev pub or_else : Option Bytes → Option Bytes → Option Bytes
or_else (some v) w = some v
or_else none w = w

abbrev pub written_by : Bytes → Option KeyValue → Option Bytes
written_by k none = none
written_by k (some kv) = if names k kv.key then kv.value else none

-- What the last upsert of the key writes.
unfoldable pub written : Bytes → List (Option KeyValue) → Option Bytes
written k [] = none
written k (kv ∷ kvs) = or_else (written k kvs) (written_by k kv)

unfoldable pub removed : Bytes → List (Option Bytes) → Bool
removed k [] = false
removed k (key ∷ keys) = names k key || removed k keys

-- The abstract update.
unfoldable pub updated_content : Update → (Bytes → Option Bytes) → Bytes → Option Bytes
updated_content upd f k =
    if removed k (or_empty upd.deletes)
    then none
    else or_else (written k (or_empty upd.upserts)) (f k)

module _ (u : Utf8) where
  -- A message that the loops accept: all fields are there, and the keys are valid.
  abbrev pub IsGoodPair : Option Bytes → Option Bytes → Type 0
  IsGoodPair (some key) (some value) = is_valid_key u (c_str key) ≡ true
  IsGoodPair (some key) none = ⊥
  IsGoodPair none value = ⊥

  abbrev pub IsGoodUpsert : Option KeyValue → Type 0
  IsGoodUpsert none = ⊥
  IsGoodUpsert (some kv) = IsGoodPair kv.key kv.value

  abbrev pub IsGoodDelete : Option Bytes → Type 0
  IsGoodDelete none = ⊥
  IsGoodDelete (some key) = is_valid_key u (c_str key) ≡ true

  abbrev pub AllUpserts : List (Option KeyValue) → Type 0
  AllUpserts [] = Unit {0}
  AllUpserts (kv ∷ kvs) = IsGoodUpsert kv × AllUpserts kvs

  abbrev pub AllDeletes : List (Option Bytes) → Type 0
  AllDeletes [] = Unit {0}
  AllDeletes (key ∷ keys) = IsGoodDelete key × AllDeletes keys

  abbrev pub IsWellFormed : Update → Type 0
  IsWellFormed upd = AllUpserts (or_empty upd.upserts) × AllDeletes (or_empty upd.deletes)
