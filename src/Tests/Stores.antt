-- ===== src/Tests/Stores.antt =====
-- The store at a concrete update, and connections and modes.
use nplex_cpp.Prelude.{◌≡◌, refl, arith, true, [], ◌∷◌, some, none}
use nplex_cpp.Prelude.Order.{Bytes, compare_bytes}
use nplex_cpp.OrderedMap.{find, insert, erase}
use nplex_cpp.Result.{ok}
use nplex_cpp.Key.{
  is_valid_key, c_str, front_is_space, back_is_space, has_double_slash, has_nul, is_control,
  no_control,
}
use nplex_cpp.Store.{
  count_user, create_meta, release_user, release_at, release_meta, retain_meta, upsert_found,
  upsert_entry, upsert_pair, upsert_one, upsert_all, delete_all, register_meta, install_update,
  apply_update, load,
}
use nplex_cpp.Schema.{Snapshot}
use nplex_cpp.Store.Loading.{loaded_content, load-loaded_content}
use nplex_cpp.Store.Abstract.{content, IsWellFormed}
use nplex_cpp.Store.Content.{Implements, apply_update-Implements}
use nplex_cpp.Store.Replays.{view, Replays}
use nplex_cpp.Store.Changes.{apply_update-Replays}
use nplex_cpp.Connection.{
  ConnectionState, new_connection, connect, cb_tcp_connect, send, cb_tcp_write,
}
use nplex_cpp.Connection.Limits.{
  Link, Reach, here, next, connects, establishes, sends, delivers, opened, IsAccounted,
  Reach-IsAccounted,
}
use nplex_cpp.Crud.{crud_to_string, parse_crud, parse_crud-string, crud_to_string-parse}
use nplex_cpp.Tests.Data.{utf8, key_a, store, upd, changes}

pub valid_a : is_valid_key utf8 key_a ≡ true
unfolding is_valid_key c_str front_is_space back_is_space has_double_slash has_nul is_control
    no_control
valid_a = refl

well_formed : IsWellFormed utf8 upd
unfolding is_valid_key c_str front_is_space back_is_space has_double_slash has_nul is_control
    no_control
well_formed = ((refl, (refl, tt)), tt)

-- What the store returns for the update.
pub stored : (apply_update utf8 upd store).0 ≡ ok (changes, 1)
unfolding apply_update install_update register_meta delete_all upsert_all upsert_one upsert_pair
    upsert_entry upsert_found retain_meta release_meta release_at release_user create_meta
    count_user find insert erase compare_bytes is_valid_key c_str front_is_space back_is_space
    has_double_slash has_nul is_control no_control
stored = refl

apply_update-Implements_example : Implements utf8 upd (content store) (apply_update utf8 upd store)
apply_update-Implements_example = apply_update-Implements utf8 upd store (omega arith) well_formed

apply_update-Replays_example : Replays (view store) changes (view (apply_update utf8 upd store).1)
apply_update-Replays_example = apply_update-Replays utf8 upd store stored

-- Connected, one message of 20 bytes sent, and delivered.
abbrev served : Link
served = record {
  con = record (new_connection 10 1000) {
    state = ConnectionState.connected;
    sent_msgs = 1;
    sent_bytes = 20;
  };
  waiting = [];
}

delivered : Reach (opened 10 1000) served
unfolding connect cb_tcp_connect send cb_tcp_write
delivered =
    next (next (next (next here (connects 0)) (establishes 0 refl)) (sends 20 0 (omega arith)))
      (delivers 20 0 [] refl)

Reach-IsAccounted_example : IsAccounted served
Reach-IsAccounted_example = Reach-IsAccounted 10 1000 (omega arith) (omega arith) delivered

parse_crud-string_example : parse_crud (crud_to_string 11) ≡ ok 11
parse_crud-string_example = parse_crud-string 11 (omega arith)

parsed : parse_crud (45 ∷ 114 ∷ 117 ∷ 45 ∷ []) ≡ ok 5
unfolding parse_crud
parsed = refl

crud_to_string-parse_example : crud_to_string 5 ≡ 45 ∷ 114 ∷ 117 ∷ 45 ∷ []
crud_to_string-parse_example = crud_to_string-parse (45 ∷ 114 ∷ 117 ∷ 45 ∷ []) 5 parsed

abbrev snapshot : Snapshot
snapshot = record { rev = 5; updates = some (some upd ∷ []) }

load-loaded_content_example :
    ((load utf8 (some snapshot) store).0 ≡ ok tt)
    × ((load utf8 (some snapshot) store).1.rev ≡ 5)
    × ((k : Bytes)
        → content (load utf8 (some snapshot) store).1 k
          ≡ loaded_content (some upd ∷ []) (λ _. none) k)
load-loaded_content_example =
    load-loaded_content utf8 snapshot store (omega arith, omega arith, well_formed, tt)
