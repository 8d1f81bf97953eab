-- ===== src/Tx/Session.antt =====
-- A transaction among the commits of other clients: any interleaving of its own calls with updates of
-- the store, which the client passes on to it (client_impl::process_update). for_each and remove(pattern) are the
-- scan of for_each_internal and then the calls of the callback.
use nplex_cpp.Prelude.{ℕ, ◌≡◌, Bool, List, Option}
use nplex_cpp.Prelude.Order.{Bytes, bytes_order}
use nplex_cpp.Result.{ok}
use nplex_cpp.Types.{Change}
use nplex_cpp.Schema.{Update}
use nplex_cpp.Key.{Utf8}
use nplex_cpp.User.{Glob}
use nplex_cpp.Store.{Store, apply_update}
use nplex_cpp.Tx.{Tx}
use nplex_cpp.Tx.Access.{ensure, read, upsert_internal, remove}
use nplex_cpp.Tx.Track
use nplex_cpp.Tx.Scan.{for_each_internal}

pub record Session : Type 0 where
  pub tx : Tx
  pub store : Store

module _ (u : Utf8) (glob : Glob) where
  -- One step; `W` says which keys the transaction may upsert and remove.
  pub data Step (W : Bytes → Type 0) (a : Session) : Session → Type 0 where
    commits :
        (upd : Update) (r : List Change × ℕ)
        → (apply_update u upd a.store).0 ≡ ok r
        → Step W a
            (record { tx = Track.update glob r.0 a.tx; store = (apply_update u upd a.store).1 })
    reads :
        (key : Bytes) (check : Bool)
        → Step W a (record { tx = (read u a.store key check a.tx).1; store = a.store })
    ensures :
        (pattern : Option Bytes)
        → Step W a (record { tx = (ensure pattern a.tx).1; store = a.store })
    upserts :
        (key content : Bytes) (force : Bool)
        → W key
        → Step W a (record {
          tx = (upsert_internal u glob a.store key content force a.tx).1;
          store = a.store;
        })
    removes :
        (key : Bytes)
        → W key
        → Step W a (record { tx = (remove u glob a.store key a.tx).1; store = a.store })
    scans :
        (pattern : Bytes)
        → Step W a
            (record { tx = (for_each_internal glob a.store pattern a.tx).1; store = a.store })

  pub data Reach (W : Bytes → Type 0) (a : Session) : Session → Type 0 where
    here : Reach W a a
    next : {b c : Session} → Reach W a b → Step W b c → Reach W a c
