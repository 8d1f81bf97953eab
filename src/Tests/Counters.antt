-- ===== src/Tests/Counters.antt =====
-- The theorems on the reference counters, at an update that overwrites one entry and makes another.
use nplex_cpp.Prelude.{zero, suc, refl, arith, some, [], ◌∷◌}
use nplex_cpp.Schema.{Snapshot}
use nplex_cpp.Store.{apply_update, load}
use nplex_cpp.Store.Readiness.{Counts}
use nplex_cpp.Store.Counts.{apply_update-Counts, load-Counts}
use nplex_cpp.Tests.Data.{utf8, store, upd}

abbrev snapshot : Snapshot
snapshot = record { rev = 5; updates = some (some upd ∷ []) }

counted : Counts 0 store
counted zero = refl
counted (suc q) = ground arith

apply_update-Counts_example : Counts 0 (apply_update utf8 upd store).1
apply_update-Counts_example =
    apply_update-Counts utf8 0 upd store (tt, tt) (omega arith) (omega arith) counted

load-Counts_example : Counts 1 (load utf8 (some snapshot) store).1
load-Counts_example = load-Counts utf8 snapshot store (omega arith)
