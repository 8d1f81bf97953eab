-- ===== src/Client/Running.antt =====
-- src/client_impl.cpp: run, which starts the event loop of a client and clears up behind it, the setter of
-- the initial revision, and the waits of other threads. What uv_run does between is a parameter.
use nplex_cpp.Prelude.{ℕ, Bool, true, false, not, ◌||◌, List, [], ◌∷◌, none, map, if◌then◌else◌}
use nplex_cpp.Result.{Result, Exec, ok, err, pure, throw, follow, client_closed, client_running}
use nplex_cpp.Connection.{err_closed_by_local}
use nplex_cpp.Connection
use nplex_cpp.Client.{Client, ClientState, World}
use nplex_cpp.Client.Core.{is_closed, cancel_requests, set_state}
use nplex_cpp.Client.Link.{is_offline, try_to_connect}

unfoldable pub set_initial_rev : ℕ → Exec Client (Unit {0})
set_initial_rev rev c =
    if c.running then throw client_running c else pure tt (record c { rev0 = rev })

-- What an exception leaves: m_error, and nothing thrown.
unfoldable pub catch : {A : Type 0} → Result A × Client → Client
catch (ok a, c) = c
catch (err e, c) = record c { has_error = true }

abbrev pub start : Client → Client
start c = record c { running = true; has_error = false; con = none }

-- The connections are asked to close. The rounds of the loop that follow close them; the client is
-- closed then, and their callbacks do nothing.
unfoldable pub close_loop : Exec Client (Unit {0})
close_loop c = follow (cancel_requests (set_state ClientState.closed c)) λ _ c1.
    pure tt
      (record c1 { connections = map (Connection.disconnect err_closed_by_local) c1.connections })

abbrev pub reset : Client → Client
reset c = record c {
  transactions = [];
  connections = [];
  commands = [];
  requests = [];
  accepted = [];
  con = none;
  running = false;
}

-- `events` is uv_run.
unfoldable pub run : World → Exec Client (Unit {0}) → Client → Client
unfolding catch close_loop
run w events c =
    if c.running || not (is_offline c.state)
    then c
    else reset (catch (close_loop (catch (follow (try_to_connect w (start c)) λ _. events))))

-- m_cv.wait_for: the predicate at each time that the thread wakes, and at last at the timeout.
unfoldable pub wait_for : (Client → Result Bool) → List Client → Result Bool
wait_for holds [] = ok false
wait_for holds (c ∷ cs) =
    let rest = wait_for holds cs in
    elim (holds c) [ err e ↦ err e | ok b ↦ if b then ok true else rest ]

abbrev pub is_synced : ClientState → Bool
is_synced ClientState.synced = true
is_synced _ = false

abbrev pub has_populated : Client → Result Bool
has_populated c = if is_closed c.state then err client_closed else ok c.populated

abbrev pub has_synced : Client → Result Bool
has_synced c = if is_closed c.state then err client_closed else ok (is_synced c.state)

abbrev pub has_closed : Client → Result Bool
has_closed c = ok (is_closed c.state)

unfoldable pub wait_for_populated : Client → List Client → Result Bool
wait_for_populated c seen =
    if is_closed c.state then err client_closed else wait_for has_populated seen

unfoldable pub wait_for_synced : Client → List Client → Result Bool
wait_for_synced c seen = if is_closed c.state then err client_closed else wait_for has_synced seen

unfoldable pub wait_for_closed : Client → List Client → Result Bool
wait_for_closed c seen = if is_closed c.state then ok true else wait_for has_closed seen
