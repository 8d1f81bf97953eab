-- ===== src/Tests/Logins.antt =====
-- Logins and answers to requests for updates at concrete states.
use nplex_cpp.Prelude.{◌≡◌, refl, true, false, [], ◌∷◌, some, none}
use nplex_cpp.Schema.{UpdatesResponse, LoginResponse, LoginCode}
use nplex_cpp.Client.{Client, ClientState, World}
use nplex_cpp.Client.Core.{is_closed}
use nplex_cpp.Client.Link.{process_login_resp, is_empty, user_of, acls_of}
use nplex_cpp.Client.Syncing.{process_login_resp-abort}
use nplex_cpp.Tests.Data.{key_a, world, client}

-- A client without an initial revision that has connected again.
abbrev back : Client
back = record client { state = ClientState.syncing; rev0 = 0 }

abbrev updates : UpdatesResponse
updates = record { cid = 3; crev = 5; accepted = true }

abbrev connecting : Client
connecting = record client { state = ClientState.connecting; con = none }

abbrev throwing : World
throwing = record world { established_throws = true }

abbrev login : LoginResponse
login = record {
  cid = 9;
  code = LoginCode.authorized;
  rev0 = 1;
  crev = 5;
  can_force = false;
  can_monitor = false;
  keepalive = 1000;
  permissions = some (record { pattern = key_a; mode = 15 } ∷ []);
}

has_permission : is_empty (user_of connecting login).permissions ≡ false
unfolding user_of acls_of
has_permission = refl

process_login_resp-abort_example :
    (is_closed (process_login_resp throwing 0 login connecting).1.state ≡ false)
    × ((process_login_resp throwing 0 login connecting).1.stopped ≡ true)
process_login_resp-abort_example =
    process_login_resp-abort throwing 0 login connecting refl refl has_permission refl
