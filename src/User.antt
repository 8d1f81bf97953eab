-- ===== src/User.antt =====
-- src/user.hpp and src/user.cpp, and the text form of a mode (src/utils.cpp). The matcher
-- `glob_match(text, pattern)` of deps/match.c is a parameter.
use Prim.Native.Nat.{bit_and}
use nplex_cpp.Prelude.{ℕ, Bool, false, List, [], ◌∷◌, ◌==◌, if◌then◌else◌}
use nplex_cpp.Prelude.Order.{Bytes}

abbrev pub Glob : Type 0
Glob = Bytes → Bytes → Bool

abbrev pub crud_read : ℕ
crud_read = 0x01

abbrev pub crud_create : ℕ
crud_create = 0x02

abbrev pub crud_update : ℕ
crud_update = 0x04

abbrev pub crud_delete : ℕ
crud_delete = 0x08

pub record Acl : Type 0 where
  pub mode : ℕ
  pub pattern : Bytes

pub record User : Type 0 where
  pub name : Bytes
  pub permissions : List Acl
  pub can_force : Bool
  pub can_monitor : Bool

-- The loop: the first entry whose pattern matches decides.
unfoldable pub first_match : Glob → ℕ → Bytes → List Acl → Bool
first_match glob mode key [] = false
first_match glob mode key (acl ∷ acls) =
    let rest = first_match glob mode key acls in
    if glob key acl.pattern then bit_and mode acl.mode == mode else rest

-- `key` is not null.
unfoldable pub is_authorized : Glob → User → ℕ → Bytes → Bool
unfolding first_match
is_authorized glob user mode key =
    if mode == 0 then false else first_match glob mode key user.permissions
