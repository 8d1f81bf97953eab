-- ===== src/Key.antt =====
-- src/utils.cpp, is_valid_key. The UTF-8 routines of deps/utf8.h are the parameter `Utf8`.
use nplex_cpp.Prelude.{
  ℕ, zero, suc, Bool, true, false, not, ◌&&◌, ◌||◌, [], ◌∷◌, leb, ◌==◌, if◌then◌else◌, length,
}
use nplex_cpp.Prelude.Order.{Bytes}

-- `valid` is `utf8nvalid(ptr, n) == 0`; `codepoint` is `utf8codepoint`: the code point at the head
-- and the bytes behind it.
pub record Utf8 : Type 0 where
  pub valid : Bytes → Bool
  pub codepoint : Bytes → ℕ × Bytes

-- The bytes of a C string end before the first NUL.
unfoldable pub c_str : Bytes → Bytes
c_str [] = []
c_str (c ∷ cs) = let rest = c_str cs in if c == 0 then [] else c ∷ rest

unfoldable pub front_is_space : Bytes → Bool
front_is_space [] = false
front_is_space (c ∷ cs) = c == b' '

unfoldable pub back_is_space : Bytes → Bool
back_is_space [] = false
back_is_space (c ∷ []) = c == b' '
back_is_space (c ∷ d ∷ cs) = back_is_space (d ∷ cs)

-- key.find("//")
unfoldable pub has_double_slash : Bytes → Bool
has_double_slash [] = false
has_double_slash (c ∷ []) = false
has_double_slash (c ∷ d ∷ cs) = (c == b'/' && d == b'/') || has_double_slash (d ∷ cs)

-- key.find('\0')
unfoldable pub has_nul : Bytes → Bool
has_nul [] = false
has_nul (c ∷ cs) = c == 0 || has_nul cs

-- the control characters below 0x20, DEL, and those from 0x80 on
unfoldable pub is_control : ℕ → Bool
is_control cp = leb cp 0x1F || (leb 0x7F cp && leb cp 0x9F)

-- The loop over the code points; each round takes one byte at least, so the length is enough fuel.
unfoldable pub no_control : Utf8 → ℕ → Bytes → Bool
unfolding is_control
no_control u fuel [] = true
no_control u zero (c ∷ cs) = true
no_control u (suc fuel) (c ∷ cs) =
    let rest = no_control u fuel (u.codepoint (c ∷ cs)).1 in
    if is_control (u.codepoint (c ∷ cs)).0 then false else rest

unfoldable pub is_valid_key : Utf8 → Bytes → Bool
unfolding front_is_space back_is_space has_double_slash has_nul no_control
is_valid_key u [] = false
is_valid_key u (c ∷ cs) =
    let key = c ∷ cs in
    if front_is_space key || back_is_space key
    then false
    else if has_double_slash key
    then false
    else if has_nul key
    then false
    else if not (u.valid key)
    then false
    else no_control u (length key) key
