-- ===== src/Json.antt =====
-- src/json.cpp: the escaping of texts.
pub mod Escapes
use nplex_cpp.Prelude.{ℕ, ◌+◌, ◌/◌, ◌%◌, Bool, not, ◌||◌, [], ◌∷◌, ◌++◌, ltb, ◌==◌, if◌then◌else◌}
use nplex_cpp.Prelude.Order.{Bytes}

unfoldable pub json_append_text : Bytes → Bytes → Bytes
json_append_text text out = ((out ++ 34 ∷ []) ++ text) ++ 34 ∷ []

-- c >= 0x20 && c != '"' && c != '\\'
abbrev pub is_plain : ℕ → Bool
is_plain c = not (ltb c 32 || (c == 34 || c == 92))

abbrev pub hex_digit : ℕ → ℕ
hex_digit n = if ltb n 10 then n + 48 else n + 87

-- The switch, with "\\u%04x" as its default.
unfoldable pub escape : ℕ → Bytes
escape c =
    if c == 34
    then 92 ∷ 34 ∷ []
    else if c == 92
    then 92 ∷ 92 ∷ []
    else if c == 8
    then 92 ∷ 98 ∷ []
    else if c == 12
    then 92 ∷ 102 ∷ []
    else if c == 10
    then 92 ∷ 110 ∷ []
    else if c == 13
    then 92 ∷ 114 ∷ []
    else if c == 9
    then 92 ∷ 116 ∷ []
    else 92 ∷ 117 ∷ 48 ∷ 48 ∷ hex_digit (c / 16 % 16) ∷ hex_digit (c % 16) ∷ []

-- `pending` is the text from `start` to `p`, which is copied as a whole.
unfoldable pub escape_loop : Bytes → Bytes → Bytes → Bytes
unfolding escape
escape_loop pending [] out = out ++ pending
escape_loop pending (c ∷ cs) out =
    escape_loop (if is_plain c then pending ++ c ∷ [] else []) cs
      (if is_plain c then out else (out ++ pending) ++ escape c)

unfoldable pub json_append_escaped_text : Bytes → Bytes → Bytes
unfolding escape_loop
json_append_escaped_text text out = escape_loop [] text (out ++ 34 ∷ []) ++ 34 ∷ []
