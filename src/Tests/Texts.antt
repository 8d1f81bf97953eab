-- ===== src/Tests/Texts.antt =====
-- The theorem on src/json.cpp at a text that needs escapes.
use nplex_cpp.Prelude.{◌≡◌, refl, suc, some, [], ◌∷◌, ◌++◌, length}
use nplex_cpp.Prelude.Order.{Bytes}
use nplex_cpp.Json.{json_append_escaped_text}
use nplex_cpp.Json.Escapes.{read_text, json_append_escaped_text-read_text}

-- A letter, a quote, a line feed, the byte 31, a backslash, a letter.
abbrev text : Bytes
text = 97 ∷ 34 ∷ 10 ∷ 31 ∷ 92 ∷ 98 ∷ []

written_text :
    json_append_escaped_text text []
    ≡ 34 ∷ 97 ∷ 92 ∷ 34 ∷ 92 ∷ 110 ∷ 92 ∷ 117 ∷ 48 ∷ 48 ∷ 49 ∷ 102 ∷ 92 ∷ 92 ∷ 98 ∷ 34 ∷ []
unfolding json_append_escaped_text
written_text = refl

json_append_escaped_text-read_text_example :
    (written : Bytes) × (json_append_escaped_text text (123 ∷ []) ++ 125 ∷ []
      ≡ (123 ∷ []) ++ 34 ∷ written)
    × (read_text (suc (length text)) written ≡ some (text, 125 ∷ []))
json_append_escaped_text-read_text_example =
    json_append_escaped_text-read_text text (123 ∷ []) (125 ∷ [])
