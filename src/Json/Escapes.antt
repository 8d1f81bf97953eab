-- ===== src/Json/Escapes.antt =====
-- What a reader of JSON makes of the texts that src/json.cpp writes.
use nplex_cpp.Prelude.{
  ℕ, zero, suc, true, ◌+◌, ◌-◌, ◌/◌, ◌%◌, ◌*◌, ◌<◌, ◌≡◌, refl, sym, ap, ◌∙◌, ◌&&◌, [], ◌∷◌, ◌++◌,
  Option, none, some, append_assoc, append-nil, ltb, leb, ◌==◌, if◌then◌else◌, length, arith,
  Bool-cases, inl, inr,
}
use nplex_cpp.Prelude.Order.{Bytes}
use nplex_cpp.Json.{hex_digit, is_plain, escape, escape_loop, json_append_escaped_text}

-- The text of a JSON string (RFC 8259, section 7) behind its opening quote, and what follows the string:
-- a byte that is no control code stands for itself, the closing quote ends the text, and a backslash
-- starts an escape. A number of four hexadecimal digits is read where it is below 128.
push : ℕ → Option (Bytes × Bytes) → Option (Bytes × Bytes)
push c none = none
push c (some (text, rest)) = some (c ∷ text, rest)

short_escape : ℕ → Option ℕ
short_escape e =
    if e == 34
    then some 34
    else if e == 92
    then some 92
    else if e == 47
    then some 47
    else if e == 98
    then some 8
    else if e == 102
    then some 12
    else if e == 110
    then some 10
    else if e == 114
    then some 13
    else if e == 116
    then some 9
    else none

-- A hexadecimal digit, in either case.
hex_value : ℕ → Option ℕ
hex_value d =
    if leb 48 d && leb d 57
    then some (d - 48)
    else if leb 97 d && leb d 102
    then some (d - 87)
    else if leb 65 d && leb d 70
    then some (d - 55)
    else none

hex_number : Option ℕ → Option ℕ → Option ℕ → Option ℕ → Option ℕ
hex_number (some a) (some b) (some c) (some d) = some (((a * 16 + b) * 16 + c) * 16 + d)
hex_number _ _ _ _ = none

-- A code point below 128 is one byte of UTF-8.
push_code : (Bytes → Option (Bytes × Bytes)) → Bytes → Option ℕ → Option (Bytes × Bytes)
push_code next cs none = none
push_code next cs (some n) = if ltb n 128 then push n (next cs) else none

read_hex : (Bytes → Option (Bytes × Bytes)) → Bytes → Option (Bytes × Bytes)
read_hex next (a ∷ b ∷ c ∷ d ∷ cs) =
    push_code next cs (hex_number (hex_value a) (hex_value b) (hex_value c) (hex_value d))
read_hex next _ = none

read_short : (Bytes → Option (Bytes × Bytes)) → Bytes → Option ℕ → Option (Bytes × Bytes)
read_short next cs none = none
read_short next cs (some c) = push c (next cs)

read_escape : (Bytes → Option (Bytes × Bytes)) → Bytes → Option (Bytes × Bytes)
read_escape next [] = none
read_escape next (e ∷ cs) =
    if e == 117 then read_hex next cs else read_short next cs (short_escape e)

read_char : (Bytes → Option (Bytes × Bytes)) → Bytes → Option (Bytes × Bytes)
read_char next [] = none
read_char next (c ∷ cs) =
    if c == 34
    then some ([], cs)
    else if c == 92
    then read_escape next cs
    else if ltb c 32
    then none
    else push c (next cs)

pub read_text : ℕ → Bytes → Option (Bytes × Bytes)
read_text zero cs = none
read_text (suc fuel) cs = read_char (read_text fuel) cs

-- Each byte on its own.
abbrev encode : ℕ → Bytes
encode c = if is_plain c then c ∷ [] else escape c

abbrev encode_all : Bytes → Bytes
encode_all [] = []
encode_all (c ∷ cs) = encode c ++ encode_all cs

escape_loop-encode_all :
    (pending cs out : Bytes) → escape_loop pending cs out ≡ (out ++ pending) ++ encode_all cs
unfolding escape_loop
escape_loop-encode_all pending [] out = sym (append-nil (out ++ pending))
escape_loop-encode_all pending (c ∷ cs) out = elim (Bool-cases (is_plain c)) [
  | inl e ↦ rw e (escape_loop-encode_all (pending ++ c ∷ []) cs out ∙ simp (append_assoc) refl)
  | inr e ↦ rw e (
      escape_loop-encode_all [] cs ((out ++ pending) ++ escape c)
      ∙ rw (append-nil ((out ++ pending) ++ escape c))
          (append_assoc (out ++ pending) (escape c) (encode_all cs)))
]

hex_value-digit : (n : ℕ) → n < 16 → hex_value (hex_digit n) ≡ some n
unfolding hex_value
hex_value-digit n h = ground arith

read_hex-digits :
    (next : Bytes → Option (Bytes × Bytes)) (c : ℕ) (cs : Bytes)
    → c < 32
    → read_hex next (48 ∷ 48 ∷ hex_digit (c / 16 % 16) ∷ hex_digit (c % 16) ∷ cs) ≡ push c (next cs)
unfolding read_hex
read_hex-digits next c cs h =
    let a = hex_value-digit 0 (omega arith) in
    let b = hex_value-digit (c / 16 % 16) (omega arith) in
    let d = hex_value-digit (c % 16) (omega arith) in
    let n : ((0 * 16 + 0) * 16 + c / 16 % 16) * 16 + c % 16 ≡ c = omega (arith, h) in
    let s : ltb c 128 ≡ true = ground (arith, h) in
    rw (a, b, d) (unfold hex_number push_code in (rw n (rw s refl)))

-- A byte that is written is read back.
read_char-encode :
    (next : Bytes → Option (Bytes × Bytes)) (c : ℕ) (cs : Bytes)
    → read_char next (encode c ++ cs) ≡ push c (next cs)
unfolding read_char read_escape read_short short_escape escape
read_char-encode next c cs = ground (arith, read_hex-digits next c cs)

read_char-quote :
    (next : Bytes → Option (Bytes × Bytes)) (cs : Bytes) → read_char next (34 ∷ cs) ≡ some ([], cs)
unfolding read_char
read_char-quote next cs = refl

push-some : (c : ℕ) (text rest : Bytes) → push c (some (text, rest)) ≡ some (c ∷ text, rest)
unfolding push
push-some c text rest = refl

-- One unit of fuel is enough for each byte, and one for the closing quote.
read_text-encode_all :
    (text rest : Bytes) (n : ℕ)
    → length text < n
    → read_text n (encode_all text ++ 34 ∷ rest) ≡ some (text, rest)
unfolding read_text
read_text-encode_all [] rest zero h = ground arith
read_text-encode_all [] rest (suc n) h = read_char-quote (read_text n) rest
read_text-encode_all (c ∷ text) rest zero h = ground arith
read_text-encode_all (c ∷ text) rest (suc n) h =
    let k = read_text-encode_all text rest n (omega arith) in
    rw (append_assoc (encode c) (encode_all text) (34 ∷ rest)) (
      read_char-encode (read_text n) c (encode_all text ++ 34 ∷ rest)
      ∙ ap (push c) k
      ∙ push-some c text rest)

-- A text that is written escaped stands between quotes behind what was written before, and a reader of
-- JSON behind the opening quote gets it back, whatever follows.
pub json_append_escaped_text-read_text :
    (text out rest : Bytes)
    → (written : Bytes) × (json_append_escaped_text text out ++ rest ≡ out ++ 34 ∷ written)
      × (read_text (suc (length text)) written ≡ some (text, rest))
unfolding json_append_escaped_text
json_append_escaped_text-read_text text out rest = (
  encode_all text ++ 34 ∷ rest,
  rw (escape_loop-encode_all [] text (out ++ 34 ∷ [])) (simp (append_assoc, append-nil) refl),
  read_text-encode_all text rest (suc (length text)) (omega arith),
)
