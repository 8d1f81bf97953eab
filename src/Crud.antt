-- ===== src/Crud.antt =====
-- The text form of a mode: crud_to_string and parse_crud of src/utils.cpp, on the codes of characters.
use Prim.Native.Nat.{bit_and, bit_or}
use nplex_cpp.Prelude.{
  ℕ, zero, sym, ap, ◌∙◌, suc, ◌+◌, ◌≡◌, ◌<◌, refl, Bool, true, false, not, ◌&&◌, [], ◌∷◌, length,
  ◌==◌, if◌then◌else◌, Bool-cases, inl, inr, arith,
}
use nplex_cpp.Prelude.Order.{Bytes}
use nplex_cpp.Result.{Result, ok, err, ok-injective, invalid_argument}
use nplex_cpp.User.{crud_read, crud_create, crud_update, crud_delete}

abbrev pub dash : ℕ
dash = 45

-- "crud"
abbrev pub crud_str : Bytes
crud_str = 99 ∷ 114 ∷ 117 ∷ 100 ∷ []

unfoldable pub crud_char : ℕ → ℕ → ℕ → ℕ
crud_char crud bit char = if bit_and crud bit == 0 then dash else char

unfoldable pub crud_to_string : ℕ → Bytes
unfolding crud_char
crud_to_string crud =
    crud_char crud crud_create 99
    ∷ crud_char crud crud_read 114
    ∷ crud_char crud crud_update 117
    ∷ crud_char crud crud_delete 100
    ∷ []

-- the switch on a character
unfoldable pub crud_bit : ℕ → ℕ
crud_bit c =
    if c == 99
    then crud_create
    else if c == 114
    then crud_read
    else if c == 117
    then crud_update
    else if c == 100
    then crud_delete
    else 0

-- The loop over the four places.
unfoldable pub parse_places : Bytes → Bytes → ℕ → Result ℕ
unfolding crud_bit
parse_places (x ∷ xs) (c ∷ cs) crud =
    let rest = parse_places xs cs (bit_or crud (crud_bit c)) in
    if not (c == x) && not (c == dash) then err invalid_argument else rest
parse_places _ _ crud = ok crud

unfoldable pub parse_crud : Bytes → Result ℕ
unfolding parse_places
parse_crud str = if not (length str == 4) then err invalid_argument else parse_places crud_str str 0

-- the mode with these bits
abbrev pub mode_of : Bool → Bool → Bool → Bool → Bytes
mode_of c r u d =
    (if c then 99 else dash)
    ∷ (if r then 114 else dash)
    ∷ (if u then 117 else dash)
    ∷ (if d then 100 else dash)
    ∷ []

-- Printing a mode of four bits and parsing it gives the mode.
pub parse_crud-string : (m : ℕ) → m < 16 → parse_crud (crud_to_string m) ≡ ok m
unfolding parse_crud crud_to_string
parse_crud-string zero h = refl
parse_crud-string (suc zero) h = refl
parse_crud-string (suc (suc zero)) h = refl
parse_crud-string (suc (suc (suc zero))) h = refl
parse_crud-string (suc (suc (suc (suc zero)))) h = refl
parse_crud-string (suc (suc (suc (suc (suc zero))))) h = refl
parse_crud-string (suc (suc (suc (suc (suc (suc zero)))))) h = refl
parse_crud-string (suc (suc (suc (suc (suc (suc (suc zero))))))) h = refl
parse_crud-string (suc (suc (suc (suc (suc (suc (suc (suc zero)))))))) h = refl
parse_crud-string (suc (suc (suc (suc (suc (suc (suc (suc (suc zero))))))))) h = refl
parse_crud-string (suc (suc (suc (suc (suc (suc (suc (suc (suc (suc zero)))))))))) h = refl
parse_crud-string (suc (suc (suc (suc (suc (suc (suc (suc (suc (suc (suc zero))))))))))) h = refl
parse_crud-string (suc (suc (suc (suc (suc (suc (suc (suc (suc (suc (suc (suc zero)))))))))))) h =
    refl
parse_crud-string (suc (suc (suc (suc (suc (suc (suc (suc (suc (suc (suc (suc (suc zero)))))))))))))
      h =
    refl
parse_crud-string
      (suc (suc (suc (suc (suc (suc (suc (suc (suc (suc (suc (suc (suc (suc zero)))))))))))))) h =
    refl
parse_crud-string
      (suc (suc (suc (suc (suc (suc (suc (suc (suc (suc (suc (suc (suc (suc (suc zero)))))))))))))))
      h =
    refl
parse_crud-string
      (suc
        (suc (suc (suc (suc (suc (suc (suc (suc (suc (suc (suc (suc (suc (suc (suc m))))))))))))))))
      h =
    absurd (omega (arith, h))

value_of : Bool → Bool → Bool → Bool → ℕ
value_of c r u d =
    (if c then 2 else 0) + (if r then 1 else 0) + (if u then 4 else 0) + (if d then 8 else 0)

parse_crud-mode : (c r u d : Bool) → parse_crud (mode_of c r u d) ≡ ok (value_of c r u d)
unfolding parse_crud value_of
parse_crud-mode true true true true = refl
parse_crud-mode true true true false = refl
parse_crud-mode true true false true = refl
parse_crud-mode true true false false = refl
parse_crud-mode true false true true = refl
parse_crud-mode true false true false = refl
parse_crud-mode true false false true = refl
parse_crud-mode true false false false = refl
parse_crud-mode false true true true = refl
parse_crud-mode false true true false = refl
parse_crud-mode false true false true = refl
parse_crud-mode false true false false = refl
parse_crud-mode false false true true = refl
parse_crud-mode false false true false = refl
parse_crud-mode false false false true = refl
parse_crud-mode false false false false = refl

crud_to_string-mode : (c r u d : Bool) → crud_to_string (value_of c r u d) ≡ mode_of c r u d
unfolding crud_to_string value_of
crud_to_string-mode c r u d = ground arith

-- One place of a string that is parsed holds its letter or a dash, and the others are parsed too.
place-parsed :
    (x a : ℕ) (xs as' : Bytes) (crud m : ℕ)
    → parse_places (x ∷ xs) (a ∷ as') crud ≡ ok m
    → (a ≡ (if a == x then x else dash)) × (parse_places xs as' (bit_or crud (crud_bit a)) ≡ ok m)
unfolding parse_places
place-parsed x a xs as' crud m h = elim (Bool-cases (not (a == x) && not (a == dash))) [
  | inl e ↦ absurd (clash (parse_places xs as' (bit_or crud (crud_bit a))) (rw e at h))
  | inr e ↦ (letter e, rw e at h)
]
  where
    clash : (r : Result ℕ) → (if true then err invalid_argument else r) ≡ ok m → ⊥
    clash r k = cc

    letter : (not (a == x) && not (a == dash)) ≡ false → a ≡ (if a == x then x else dash)
    letter e = ground arith

mode_places :
    (a b c d m : ℕ)
    → parse_places crud_str (a ∷ b ∷ c ∷ d ∷ []) 0 ≡ ok m
    → a ∷ b ∷ c ∷ d ∷ [] ≡ mode_of (a == 99) (b == 114) (c == 117) (d == 100)
mode_places a b c d m h =
    let p1 = place-parsed 99 a _ _ 0 m h in
    let p2 = place-parsed 114 b _ _ _ m p1.1 in
    let p3 = place-parsed 117 c _ _ _ m p2.1 in
    let p4 = place-parsed 100 d _ _ _ m p3.1 in cons p1.0 (cons p2.0 (cons p3.0 (cons p4.0 refl)))
  where
    cons : {x y : ℕ} {xs ys : Bytes} → x ≡ y → xs ≡ ys → x ∷ xs ≡ y ∷ ys
    cons e k = cc

parsed_mode :
    (c r u d : Bool) (s : Bytes) (m : ℕ)
    → s ≡ mode_of c r u d
    → parse_crud s ≡ ok m
    → crud_to_string m ≡ s
parsed_mode c r u d s m e h =
    ap crud_to_string
      (sym (ok-injective (sym (parse_crud-mode c r u d) ∙ sym (ap parse_crud e) ∙ h)))
    ∙ crud_to_string-mode c r u d
    ∙ sym e

too_long :
    (rest : Bytes) (r : Result ℕ) (m : ℕ)
    → (if not (suc (suc (suc (suc (suc (length rest))))) == 4) then err invalid_argument else r)
      ≡ ok m
    → ⊥
too_long rest r m k = ground (k, arith)

-- A string that is parsed is the text form of the mode that it is parsed as.
pub crud_to_string-parse : (s : Bytes) (m : ℕ) → parse_crud s ≡ ok m → crud_to_string m ≡ s
unfolding parse_crud
crud_to_string-parse [] m h = absurd (cc)
crud_to_string-parse (a ∷ []) m h = absurd (cc)
crud_to_string-parse (a ∷ b ∷ []) m h = absurd (cc)
crud_to_string-parse (a ∷ b ∷ c ∷ []) m h = absurd (cc)
crud_to_string-parse (a ∷ b ∷ c ∷ d ∷ []) m h =
    parsed_mode (a == 99) (b == 114) (c == 117) (d == 100) _ m (mode_places a b c d m h) h
crud_to_string-parse (a ∷ b ∷ c ∷ d ∷ e ∷ rest) m h =
    absurd (too_long rest (parse_places crud_str (a ∷ b ∷ c ∷ d ∷ e ∷ rest) 0) m h)
