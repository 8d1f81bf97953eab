-- ===== src/Messaging/Frames.antt =====
-- The frames of messages and the parser that opens them: src/messaging.cpp.
use nplex_cpp.Prelude.{
  ℕ, ◌+◌, ◌-◌, ◌<◌, ◌≤◌, ◌≡◌, ◌≢◌, ◌∙◌, sym, refl, [], ◌∷◌, ◌++◌, length, take, drop, arith,
  append_assoc, Bool-cases, inl, inr, some, leb, take-append_le, drop-append_le, length-drop,
  length-append, take-append, drop-append,
}
use nplex_cpp.Prelude.Order.{Bytes}
use nplex_cpp.Schema.{Message}
use nplex_cpp.Messaging.Framing.{
  Wire, htonl, ntohl_ptr, frame_length, frame_checksum, frame, parse_network_msg,
}

-- What cppcrc documents: `calc` continues an existing calculation, and a checksum is a uint32_t.
pub record IsCrc (w : Wire) : Type 0 where
  pub continues : (xs ys : Bytes) (p : ℕ) → w.calc (xs ++ ys) p ≡ w.calc ys (w.calc xs p)
  pub bounded : (xs : Bytes) (p : ℕ) → w.calc xs p < 4294967296

pub ntohl_ptr-htonl : (n : ℕ) (rest : Bytes) → n < 4294967296 → ntohl_ptr (htonl n ++ rest) ≡ n
unfolding ntohl_ptr htonl
ntohl_ptr-htonl n rest h = omega arith

pub length-htonl : (n : ℕ) → length (htonl n) ≡ 4
unfolding htonl
length-htonl n = refl

-- the bytes that the checksum is of
summed : Bytes → Bytes
unfolding frame_length htonl
summed content = htonl (frame_length content) ++ (htonl 0 ++ content)

frame-summed :
    (w : Wire) (content rest : Bytes)
    → frame w content ++ rest ≡ summed content ++ (htonl (frame_checksum w content) ++ rest)
unfolding frame summed
frame-summed w content rest = simp (append_assoc) (refl)

length-summed : (content : Bytes) → length (summed content) ≡ length content + 8
unfolding summed htonl
length-summed content = omega arith

pub length-frame : (w : Wire) (content : Bytes) → length (frame w content) ≡ length content + 12
unfolding frame htonl
length-frame w content = omega (arith, length-append content (htonl (frame_checksum w content)))

-- the content between the fields, in any list that starts as a frame does
take-drop-summed :
    (content tail : Bytes) → take (length content) (drop 8 (summed content ++ tail)) ≡ content
unfolding summed htonl
take-drop-summed content tail = take-append content tail

frame_checksum-calc :
    (w : Wire)
    → IsCrc w
    → (content : Bytes) → w.calc (summed content) w.null_crc ≡ frame_checksum w content
unfolding frame_checksum summed
frame_checksum-calc w law content = simp (law.continues) (refl)

-- a frame that passes the three tests
pub parse_network_msg-passes :
    (w : Wire) (ptr : Bytes) (len : ℕ)
    → 12 < len
    → ntohl_ptr ptr ≡ len
    → ntohl_ptr (drop (len - 4) ptr) ≡ w.calc (take (len - 4) ptr) w.null_crc
    → parse_network_msg w ptr len ≡ w.decode (take (len - 12) (drop 8 ptr))
unfolding parse_network_msg
parse_network_msg-passes w ptr len a b c = ground arith

module _ (content rest : Bytes) (h : length content + 12 < 4294967296) where
  frame_length-small : frame_length content ≡ length content + 12
  unfolding frame_length
  frame_length-small = omega arith

  starts : ntohl_ptr (summed content ++ rest) ≡ length content + 12
  unfolding summed
  starts = simp (append_assoc) (
      ntohl_ptr-htonl (frame_length content) (htonl 0 ++ (content ++ rest))
        (omega (arith, frame_length-small))
      ∙ frame_length-small)

pub ntohl_ptr-frame :
    (w : Wire) (content rest : Bytes)
    → length content + 12 < 4294967296
    → ntohl_ptr (frame w content ++ rest) ≡ length content + 12
ntohl_ptr-frame w content rest h =
    rw (frame-summed w content rest) (starts content (htonl (frame_checksum w content) ++ rest) h)

opens :
    (w : Wire) (law : IsCrc w) (content tail : Bytes)
    → length content + 12 < 4294967296
    → length content ≢ 0
    → ntohl_ptr tail ≡ frame_checksum w content
    → parse_network_msg w (summed content ++ tail) (length content + 12) ≡ w.decode content
opens w law content tail h n e =
    let at_end : length content + 12 - 4 ≡ length (summed content) =
      omega (arith, length-summed content) in
    let inner : length content + 12 - 12 ≡ length content = omega arith in
    parse_network_msg-passes w (summed content ++ tail) (length content + 12) (omega arith)
      (starts content tail h)
      (rw (at_end, drop-append (summed content) tail, take-append (summed content) tail)
        (e ∙ sym (frame_checksum-calc w law content)))
    ∙ rw (inner, take-drop-summed content tail) refl

-- What a frame is opened to, at the head of any input: its content, decoded. The content is not empty
-- and the length of the frame fits its field.
pub parse_network_msg-frame :
    (w : Wire) (law : IsCrc w) (content rest : Bytes)
    → length content + 12 < 4294967296
    → length content ≢ 0
    → parse_network_msg w (frame w content ++ rest) (length content + 12) ≡ w.decode content
parse_network_msg-frame w law content rest h n = rw (frame-summed w content rest) (
    opens w law content (htonl (frame_checksum w content) ++ rest) h n (
      ntohl_ptr-htonl (frame_checksum w content) rest
        (rw (sym (frame_checksum-calc w law content)) (law.bounded (summed content) w.null_crc))))

pub ntohl_ptr-append : (xs ys : Bytes) → 4 ≤ length xs → ntohl_ptr (xs ++ ys) ≡ ntohl_ptr xs
unfolding ntohl_ptr
ntohl_ptr-append [] ys h = absurd (omega arith)
ntohl_ptr-append (a ∷ []) ys h = absurd (omega arith)
ntohl_ptr-append (a ∷ b ∷ []) ys h = absurd (omega arith)
ntohl_ptr-append (a ∷ b ∷ c ∷ []) ys h = absurd (omega arith)
ntohl_ptr-append (a ∷ b ∷ c ∷ d ∷ xs) ys h = refl

-- what is accepted is longer than its fields
pub parse_network_msg-length :
    (w : Wire) (ptr : Bytes) (len : ℕ) {m : Message}
    → parse_network_msg w ptr len ≡ some m
    → 12 < len
unfolding parse_network_msg
parse_network_msg-length w ptr len h = ground arith

content-append :
    (xs ys : Bytes) (len : ℕ)
    → len ≤ length xs
    → 12 < len
    → take (len - 12) (drop 8 (xs ++ ys)) ≡ take (len - 12) (drop 8 xs)
content-append xs ys len h l =
    rw (drop-append_le 8 xs ys (omega arith))
      (take-append_le (len - 12) (drop 8 xs) ys (omega (arith, length-drop 8 xs)))

-- Only the first `len` bytes are read.
pub parse_network_msg-append :
    (w : Wire) (xs ys : Bytes) (len : ℕ)
    → len ≤ length xs
    → parse_network_msg w (xs ++ ys) len ≡ parse_network_msg w xs len
unfolding parse_network_msg
parse_network_msg-append w xs ys len h = elim (Bool-cases (leb len 12)) [
  | inl e ↦ rw e refl
  | inr e ↦
      let l : 12 < len = ground arith in
      rw
        (
          e,
          ntohl_ptr-append xs ys (omega arith),
          drop-append_le (len - 4) xs ys (omega arith),
          ntohl_ptr-append (drop (len - 4) xs) ys (omega (arith, length-drop (len - 4) xs)),
          take-append_le (len - 4) xs ys (omega arith),
          content-append xs ys len h l,
        )
        refl
]
