-- ===== src/Messaging/Accepted.antt =====
-- What parse_network_msg of src/messaging.cpp accepts: frames, and nothing else.
use nplex_cpp.Prelude.{
  ℕ, zero, suc, ◌+◌, ◌-◌, ◌<◌, ◌≤◌, ◌≡◌, refl, sym, ap, ◌∙◌, [], ◌∷◌, ◌++◌, some, length, take,
  drop, arith, take-add, take-drop-append, length-drop, length-take, drop-drop, take_all,
}
use nplex_cpp.Prelude.Order.{Bytes}
use nplex_cpp.Schema.{Message}
use nplex_cpp.Messaging.Framing.{Wire, htonl, ntohl_ptr, parse_network_msg}
use nplex_cpp.Messaging.Frames.{parse_network_msg-length}

pub data AreBytes : Bytes → Type 0 where
  no_bytes : AreBytes []
  also_byte : {b : ℕ} {bs : Bytes} → b < 256 → AreBytes bs → AreBytes (b ∷ bs)

AreBytes-drop : (n : ℕ) (bs : Bytes) → AreBytes bs → AreBytes (drop n bs)
AreBytes-drop zero bs h = h
AreBytes-drop (suc n) [] h = h
AreBytes-drop (suc n) (b ∷ bs) (also_byte l h) = AreBytes-drop n bs h

-- Four bytes are the number that they read as.
htonl-ntohl_ptr : (bs : Bytes) → AreBytes bs → 4 ≤ length bs → htonl (ntohl_ptr bs) ≡ take 4 bs
unfolding htonl ntohl_ptr
htonl-ntohl_ptr [] h l = absurd (omega arith)
htonl-ntohl_ptr (a ∷ []) h l = absurd (omega arith)
htonl-ntohl_ptr (a ∷ b ∷ []) h l = absurd (omega arith)
htonl-ntohl_ptr (a ∷ b ∷ c ∷ []) h l = absurd (omega arith)
htonl-ntohl_ptr (a ∷ b ∷ c ∷ d ∷ bs) (also_byte p (also_byte q (also_byte r (also_byte s h)))) l =
    ground arith

-- The bytes are a frame of this content: their length, four bytes of metadata, the content, and the
-- checksum of what stands before it.
pub record IsFrame (w : Wire) (bs content : Bytes) : Type 0 where
  pub metadata : Bytes
  pub of_four : length metadata ≡ 4
  pub shape :
      bs
      ≡ (htonl (length bs) ++ (metadata ++ content))
        ++ htonl (w.calc (htonl (length bs) ++ (metadata ++ content)) w.null_crc)

split : (n : ℕ) → 12 < n → n - 4 ≡ 4 + (4 + (n - 12))
split n h = omega arith

module _ (w : Wire) (bs : Bytes) {m : Message}
    (accepted : parse_network_msg w bs (length bs) ≡ some m) where
  accepted-length : ntohl_ptr bs ≡ length bs
  unfolding parse_network_msg
  accepted-length = ground arith

  accepted-checksum :
      ntohl_ptr (drop (length bs - 4) bs) ≡ w.calc (take (length bs - 4) bs) w.null_crc
  unfolding parse_network_msg
  accepted-checksum = ground arith

  accepted-content : w.decode (take (length bs - 12) (drop 8 bs)) ≡ some m
  unfolding parse_network_msg
  accepted-content = ground arith

  -- Whatever parse_network_msg accepts is a frame of exactly these bytes whose content decodes to the
  -- message, where the elements of the input are bytes.
  pub parse_network_msg-IsFrame :
      AreBytes bs → (content : Bytes) × IsFrame w bs content × (w.decode content ≡ some m)
  parse_network_msg-IsFrame h = (take (length bs - 12) (drop 8 bs), framed, accepted-content)
    where
      long : 12 < length bs
      long = parse_network_msg-length w bs (length bs) accepted

      before :
          take (length bs - 4) bs
          ≡ htonl (length bs) ++ (take 4 (drop 4 bs) ++ take (length bs - 12) (drop 8 bs))
      before =
          ap (λ n. take n bs) (split (length bs) long)
          ∙ take-add 4 (4 + (length bs - 12)) bs
          ∙ rw
              (
                take-add 4 (length bs - 12) (drop 4 bs),
                drop-drop 4 4 bs,
                sym (htonl-ntohl_ptr bs h (omega (arith, long))),
                accepted-length,
              )
              refl

      behind : drop (length bs - 4) bs ≡ htonl (w.calc (take (length bs - 4) bs) w.null_crc)
      behind =
          sym (
            take_all 4 (drop (length bs - 4) bs)
              (omega (arith, long, length-drop (length bs - 4) bs)))
          ∙ sym (
              htonl-ntohl_ptr (drop (length bs - 4) bs) (AreBytes-drop (length bs - 4) bs h)
                (omega (arith, long, length-drop (length bs - 4) bs)))
          ∙ ap htonl accepted-checksum

      framed : IsFrame w bs (take (length bs - 12) (drop 8 bs))
      framed = record {
        metadata = take 4 (drop 4 bs);
        of_four = length-take 4 (drop 4 bs) (omega (arith, long, length-drop 4 bs));
        shape = sym (take-drop-append (length bs - 4) bs) ∙ rw (behind, before) refl;
      }
