-- ===== src/Messaging/Framing.antt =====
-- src/messaging.cpp and messaging.hpp: output_msg_t, the frame round a message, and
-- parse_network_msg, which checks and opens one.
use nplex_cpp.Prelude.{
  ℕ, ◌+◌, ◌-◌, ◌*◌, ◌/◌, ◌%◌, ◌^◌, not, [], ◌∷◌, ◌++◌, Option, none, length, take, drop, leb, ◌==◌,
  if◌then◌else◌,
}
use nplex_cpp.Prelude.Order.{Bytes}
use nplex_cpp.Schema.{Request, Message}

-- The checksum of cppcrc, which goes on from the checksum of the bytes before, and the two sides of the
-- flatbuffers library: the bytes of a built message, and the message that verified bytes hold.
pub record Wire : Type 0 where
  pub calc : Bytes → ℕ → ℕ
  pub null_crc : ℕ
  pub encode : Request → Bytes
  pub decode : Bytes → Option Message

-- htonl, as the four bytes in memory
unfoldable pub htonl : ℕ → Bytes
htonl n = (n / 16777216 % 256) ∷ (n / 65536 % 256) ∷ (n / 256 % 256) ∷ (n % 256) ∷ []

-- Fewer than four bytes would be a read out of bounds.
unfoldable pub ntohl_ptr : Bytes → ℕ
ntohl_ptr (a ∷ b ∷ c ∷ d ∷ rest) = a * 16777216 + b * 65536 + c * 256 + d
ntohl_ptr _ = 0

-- output_msg_t::length() before htonl: a uint32_t
unfoldable pub frame_length : Bytes → ℕ
frame_length content = (length content + 12) % 2 ^ 32

unfoldable pub frame_checksum : Wire → Bytes → ℕ
unfolding htonl frame_length
frame_checksum w content =
    w.calc content (w.calc (htonl 0) (w.calc (htonl (frame_length content)) w.null_crc))

-- The four buffers of an output_msg_t, in the order in which they are written.
unfoldable pub frame : Wire → Bytes → Bytes
unfolding htonl frame_length frame_checksum
frame w content =
    htonl (frame_length content) ++ (htonl 0 ++ (content ++ htonl (frame_checksum w content)))

unfoldable pub parse_network_msg : Wire → Bytes → ℕ → Option Message
unfolding ntohl_ptr
parse_network_msg w ptr len =
    if leb len 12
    then none
    else if not (len == ntohl_ptr ptr)
    then none
    else if not (ntohl_ptr (drop (len - 4) ptr) == w.calc (take (len - 4) ptr) w.null_crc)
    then none
    else w.decode (take (len - 12) (drop 8 ptr))
