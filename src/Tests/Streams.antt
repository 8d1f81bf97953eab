-- ===== src/Tests/Streams.antt =====
-- The theorems on frames and on their stream, at a keep-alive message of one byte.
use nplex_cpp.Prelude.{
  ℕ, ◌+◌, ◌%◌, ◌<◌, ◌≡◌, refl, ap, ◌∙◌, List, [], ◌∷◌, ◌++◌, some, arith, length,
}
use nplex_cpp.Prelude.Order.{Bytes}
use nplex_cpp.Result.{ok, follow}
use nplex_cpp.Schema.{Message, keepalive_push}
use nplex_cpp.Messaging.Framing.{frame, ntohl_ptr, parse_network_msg}
use nplex_cpp.Messaging.Frames.{IsCrc, parse_network_msg-frame}
use nplex_cpp.Messaging.Accepted.{AreBytes, no_bytes, also_byte, IsFrame, parse_network_msg-IsFrame}
use nplex_cpp.Client.Receive.{on_msg_received}
use nplex_cpp.Client.Reading.{Input, read_msgs, cb_tcp_read}
use nplex_cpp.Client.Chunks.{cb_tcp_read-append}
use nplex_cpp.Client.Stream.{
  IsSettled, IsSent, none_sent, also_sent, frames, deliver, read_msgs-IsSettled, read_msgs-frames,
}
use nplex_cpp.Tests.Data.{wire, sum, world, client}

sum_bounded : (xs : Bytes) (p : ℕ) → p < 4294967296 → sum xs p < 4294967296
sum_bounded [] p h = h
sum_bounded (x ∷ xs) p h = sum_bounded xs ((p + x) % 4294967296) (omega arith)

sum-append : (xs ys : Bytes) (p : ℕ) → sum (xs ++ ys) p ≡ sum ys (sum xs p)
sum-append [] ys p = refl
sum-append (x ∷ xs) ys p = sum-append xs ys ((p + x) % 4294967296)

wrapped : (n : ℕ) → n < 4294967296 → n ≡ n % 4294967296
wrapped n h = omega arith

wire-IsCrc : IsCrc wire
wire-IsCrc = record {
  continues = λ xs ys p.
      sum-append xs ys (p % 4294967296)
      ∙ ap (sum ys)
          (wrapped (sum xs (p % 4294967296)) (sum_bounded xs (p % 4294967296) (omega arith)));
  bounded = λ xs p. sum_bounded xs (p % 4294967296) (omega arith);
}

abbrev content : Bytes
content = 7 ∷ []

abbrev framed : Bytes
framed = 0 ∷ 0 ∷ 0 ∷ 13 ∷ 0 ∷ 0 ∷ 0 ∷ 0 ∷ 7 ∷ 0 ∷ 0 ∷ 0 ∷ 20 ∷ []

frame_content : frame wire content ≡ framed
unfolding frame
frame_content = refl

parse_network_msg-frame_example :
    parse_network_msg wire (frame wire content ++ 1 ∷ 2 ∷ []) (length content + 12)
    ≡ wire.decode content
parse_network_msg-frame_example =
    parse_network_msg-frame wire wire-IsCrc content (1 ∷ 2 ∷ []) (omega arith) (omega arith)

parsed : parse_network_msg wire framed (length framed) ≡ some keepalive_push
unfolding parse_network_msg
parsed = refl

bytes : AreBytes framed
bytes = search (also_byte, no_bytes, arith)

parse_network_msg-IsFrame_example :
    (c : Bytes) × IsFrame wire framed c × (wire.decode c ≡ some keepalive_push)
parse_network_msg-IsFrame_example = parse_network_msg-IsFrame wire framed parsed bytes

-- The message arrives in two pieces, cut within its length.
cb_tcp_read-append_example :
    cb_tcp_read world 0 (Input.bytes framed) [] client
    ≡ follow (cb_tcp_read world 0 (Input.bytes (0 ∷ 0 ∷ [])) [] client) (λ rest.
      cb_tcp_read world 0 (Input.bytes (0 ∷ 13 ∷ 0 ∷ 0 ∷ 0 ∷ 0 ∷ 7 ∷ 0 ∷ 0 ∷ 0 ∷ 20 ∷ [])) rest)
cb_tcp_read-append_example =
    cb_tcp_read-append world 0 [] 0 0 (0 ∷ []) (13 ∷ 0 ∷ 0 ∷ 0 ∷ 0 ∷ 7 ∷ 0 ∷ 0 ∷ 0 ∷ 20 ∷ []) client

left : (read_msgs world 0 (framed ++ 0 ∷ 0 ∷ []) client).0 ≡ ok (0 ∷ 0 ∷ [])
unfolding read_msgs ntohl_ptr parse_network_msg on_msg_received
left = refl

read_msgs-IsSettled_example : IsSettled world 0 (0 ∷ 0 ∷ [])
read_msgs-IsSettled_example = read_msgs-IsSettled world 0 (framed ++ 0 ∷ 0 ∷ []) client left

abbrev twice : List (Bytes × Message)
twice = (content, keepalive_push) ∷ (content, keepalive_push) ∷ []

sent : IsSent world 0 content keepalive_push
sent = record { not_empty = omega arith; fits = omega arith; decodes = refl }

read_msgs-frames_example :
    read_msgs world 0 (frames world 0 twice ++ 0 ∷ []) client
    ≡ follow (deliver world 0 twice client) (λ _. read_msgs world 0 (0 ∷ []))
read_msgs-frames_example =
    read_msgs-frames world 0 wire-IsCrc twice (0 ∷ []) client
      (also_sent sent (also_sent sent none_sent))
