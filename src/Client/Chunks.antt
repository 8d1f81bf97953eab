-- ===== src/Client/Chunks.antt =====
-- How the input of a connection is cut into messages, however it arrives: cb_tcp_read of
-- src/connection.cpp.
use nplex_cpp.Prelude.{
  ℕ, zero, suc, ◌<◌, ◌≤◌, ◌≡◌, ◌≢◌, ◌⊎◌, inl, inr, refl, sym, ap, ◌∙◌, [], ◌∷◌, ◌++◌, Option, none,
  some, length, drop, arith, length-drop, length-append, drop-append_le, append_assoc,
}
use nplex_cpp.Prelude.Order.{Bytes}
use nplex_cpp.Result.{Exec, pure, follow, follow-cong, follow_assoc}
use nplex_cpp.Schema.{Message}
use nplex_cpp.Messaging.Framing.{ntohl_ptr, parse_network_msg}
use nplex_cpp.Messaging.Frames.{
  ntohl_ptr-append, parse_network_msg-append, parse_network_msg-length,
}
use nplex_cpp.Connection.{Connection, err_msg_error}
use nplex_cpp.Connection
use nplex_cpp.Client.{Client, World}
use nplex_cpp.Client.Core.{disconnect}
use nplex_cpp.Client.Heap.{on_connection-again}
use nplex_cpp.Client.Receive.{on_msg_received}
use nplex_cpp.Client.Reading.{
  count_received, take_msg, read_msg, read_loop, read_msgs, cb_tcp_read, Input,
}

-- The input does not hold a whole message yet.
abbrev pub IsIncomplete : Bytes → Type 0
IsIncomplete input = (length input < 4) ⊎ (length input < ntohl_ptr input)

abbrev pub IsWhole : Bytes → Type 0
IsWhole input = (4 ≤ length input) × (ntohl_ptr input ≤ length input)

pub head-cases : (input : Bytes) → IsIncomplete input ⊎ IsWhole input
head-cases input = ground arith

disconnect_again :
    (rc : ℕ)
    → rc ≢ 0
    → (con : Connection)
    → Connection.disconnect rc (Connection.disconnect rc con) ≡ Connection.disconnect rc con
unfolding Connection.disconnect
disconnect_again rc n con = ground arith

module _ (w : World) (i : ℕ) where
  pub read_msg-incomplete :
      (input : Bytes) (next : Bytes → Exec Client Bytes) (c : Client)
      → IsIncomplete input
      → read_msg w i input next c ≡ pure input c
  unfolding read_msg
  read_msg-incomplete input next c h = ground arith

  pub read_msg-whole :
      (input : Bytes) (next : Bytes → Exec Client Bytes) (c : Client)
      → IsWhole input
      → read_msg w i input next c
        ≡ take_msg w i
            (ntohl_ptr input)
            input
            next
            (parse_network_msg w.wire input (ntohl_ptr input))
            c
  unfolding read_msg
  read_msg-whole input next c h = ground arith

  pub drop-shorter :
      (input : Bytes) {m : Message}
      → IsWhole input
      → parse_network_msg w.wire input (ntohl_ptr input) ≡ some m
      → length (drop (ntohl_ptr input) input) < length input
  drop-shorter input h p = omega (
    arith,
    h.1,
    length-drop (ntohl_ptr input) input,
    parse_network_msg-length w.wire input (ntohl_ptr input) p,
  )

  -- A round calls the rest of the loop on a shorter input only.
  take_msg-next :
      (input : Bytes) (f g : Bytes → Exec Client Bytes) (c : Client) (o : Option Message)
      → IsWhole input
      → parse_network_msg w.wire input (ntohl_ptr input) ≡ o
      → ((rest : Bytes) (c : Client) → length rest < length input → f rest c ≡ g rest c)
      → take_msg w i (ntohl_ptr input) input f o c ≡ take_msg w i (ntohl_ptr input) input g o c
  unfolding take_msg
  take_msg-next input f g c none h p n = refl
  take_msg-next input f g c (some m) h p n =
      follow-cong (on_msg_received w i m (count_received i (ntohl_ptr input) c)) _ _
        (λ _ s. n (drop (ntohl_ptr input) input) s (drop-shorter input h p))

  read_msg-next :
      (input : Bytes) (f g : Bytes → Exec Client Bytes) (c : Client)
      → ((rest : Bytes) (c : Client) → length rest < length input → f rest c ≡ g rest c)
      → read_msg w i input f c ≡ read_msg w i input g c
  read_msg-next input f g c n = elim (head-cases input) [
    | inl h ↦ read_msg-incomplete input f c h ∙ sym (read_msg-incomplete input g c h)
    | inr h ↦
        read_msg-whole input f c h
        ∙ take_msg-next input f g c _ h refl n
        ∙ sym (read_msg-whole input g c h)
  ]

  read_msg-empty :
      (next : Bytes → Exec Client Bytes) (c : Client) → read_msg w i [] next c ≡ pure [] c
  read_msg-empty next c = read_msg-incomplete [] next c (inl (omega arith))

  read_loop-enough :
      (f g : ℕ) (input : Bytes) (c : Client)
      → length input ≤ f
      → length input ≤ g
      → read_loop f w i input c ≡ read_loop g w i input c
  unfolding read_loop
  read_loop-enough zero zero input c a b = refl
  read_loop-enough zero (suc g) [] c a b = sym (read_msg-empty (read_loop g w i) c)
  read_loop-enough zero (suc g) (x ∷ xs) c a b = absurd (omega arith)
  read_loop-enough (suc f) zero [] c a b = read_msg-empty (read_loop f w i) c
  read_loop-enough (suc f) zero (x ∷ xs) c a b = absurd (omega arith)
  read_loop-enough (suc f) (suc g) input c a b =
      read_msg-next input (read_loop f w i) (read_loop g w i) c
        (λ rest s l. read_loop-enough f g rest s (omega arith) (omega arith))

  -- The loop without its fuel.
  pub read_msgs-unroll :
      (input : Bytes) (c : Client) → read_msgs w i input c ≡ read_msg w i input (read_msgs w i) c
  unfolding read_msgs
  read_msgs-unroll input c =
      read_loop-enough (length input) (suc (length input)) input c (omega arith) (omega arith)
      ∙ unfold read_loop in
        read_msg-next input (read_loop (length input) w i)
          (λ rest. read_loop (length rest) w i rest) c
          (λ rest s l.
            read_loop-enough (length input) (length rest) rest s (omega arith) (omega arith))

  -- A second disconnection changes nothing.
  disconnect-disconnect :
      (rc : ℕ) (c : Client) → rc ≢ 0 → disconnect i rc (disconnect i rc c) ≡ disconnect i rc c
  disconnect-disconnect rc c n =
      on_connection-again i (Connection.disconnect rc) c (disconnect_again rc n)

  IsWhole-append : (input more : Bytes) → IsWhole input → IsWhole (input ++ more)
  IsWhole-append input more h = (
    omega (arith, h.0, length-append input more),
    rw (ntohl_ptr-append input more h.0) (omega (arith, h.1, length-append input more)),
  )

  -- A whole message is taken off the same way where more input follows.
  pub read_msgs-whole :
      (input more : Bytes) (c : Client)
      → IsWhole input
      → read_msgs w i (input ++ more) c
        ≡ take_msg w i
            (ntohl_ptr input)
            (input ++ more)
            (read_msgs w i)
            (parse_network_msg w.wire input (ntohl_ptr input))
            c
  read_msgs-whole input more c h =
      read_msgs-unroll (input ++ more) c
      ∙ read_msg-whole (input ++ more) (read_msgs w i) c (IsWhole-append input more h)
      ∙ rw
          (
            ntohl_ptr-append input more h.0,
            parse_network_msg-append w.wire input more (ntohl_ptr input) h.1,
          )
          refl

  refused-append :
      (input more : Bytes) (c : Client)
      → IsWhole input
      → parse_network_msg w.wire input (ntohl_ptr input) ≡ none
      → read_msgs w i (input ++ more) c ≡ pure (input ++ more) (disconnect i err_msg_error c)
  unfolding take_msg
  refused-append input more c h p = read_msgs-whole input more c h ∙ rw p refl

  taken-append :
      (fuel : ℕ) (input more : Bytes) (c : Client) (o : Option Message)
      → IsWhole input
      → parse_network_msg w.wire input (ntohl_ptr input) ≡ o
      → length input ≤ suc fuel
      → ((c : Client)
          → length (drop (ntohl_ptr input) input) ≤ fuel
          → read_msgs w i (drop (ntohl_ptr input) input ++ more) c
            ≡ follow
                (read_loop fuel w i (drop (ntohl_ptr input) input) c)
                (λ rest. read_msgs w i (rest ++ more)))
      → take_msg w i (ntohl_ptr input) (input ++ more) (read_msgs w i) o c
        ≡ follow
            (take_msg w i (ntohl_ptr input) input (read_loop fuel w i) o c)
            (λ rest. read_msgs w i (rest ++ more))
  unfolding take_msg
  taken-append fuel input more c none h p l ih = sym (
      refused-append input more (disconnect i err_msg_error c) h p
      ∙ ap (pure (input ++ more)) (disconnect-disconnect err_msg_error c (omega arith)))
  taken-append fuel input more c (some m) h p l ih =
      follow-cong (on_msg_received w i m (count_received i (ntohl_ptr input) c)) _ _ (λ _ s.
        rw (drop-append_le (ntohl_ptr input) input more h.1)
          (ih s (omega (arith, drop-shorter input h p))))
      ∙ sym (follow_assoc (on_msg_received w i m (count_received i (ntohl_ptr input) c)) _ _)

  read_loop-append :
      (fuel : ℕ) (input more : Bytes) (c : Client)
      → length input ≤ fuel
      → read_msgs w i (input ++ more) c
        ≡ follow (read_loop fuel w i input c) (λ rest. read_msgs w i (rest ++ more))
  unfolding read_loop
  read_loop-append zero [] more c h = refl
  read_loop-append zero (x ∷ xs) more c h = absurd (omega arith)
  read_loop-append (suc fuel) input more c h = elim (head-cases input) [
    | inl s ↦ rw (read_msg-incomplete input (read_loop fuel w i) c s) refl
    | inr s ↦ rw (read_msg-whole input (read_loop fuel w i) c s) (
        read_msgs-whole input more c s
        ∙ taken-append fuel input more c _ s refl h
            (λ s' l. read_loop-append fuel (drop (ntohl_ptr input) input) more s' l))
  ]

  -- Input that arrives in two pieces, wherever it is cut, is read like the whole: the same messages are
  -- handled in the same order, with the same errors, and the same rest is kept for the next piece.
  pub cb_tcp_read-append :
      (input : Bytes) (x y : ℕ) (xs ys : Bytes) (c : Client)
      → cb_tcp_read w i (Input.bytes ((x ∷ xs) ++ (y ∷ ys))) input c
        ≡ follow
            (cb_tcp_read w i (Input.bytes (x ∷ xs)) input c)
            (λ rest. cb_tcp_read w i (Input.bytes (y ∷ ys)) rest)
  unfolding cb_tcp_read
  cb_tcp_read-append input x y xs ys c =
      ap (λ bs. read_msgs w i bs c) (sym (append_assoc input (x ∷ xs) (y ∷ ys)))
      ∙ unfold read_msgs in
        read_loop-append (length (input ++ x ∷ xs)) (input ++ x ∷ xs) (y ∷ ys) c (omega arith)
