-- ===== src/Client/Stream.antt =====
-- What a reader of a connection delivers and what it leaves: cb_tcp_read of src/connection.cpp with
-- the frames of src/messaging.cpp.
use nplex_cpp.Prelude.{
  ℕ, zero, suc, ◌+◌, ◌<◌, ◌≤◌, ◌≡◌, ◌≢◌, ◌⊎◌, inl, inr, refl, sym, ap, subst, ◌∙◌, List, [], ◌∷◌,
  ◌++◌, Option, none, some, length, drop, arith, append_assoc, drop-append, length-append,
}
use nplex_cpp.Prelude.Order.{Bytes}
use nplex_cpp.Result.{Exec, ok, ok-injective, pure, follow, follow-cong, follow_assoc, follow-elim}
use nplex_cpp.Schema.{Message}
use nplex_cpp.Messaging.Framing.{ntohl_ptr, parse_network_msg, frame}
use nplex_cpp.Messaging.Frames.{IsCrc, parse_network_msg-frame, length-frame, ntohl_ptr-frame}
use nplex_cpp.Client.{Client, World}
use nplex_cpp.Client.Receive.{on_msg_received}
use nplex_cpp.Client.Reading.{count_received, take_msg, read_loop, read_msgs}
use nplex_cpp.Client.Chunks.{
  IsIncomplete, head-cases, read_msg-incomplete, read_msg-whole, drop-shorter, read_msgs-unroll,
}

module _ (w : World) (i : ℕ) where
  -- Nothing more can be read from what is left: a part of a message, or one that is refused.
  abbrev pub IsSettled : Bytes → Type 0
  IsSettled rest = IsIncomplete rest ⊎ (parse_network_msg w.wire rest (ntohl_ptr rest) ≡ none)

  taken-IsSettled :
      (fuel : ℕ) (input : Bytes) (c : Client) (o : Option Message) {rest : Bytes}
      → parse_network_msg w.wire input (ntohl_ptr input) ≡ o
      → ((c : Client) (m : Message)
          → o ≡ some m
          → (read_loop fuel w i (drop (ntohl_ptr input) input) c).0 ≡ ok rest
          → IsSettled rest)
      → (take_msg w i (ntohl_ptr input) input (read_loop fuel w i) o c).0 ≡ ok rest
      → IsSettled rest
  unfolding take_msg
  taken-IsSettled fuel input c none p h r = subst IsSettled (ok-injective r) (inr p)
  taken-IsSettled fuel input c (some m) p h r =
      follow-elim (λ b _. IsSettled b)
        (on_msg_received w i m (count_received i (ntohl_ptr input) c)) _ r
        (λ _ _ e. h (on_msg_received w i m (count_received i (ntohl_ptr input) c)).1 m refl e)

  read_loop-IsSettled :
      (fuel : ℕ) (input : Bytes) (c : Client) {rest : Bytes}
      → length input ≤ fuel
      → (read_loop fuel w i input c).0 ≡ ok rest
      → IsSettled rest
  unfolding read_loop
  read_loop-IsSettled zero [] c h r = subst IsSettled (ok-injective r) (inl (inl (omega arith)))
  read_loop-IsSettled zero (x ∷ xs) c h r = absurd (omega arith)
  read_loop-IsSettled (suc fuel) input c h r = elim (head-cases input) [
    | inl s ↦
        subst IsSettled
          (ok-injective (rw (read_msg-incomplete w i input (read_loop fuel w i) c s) at r)) (inl s)
    | inr s ↦
        taken-IsSettled fuel input c _ refl
          (λ s' m e r'.
            read_loop-IsSettled fuel (drop (ntohl_ptr input) input) s'
              (omega (arith, drop-shorter w i input s e)) r')
          (rw (read_msg-whole w i input (read_loop fuel w i) c s) at r)
  ]

  -- The loop never stops for want of fuel: where it returns, what is left is a part of a message, or
  -- starts with one that is refused.
  pub read_msgs-IsSettled :
      (input : Bytes) (c : Client) {rest : Bytes}
      → (read_msgs w i input c).0 ≡ ok rest
      → IsSettled rest
  unfolding read_msgs
  read_msgs-IsSettled input c r = read_loop-IsSettled (length input) input c (omega arith) r

  -- A content that a frame can carry and that is a message.
  pub record IsSent (content : Bytes) (m : Message) : Type 0 where
    pub not_empty : length content ≢ 0
    pub fits : length content + 12 < 4294967296
    pub decodes : w.wire.decode content ≡ some m

  pub data AreSent : List (Bytes × Message) → Type 0 where
    none_sent : AreSent []
    also_sent :
        {content : Bytes} {m : Message} {ms : List (Bytes × Message)}
        → IsSent content m
        → AreSent ms
        → AreSent ((content, m) ∷ ms)

  abbrev pub frames : List (Bytes × Message) → Bytes
  frames [] = []
  frames ((content, m) ∷ ms) = frame w.wire content ++ frames ms

  -- The handler on one message after another, each counted with the length of its frame.
  abbrev pub deliver : List (Bytes × Message) → Exec Client (Unit {0})
  deliver [] c = pure tt c
  deliver ((content, m) ∷ ms) c =
      follow (on_msg_received w i m (count_received i (length content + 12) c)) λ _. deliver ms

  read_msgs-frame :
      (law : IsCrc w.wire) (content more : Bytes) (c : Client) {m : Message}
      → IsSent content m
      → read_msgs w i (frame w.wire content ++ more) c
        ≡ follow
            (on_msg_received w i m (count_received i (length content + 12) c))
            (λ _. read_msgs w i more)
  unfolding take_msg
  read_msgs-frame law content more c h =
      let n : ntohl_ptr (frame w.wire content ++ more) ≡ length content + 12 =
        ntohl_ptr-frame w.wire content more h.fits in
      let l : length (frame w.wire content) ≡ length content + 12 = length-frame w.wire content in
      let behind : drop (length content + 12) (frame w.wire content ++ more) ≡ more =
        rw (sym l) (drop-append (frame w.wire content) more) in
      read_msgs-unroll w i (frame w.wire content ++ more) c
      ∙ read_msg-whole w i (frame w.wire content ++ more) (read_msgs w i) c (
        omega (arith, l, length-append (frame w.wire content) more),
        omega (arith, n, l, length-append (frame w.wire content) more),
      )
      ∙ rw
          (n, parse_network_msg-frame w.wire law content more h.fits h.not_empty, h.decodes, behind)
          refl

  read_msgs-frames_next :
      (law : IsCrc w.wire) (content : Bytes) (ms : List (Bytes × Message)) (more : Bytes)
      (c : Client) {m : Message}
      → IsSent content m
      → ((s : Client)
          → read_msgs w i (frames ms ++ more) s ≡ follow (deliver ms s) (λ _. read_msgs w i more))
      → read_msgs w i (frames ((content, m) ∷ ms) ++ more) c
        ≡ follow (deliver ((content, m) ∷ ms) c) (λ _. read_msgs w i more)
  read_msgs-frames_next law content ms more c {m} h ih =
      ap (λ bs. read_msgs w i bs c) (append_assoc (frame w.wire content) (frames ms) more)
      ∙ read_msgs-frame law content (frames ms ++ more) c h
      ∙ follow-cong (on_msg_received w i m (count_received i (length content + 12) c)) _ _
          (λ _ s. ih s)
      ∙ sym (follow_assoc (on_msg_received w i m (count_received i (length content + 12) c)) _ _)

  -- A stream of frames is handed to the handlers message by message, in order and complete, and the
  -- input behind it is read next. The contents are not empty, their lengths fit the field, and the
  -- checksum continues as cppcrc documents.
  pub read_msgs-frames :
      (law : IsCrc w.wire) (ms : List (Bytes × Message)) (more : Bytes) (c : Client)
      → AreSent ms
      → read_msgs w i (frames ms ++ more) c ≡ follow (deliver ms c) (λ _. read_msgs w i more)
  read_msgs-frames law [] more c h = refl
  read_msgs-frames law ((content, m) ∷ ms) more c (also_sent h hs) =
      read_msgs-frames_next law content ms more c h (λ s. read_msgs-frames law ms more s hs)
