-- ===== src/Connection/Limits.antt =====
-- A connection and the messages that libuv still has to write, through any sequence of calls and
-- callbacks: src/connection.cpp.
use nplex_cpp.Prelude.{
  ℕ, ◌+◌, ◌^◌, ◌≤◌, ◌<◌, ◌≡◌, refl, sym, ap, ◌∙◌, Bool, true, false, not, ◌&&◌, Bool-cases, inl,
  inr, List, [], ◌∷◌, ◌++◌, length, length-append, leb, ◌==◌, if◌then◌else◌, arith,
}
use nplex_cpp.Connection.{
  Connection, ConnectionState, is_closed, is_connected, uint32_max, new_connection, add64, sub64,
  connect, disconnect, send, cb_tcp_write, cb_tcp_connect, cb_tcp_close,
}

-- `waiting` has the lengths of the messages that uv_write took and that cb_tcp_write was not yet called for.
pub record Link : Type 0 where
  pub con : Connection
  pub waiting : List ℕ

abbrev pub total : List ℕ → ℕ
total [] = 0
total (len ∷ lens) = len + total lens

total-append : (xs : List ℕ) (len : ℕ) → total (xs ++ len ∷ []) ≡ total xs + len
total-append [] len = omega arith
total-append (x ∷ xs) len = omega (arith, total-append xs len)

-- `send` comes to the call of uv_write.
abbrev pub writes : ℕ → Connection → Bool
writes len c =
    is_connected c.state
    && (not (leb c.max_unack_msgs c.unack_msgs)
        && not (leb c.max_unack_bytes (add64 c.unack_bytes len)))

-- What may happen: the calls of the client, and the callbacks of libuv, which calls cb_tcp_write once for each
-- message that it took, in order, and cb_tcp_close when none is left. The length of a message is a uint32_t.
pub data Step (a : Link) : Link → Type 0 where
  connects : (rc : ℕ) → Step a (record { con = (connect rc a.con).1; waiting = a.waiting })
  disconnects : (rc : ℕ) → Step a (record { con = disconnect rc a.con; waiting = a.waiting })
  establishes :
      (status : ℕ)
      → is_closed a.con.state ≡ false
      → Step a (record { con = (cb_tcp_connect status a.con).1; waiting = a.waiting })
  sends :
      (len rc : ℕ)
      → len < 2 ^ 32
      → Step a (record {
        con = (send len rc a.con).1;
        waiting = (if writes len a.con && (rc == 0) then a.waiting ++ len ∷ [] else a.waiting);
      })
  delivers :
      (len status : ℕ) (rest : List ℕ)
      → a.waiting ≡ len ∷ rest
      → Step a (record { con = (cb_tcp_write len status a.con).1; waiting = rest })
  closes : a.waiting ≡ [] → Step a (record { con = cb_tcp_close a.con; waiting = [] })

pub data Reach (a : Link) : Link → Type 0 where
  here : Reach a a
  next : {b c : Link} → Reach a b → Step b c → Reach a c

-- The counters are the number and the bytes of the messages that wait, both within the limits.
pub record IsAccounted (a : Link) : Type 0 where
  pub msgs : a.con.unack_msgs ≡ length a.waiting
  pub bytes : a.con.unack_bytes ≡ total a.waiting
  pub msgs_limit : length a.waiting ≤ a.con.max_unack_msgs
  pub bytes_limit : total a.waiting ≤ a.con.max_unack_bytes
  pub max_msgs : a.con.max_unack_msgs ≤ uint32_max
  pub max_bytes : a.con.max_unack_bytes ≤ uint32_max
  pub closed : is_closed a.con.state ≡ true → a.waiting ≡ []

disconnect-IsAccounted :
    (rc : ℕ) (c : Connection) (lens : List ℕ)
    → IsAccounted (record { con = c; waiting = lens })
    → IsAccounted (record { con = disconnect rc c; waiting = lens })
unfolding disconnect
disconnect-IsAccounted rc c lens h = elim (Bool-cases (is_closed c.state)) [
  | inl e ↦ rw e h
  | inr e ↦ rw e (record {
    msgs = h.msgs;
    bytes = h.bytes;
    msgs_limit = h.msgs_limit;
    bytes_limit = h.bytes_limit;
    max_msgs = h.max_msgs;
    max_bytes = h.max_bytes;
    closed = h.closed;
  })
]

connect-IsAccounted :
    (rc : ℕ) (a : Link)
    → IsAccounted a
    → IsAccounted (record { con = (connect rc a.con).1; waiting = a.waiting })
unfolding connect
connect-IsAccounted rc a h = elim (Bool-cases (is_closed a.con.state)) [
  | inr e ↦ rw e h
  | inl e ↦
      let w = h.closed e in
      elim (Bool-cases (rc == 0)) [
        | inl r ↦
            rw (e, r, w)
              (record {
                msgs = refl;
                bytes = refl;
                msgs_limit = omega arith;
                bytes_limit = omega arith;
                max_msgs = h.max_msgs;
                max_bytes = h.max_bytes;
                closed = λ _. refl;
              })
        | inr r ↦
            rw (e, r, w)
              (record {
                msgs = refl;
                bytes = refl;
                msgs_limit = omega arith;
                bytes_limit = omega arith;
                max_msgs = h.max_msgs;
                max_bytes = h.max_bytes;
                closed = λ _. refl;
              })
      ]
]

apart : (state : ConnectionState) → is_connected state ≡ true → is_closed state ≡ true → ⊥
apart state e c = ground (arith, e, c)

send-IsAccounted :
    (len rc : ℕ) (a : Link)
    → len < 2 ^ 32
    → IsAccounted a
    → IsAccounted (record {
      con = (send len rc a.con).1;
      waiting = (if writes len a.con && (rc == 0) then a.waiting ++ len ∷ [] else a.waiting);
    })
unfolding send
send-IsAccounted len rc a l h = elim (Bool-cases (is_connected a.con.state)) [
  | inr e ↦ simp (e) h
  | inl e ↦ elim (Bool-cases (leb a.con.max_unack_msgs a.con.unack_msgs)) [
    | inl m ↦ simp (e, m) (disconnect-IsAccounted _ a.con a.waiting h)
    | inr m ↦ elim (Bool-cases (leb a.con.max_unack_bytes (add64 a.con.unack_bytes len))) [
      | inl b ↦ simp (e, m, b) (disconnect-IsAccounted _ a.con a.waiting h)
      | inr b ↦ elim (Bool-cases (rc == 0)) [
        | inr r ↦ simp (e, m, b, r) (disconnect-IsAccounted _ a.con a.waiting h)
        | inl r ↦ simp (e, m, b, r) (took m b e)
      ]
    ]
  ]
]
  where
    took :
        leb a.con.max_unack_msgs a.con.unack_msgs ≡ false
        → leb a.con.max_unack_bytes (add64 a.con.unack_bytes len) ≡ false
        → is_connected a.con.state ≡ true
        → IsAccounted (record {
          con = record a.con {
            unack_msgs = add64 a.con.unack_msgs 1;
            unack_bytes = add64 a.con.unack_bytes len;
          };
          waiting = a.waiting ++ len ∷ [];
        })
    took m b e =
        let fewer : a.con.unack_msgs < a.con.max_unack_msgs = ground (arith, m) in
        let less : add64 a.con.unack_bytes len < a.con.max_unack_bytes = ground (arith, b) in
        let sum : add64 a.con.unack_bytes len ≡ a.con.unack_bytes + len =
          omega (arith, h.bytes, h.bytes_limit, h.max_bytes, l) in
        let bytes : add64 a.con.unack_bytes len ≡ total (a.waiting ++ len ∷ []) =
          omega (arith, sum, h.bytes, total-append a.waiting len) in
        let msgs : add64 a.con.unack_msgs 1 ≡ length (a.waiting ++ len ∷ []) =
          omega (arith, h.msgs, h.msgs_limit, h.max_msgs, length-append a.waiting (len ∷ [])) in
        record {
          msgs = msgs;
          bytes = bytes;
          msgs_limit = omega (arith, length-append a.waiting (len ∷ []), fewer, h.msgs);
          bytes_limit = omega (arith, bytes, less);
          max_msgs = h.max_msgs;
          max_bytes = h.max_bytes;
          closed = λ c. absurd (apart a.con.state e c);
        }

nonempty : {len : ℕ} {rest : List ℕ} → len ∷ rest ≡ [] → ⊥
nonempty e = absurd (cc)

deliver-IsAccounted :
    (len status : ℕ) (rest : List ℕ) (a : Link)
    → a.waiting ≡ len ∷ rest
    → IsAccounted a
    → IsAccounted (record { con = (cb_tcp_write len status a.con).1; waiting = rest })
unfolding cb_tcp_write
deliver-IsAccounted len status rest a e h = elim (Bool-cases (status == 0)) [
  | inl s ↦ rw s written
  | inr s ↦ rw s (disconnect-IsAccounted status _ rest written)
]
  where
    written : IsAccounted (record {
      con = record a.con {
        unack_msgs = sub64 a.con.unack_msgs 1;
        unack_bytes = sub64 a.con.unack_bytes len;
        sent_msgs = add64 a.con.sent_msgs 1;
        sent_bytes = add64 a.con.sent_bytes len;
      };
      waiting = rest;
    })
    written =
        let n = ap length e in
        let t = ap total e in
        record {
          msgs = omega (arith, n, h.msgs, h.msgs_limit, h.max_msgs);
          bytes = omega (arith, t, h.bytes, h.bytes_limit, h.max_bytes);
          msgs_limit = omega (arith, n, h.msgs_limit);
          bytes_limit = omega (arith, t, h.bytes_limit);
          max_msgs = h.max_msgs;
          max_bytes = h.max_bytes;
          closed = λ c. absurd (nonempty (sym e ∙ h.closed c));
        }

establish-IsAccounted :
    (status : ℕ) (a : Link)
    → IsAccounted a
    → is_closed a.con.state ≡ false
    → IsAccounted (record { con = (cb_tcp_connect status a.con).1; waiting = a.waiting })
unfolding cb_tcp_connect
establish-IsAccounted status a h o = elim (Bool-cases (status == 0)) [
  | inl s ↦ rw s (record {
    msgs = h.msgs;
    bytes = h.bytes;
    msgs_limit = h.msgs_limit;
    bytes_limit = h.bytes_limit;
    max_msgs = h.max_msgs;
    max_bytes = h.max_bytes;
    closed = λ c. absurd (cc);
  })
  | inr s ↦ rw s (disconnect-IsAccounted status a.con a.waiting h)
]

Step-IsAccounted : {a b : Link} → Step a b → IsAccounted a → IsAccounted b
unfolding cb_tcp_close
Step-IsAccounted {a} (connects rc) h = connect-IsAccounted rc a h
Step-IsAccounted {a} (disconnects rc) h = disconnect-IsAccounted rc a.con a.waiting h
Step-IsAccounted {a} (establishes status o) h = establish-IsAccounted status a h o
Step-IsAccounted {a} (sends len rc l) h = send-IsAccounted len rc a l h
Step-IsAccounted {a} (delivers len status rest e) h = deliver-IsAccounted len status rest a e h
Step-IsAccounted {a} (closes e) h = record {
  msgs = h.msgs ∙ ap length e;
  bytes = h.bytes ∙ ap total e;
  msgs_limit = omega arith;
  bytes_limit = omega arith;
  max_msgs = h.max_msgs;
  max_bytes = h.max_bytes;
  closed = λ _. refl;
}

abbrev pub opened : ℕ → ℕ → Link
opened msgs bytes = record { con = new_connection msgs bytes; waiting = [] }

-- However a connection is used from its construction on, its counters are the number and the bytes of the
-- messages that libuv took and has not called back for, both within the limits of the connection, so that
-- neither counter wraps around.
pub Reach-IsAccounted :
    (msgs bytes : ℕ) {a : Link}
    → msgs ≤ uint32_max
    → bytes ≤ uint32_max
    → Reach (opened msgs bytes) a
    → IsAccounted a
Reach-IsAccounted msgs bytes m b here = record {
  msgs = refl;
  bytes = refl;
  msgs_limit = omega arith;
  bytes_limit = omega arith;
  max_msgs = ground (arith, m);
  max_bytes = ground (arith, b);
  closed = λ _. refl;
}
Reach-IsAccounted msgs bytes m b (next r s) =
    Step-IsAccounted s (Reach-IsAccounted msgs bytes m b r)
