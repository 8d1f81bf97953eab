-- ===== src/Client/Heap.antt =====
-- A transaction of the heap under a call of its method, or of another one: `on_tx`; and connections under
-- a change twice.
use nplex_cpp.Prelude.{
  ℕ, ◌≡◌, refl, ap, ◌∙◌, Option, none, Option-cases, inl, inr, some, get_elem?, set,
  get_elem?-set_same, get_elem?-set, set-set,
}
use nplex_cpp.Result.{Exec, ok}
use nplex_cpp.Tx.{Tx}
use nplex_cpp.Client.{Client}
use nplex_cpp.Client.Core.{on_tx, on_tx_found, on_connection}
use nplex_cpp.Connection.{Connection}

pub on_tx-same :
    (f : Exec Tx (Unit {0})) (j i : ℕ) (c : Client) {tx : Tx}
    → get_elem? c.heap i ≡ some tx
    → (f tx).1 ≡ tx
    → get_elem? (on_tx j f c).1.heap i ≡ some tx
unfolding on_tx on_tx_found
on_tx-same f j i c {tx = tx} h k = elim (Option-cases (get_elem? c.heap j)) [
  | inl e ↦ rw e h
  | inr (y, e) ↦ rw e (get_elem?-set_same c.heap j i (f y).1 e h (λ q. rw q k))
]

pub on_tx-found :
    (f : Exec Tx (Unit {0})) (i : ℕ) (c : Client) {tx : Tx}
    → get_elem? c.heap i ≡ some tx
    → (f tx).0 ≡ ok tt
    → on_tx i f c ≡ (ok tt, record c { heap = set c.heap i (f tx).1 })
unfolding on_tx on_tx_found
on_tx-found f i c h k = rw h (rw k refl)

changed : ℕ → (Connection → Connection) → Client → Option Connection → Client
changed i f c none = c
changed i f c (some con) = record c { connections = set c.connections i (f con) }

on_connection-changed :
    (i : ℕ) (f : Connection → Connection) (c : Client)
    → on_connection i f c ≡ changed i f c (get_elem? c.connections i)
unfolding on_connection changed
on_connection-changed i f c =
    elim (get_elem? c.connections i)
      as (λ o.
        (elim o [ none ↦ c | some con ↦ record c { connections = set c.connections i (f con) } ])
        ≡ changed i f c o) [ none ↦ refl | some con ↦ refl ]

changed-again :
    (i : ℕ) (f : Connection → Connection) (c : Client) (o : Option Connection)
    → ((con : Connection) → f (f con) ≡ f con)
    → get_elem? c.connections i ≡ o
    → on_connection i f (changed i f c o) ≡ changed i f c o
unfolding changed
changed-again i f c none h e = on_connection-changed i f c ∙ ap (changed i f c) e
changed-again i f c (some con) h e =
    on_connection-changed i f (changed i f c (some con))
    ∙ ap (changed i f (changed i f c (some con))) (get_elem?-set c.connections i (f con) e)
    ∙ simp (set-set, h con) refl

-- A change of a connection that is done already changes nothing.
pub on_connection-again :
    (i : ℕ) (f : Connection → Connection) (c : Client)
    → ((con : Connection) → f (f con) ≡ f con)
    → on_connection i f (on_connection i f c) ≡ on_connection i f c
on_connection-again i f c h =
    simp (on_connection-changed i f c) (changed-again i f c (get_elem? c.connections i) h refl)
