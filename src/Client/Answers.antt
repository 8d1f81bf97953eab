-- ===== src/Client/Answers.antt =====
-- Responses and the requests that they answer: process_submit_resp of src/client_impl.cpp.
use nplex_cpp.Prelude.{
  ℕ, ◌≡◌, refl, Bool, true, ◌&&◌, List, [], ◌∷◌, ◌++◌, none, some, get_elem?, set, get_elem?-set,
  ltb, ◌==◌, arith,
}
use nplex_cpp.Result.{Result, ok}
use nplex_cpp.Schema.{SubmitCode, SubmitResponse}
use nplex_cpp.Tx.{Tx}
use nplex_cpp.Tx.Submit.{fulfil, close_submit, answer_submit, set_submit_result}
use nplex_cpp.Client.Heap.{on_tx-found}
use nplex_cpp.Client.{Client, Pending, Accepted, submit}
use nplex_cpp.Client.Receive.{
  skip_requests, accept, settle_submit, match_submit, process_submit_resp,
}

-- each request is older than the response to `cid`
unfoldable pub all_before : ℕ → List Pending → Bool
all_before cid [] = true
all_before cid (p ∷ ps) = ltb p.cid cid && all_before cid ps

before-split :
    (cid : ℕ) (p : Pending) (ps : List Pending)
    → all_before cid (p ∷ ps) ≡ true
    → (ltb p.cid cid ≡ true) × (all_before cid ps ≡ true)
unfolding all_before
before-split cid p ps h = ground arith

skip_requests-before :
    (cid : ℕ) (xs : List Pending) (p : Pending) (ps : List Pending)
    → all_before cid xs ≡ true
    → p.cid ≡ cid
    → skip_requests cid (xs ++ p ∷ ps) ≡ p ∷ ps
unfolding skip_requests
skip_requests-before cid [] p ps h e = ground arith
skip_requests-before cid (x ∷ xs) p ps h e =
    rw (before-split cid x xs h).0 (skip_requests-before cid xs p ps (before-split cid x xs h).1 e)

set_submit_result-returns :
    (code : SubmitCode) (tx : Tx)
    → tx.promise.outcome ≡ none
    → (set_submit_result code tx).0 ≡ ok tt
unfolding set_submit_result answer_submit close_submit fulfil
set_submit_result-returns code tx h = ground arith

-- The queue of accepted transactions after a response for the transaction at `i`.
abbrev pub accepted_by : SubmitCode → ℕ → ℕ → List Accepted → List Accepted
accepted_by code erev i as' = elim code [
  | SubmitCode.accepted ↦ as' ++ record { tx = i; erev = erev } ∷ []
  | _ ↦ as'
]

pub record Answers (resp : SubmitResponse) (i : ℕ) (tx : Tx) (rest : List Pending)
    (before : List Accepted) (r : Result (Unit {0}) × Client) : Type 0 where
  pub returns : r.0 ≡ ok tt
  pub answered : get_elem? r.1.heap i ≡ some (set_submit_result resp.code tx).1
  pub requests : r.1.requests ≡ rest
  pub accepted : r.1.accepted ≡ accepted_by resp.code resp.erev i before

accept-accepted :
    (code : SubmitCode) (erev i : ℕ) (c : Client)
    → accept code erev i c ≡ (ok tt, record c { accepted = accepted_by code erev i c.accepted })
unfolding accept
accept-accepted SubmitCode.accepted erev i c = refl
accept-accepted _ erev i c = refl

settle_submit-Answers :
    (resp : SubmitResponse) (i : ℕ) (force : Bool) (tx : Tx) (c : Client)
    → get_elem? c.heap i ≡ some tx
    → tx.promise.outcome ≡ none
    → Answers resp i tx c.requests c.accepted (settle_submit resp (submit i force) c)
unfolding settle_submit
settle_submit-Answers resp i force tx c h p =
    rw (on_tx-found (set_submit_result resp.code) i c h (set_submit_result-returns resp.code tx p))
      (rw
        (accept-accepted resp.code resp.erev i
          (record c { heap = set c.heap i (set_submit_result resp.code tx).1 }))
        (record {
          returns = refl;
          answered = get_elem?-set c.heap i (set_submit_result resp.code tx).1 h;
          requests = refl;
          accepted = refl;
        }))

-- A response to a submit request that waits behind older requests only, where the promise of its
-- transaction is empty: the handler returns, that transaction gets the result, the request and
-- the older ones are gone, and the transaction waits for its commit in the queue of accepted ones, at
-- the revision of the response, if and only if it was accepted.
pub process_submit_resp-Answers :
    (resp : SubmitResponse) (i : ℕ) (force : Bool) (tx : Tx) (c : Client) (older : List Pending)
    (p : Pending) (rest : List Pending)
    → c.requests ≡ older ++ p ∷ rest
    → all_before resp.cid older ≡ true
    → p.cid ≡ resp.cid
    → p.body ≡ submit i force
    → get_elem? c.heap i ≡ some tx
    → tx.promise.outcome ≡ none
    → Answers resp i tx rest c.accepted (process_submit_resp resp c)
unfolding process_submit_resp match_submit
process_submit_resp-Answers resp i force tx c older p rest q b e body h empty = rw q (
    rw (skip_requests-before resp.cid older p rest b e) (
      rw (eqb e)
        (rw body (settle_submit-Answers resp i force tx (record c { requests = rest }) h empty))))
  where
    eqb : p.cid ≡ resp.cid → (p.cid == resp.cid) ≡ true
    eqb e = ground arith
