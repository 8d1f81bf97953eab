-- ===== src/Client/Trims.antt =====
-- What a handler of src/client_impl.cpp that adds no request does to the waiting requests.
use nplex_cpp.Prelude.{ℕ, ◌+◌, ◌≤◌, ◌≡◌, refl, ◌∙◌, List, [], ◌∷◌, ◌++◌, arith}
use nplex_cpp.Result.{Result, Exec, follow, follow-state}
use nplex_cpp.Client.{Client, Pending, Body}

-- The correlation ids increase, from `lo` on, and stay below `hi`.
abbrev pub Between : ℕ → ℕ → List Pending → Type 0
Between lo hi [] = lo ≤ hi
Between lo hi (p ∷ ps) = (lo ≤ p.cid) × Between (p.cid + 1) hi ps

pub Between-lower :
    (lo lo' hi : ℕ) (ps : List Pending) → lo' ≤ lo → Between lo hi ps → Between lo' hi ps
Between-lower lo lo' hi [] h b = omega arith
Between-lower lo lo' hi (p ∷ ps) h b = (omega (arith, b.0), b.1)

pub Between-tail :
    (lo hi : ℕ) (p : Pending) (ps : List Pending) → Between lo hi (p ∷ ps) → Between lo hi ps
Between-tail lo hi p ps b = Between-lower (p.cid + 1) lo hi ps (omega (arith, b.0)) b.1

pub Between-le : (lo hi : ℕ) (ps : List Pending) → Between lo hi ps → lo ≤ hi
Between-le lo hi [] b = b
Between-le lo hi (p ∷ ps) b = omega (arith, b.0, Between-le (p.cid + 1) hi ps b.1)

pub Between-upper :
    (lo hi hi' : ℕ) (ps : List Pending) → hi ≤ hi' → Between lo hi ps → Between lo hi' ps
Between-upper lo hi hi' [] h b = omega arith
Between-upper lo hi hi' (p ∷ ps) h b = (b.0, Between-upper (p.cid + 1) hi hi' ps h b.1)

pub Between-append :
    (lo hi : ℕ) (ps : List Pending) (body : Body)
    → Between lo hi ps
    → Between lo (hi + 1) (ps ++ record { cid = hi; body = body } ∷ [])
Between-append lo hi [] body b = (b, omega arith)
Between-append lo hi (p ∷ ps) body b = (b.0, Between-append (p.cid + 1) hi ps body b.1)

-- No new request, and the counter of correlation ids as it was.
pub record Trims (c t : Client) : Type 0 where
  pub correlation : t.correlation ≡ c.correlation
  pub requests : (lo hi : ℕ) → Between lo hi c.requests → Between lo hi t.requests

pub Trims-same :
    (c t : Client) → t.correlation ≡ c.correlation → t.requests ≡ c.requests → Trims c t
Trims-same c t e r = record { correlation = e; requests = λ lo hi b. rw r b }

pub Trims-refl : (c : Client) → Trims c c
Trims-refl c = Trims-same c c refl refl

pub Trims-trans : {a b c : Client} → Trims a b → Trims b c → Trims a c
Trims-trans f g = record {
  correlation = g.correlation ∙ f.correlation;
  requests = λ lo hi b. g.requests lo hi (f.requests lo hi b);
}

-- The requests are a part of what they were.
pub Trims-none : (c t : Client) → t.correlation ≡ c.correlation → t.requests ≡ [] → Trims c t
Trims-none c t e r = record {
  correlation = e;
  requests = λ lo hi b. rw r (Between-le lo hi c.requests b);
}

pub Trims-tail :
    (c t : Client) (p : Pending) {ps : List Pending}
    → c.requests ≡ p ∷ ps
    → t.correlation ≡ c.correlation
    → t.requests ≡ ps
    → Trims c t
Trims-tail c t p {ps} q e r = record {
  correlation = e;
  requests = λ lo hi b. rw r (Between-tail lo hi p ps (rw q at b));
}

-- What a call leaves.
abbrev pub TrimsBy : {A : Type 0} → Client → Result A × Client → Type 0
TrimsBy c r = Trims c r.1

-- Two calls, one after the other.
pub Trims-follow :
    {A B : Type 0} (c : Client) (r : Result A × Client) (f : A → Exec Client B)
    → Trims c r.1
    → ((a : A) → Trims r.1 (f a r.1).1)
    → Trims c (follow r f).1
Trims-follow c r f h g = follow-state (Trims c) r f h (λ a. Trims-trans h (g a))
