-- ===== src/Result.antt =====
-- Exceptions, and methods that may throw. What was written before a throw stays written, so the
-- state comes back beside the error too.
use nplex_cpp.Prelude.{◌≡◌, refl, ap}

-- What is thrown, by the test that throws it (include/nplex-cpp/exception.hpp, std::logic_error,
-- std::invalid_argument, std::future_error).
pub data Error : Type 0 where
  invalid_key : Error
  invalid_argument : Error
  not_open : Error
  read_only : Error
  not_authorized : Error
  old_update : Error
  malformed_update : Error
  bad_snapshot : Error
  no_client : Error
  queue_overflow : Error
  promise_already_satisfied : Error
  future_already_retrieved : Error
  not_established : Error
  already_open : Error
  connect_failed : Error
  client_closed : Error
  client_running : Error
  not_connected : Error
  too_many_txs : Error
  no_permission : Error
  no_user : Error

pub data Result {ℓ} (A : Type ℓ) : Type ℓ where
  ok : A → Result A
  err : Error → Result A

abbrev pub Exec : Type 0 → Type 0 → Type 0
Exec S A = S → Result A × S

module _ {S A B : Type 0} where
  -- goes on with the value of the first call, or leaves by its exception
  abbrev pub follow : Result A × S → (A → Exec S B) → Result B × S
  follow (ok a, s) f = f a s
  follow (err e, s) f = (err e, s)

abbrev pub pure : {S A : Type 0} → A → Exec S A
pure a s = (ok a, s)

abbrev pub throw : {S A : Type 0} → Error → Exec S A
throw e s = (err e, s)

-- A chain that returned: what holds of the rest of it holds of the chain.
pub follow-elim {ℓ} :
    {S A B : Type 0} (P : B → S → Type ℓ) (r : Result A × S) (f : A → Exec S B) {b : B}
    → (follow r f).0 ≡ ok b
    → ((a : A) → r.0 ≡ ok a → (f a r.1).0 ≡ ok b → P b (f a r.1).1)
    → P b (follow r f).1
follow-elim P (ok a, s) f h go = go a refl h
follow-elim P (err e, s) f h go = absurd (cc)

pub ok-injective : {A : Type 0} {a b : A} → ok a ≡ ok b → a ≡ b
ok-injective h = cc

-- What the first call leaves, and the rest keeps, the chain leaves, whether it returns or throws.
pub follow-state {ℓ} :
    {S A B : Type 0} (P : S → Type ℓ) (r : Result A × S) (f : A → Exec S B)
    → P r.1
    → ((a : A) → P (f a r.1).1)
    → P (follow r f).1
follow-state P (ok a, s) f h go = go a
follow-state P (err e, s) f h go = h

-- A first call that returned is out of the way.
pub follow-returns :
    {S A B : Type 0} (r : Result A × S) (f : A → Exec S B) (a : A)
    → r.0 ≡ ok a
    → follow r f ≡ f a r.1
follow-returns (ok b, s) f a h = ap (λ x. f x s) (ok-injective h)
follow-returns (err e, s) f a h = absurd (cc)

module _ {S A B : Type 0} where
  pub follow-cong :
      (r : Result A × S) (f g : A → Exec S B)
      → ((a : A) (s : S) → f a s ≡ g a s)
      → follow r f ≡ follow r g
  follow-cong (ok a, s) f g h = h a s
  follow-cong (err e, s) f g h = refl

  pub follow_assoc :
      {C : Type 0} (r : Result A × S) (f : A → Exec S B) (g : B → Exec S C)
      → follow (follow r f) g ≡ follow r (λ a s. follow (f a s) g)
  follow_assoc (ok a, s) f g = refl
  follow_assoc (err e, s) f g = refl
