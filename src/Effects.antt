-- ===== src/Effects.antt =====
-- Python's exceptions as values: a statement returns or raises, and the state it has changed by
-- then stays changed. An `interrupt` (KeyboardInterrupt, SystemExit) is none that
-- `except Exception` catches.
pub mod Moves
use akropolis.Base.{String, ◌≡◌, refl}

pub data Raised : Type 0 where
  exception : String → Raised
  interrupt : Raised

pub data Outcome {ℓ} (A : Type ℓ) : Type ℓ where
  return : A → Outcome A
  raise : Raised → Outcome A

abbrev pub Action {ℓ} : Type ℓ → Type ℓ → Type ℓ
Action S A = S → Outcome A × S

module _ {ℓ} {S A : Type ℓ} where
  abbrev pub pure : A → Action S A
  pure a s = (return a, s)

  abbrev pub throw : String → Action S A
  throw message s = (raise (exception message), s)

  abbrev pub gets : (S → A) → Action S A
  gets f s = (return (f s), s)

module _ {ℓ} {S : Type ℓ} where
  abbrev pub modify : (S → S) → Action S (Unit {ℓ})
  modify f s = (return tt, f s)

module _ {ℓ} {S A B : Type ℓ} where
  abbrev pub and_then : Outcome A → (A → Action S B) → Action S B
  and_then (return a) f = f a
  and_then (raise e) f = λ s. (raise e, s)

  infixl 5 ◌>>=◌ ◌>>◌
  abbrev pub ◌>>=◌ : Action S A → (A → Action S B) → Action S B
  m >>= f = λ s. let (r, s') = m s in and_then r f s'

  abbrev pub ◌>>◌ : Action S A → Action S B → Action S B
  m >> n = m >>= λ _. n

  pub and_then-eq-return :
      (r : Outcome A) (f : A → Action S B) (s : S) {b : B} {t : S}
      → and_then r f s ≡ (return b, t)
      → (a : A) × (r ≡ return a) × (f a s ≡ (return b, t))
  and_then-eq-return (return a) f s e = (a, refl, e)
  and_then-eq-return (raise _) f s e = cc
