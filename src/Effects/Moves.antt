-- ===== src/Effects/Moves.antt =====
-- What the statements of a do block do to the state, one after the other: a relation of the state
-- before to the state after that is reflexive and transitive.
use akropolis.Base.{Bool, true, false, if◌then◌else◌}
use akropolis.Effects.{Outcome, return, raise, Action, and_then, ◌>>=◌}

-- `m` moves the state along `R`, whether it returns or raises.
pub record Moves {S A : Type 0} (R : S → S → Type 0) (m : Action S A) : Type 0 where
  pub at : (s : S) → R s (m s).1

pub record IsPreorder {S : Type 0} (R : S → S → Type 0) : Type 0 where
  pub reflexive : (s : S) → R s s
  pub transitive : (s t u : S) → R s t → R t u → R s u

module _ {S : Type 0} {R : S → S → Type 0} (order : IsPreorder R) where
  pub Moves-and_then :
      {A B : Type 0} (r : Outcome A) (f : A → Action S B)
      → ((a : A) → Moves R (f a))
      → Moves R (and_then r f)
  Moves-and_then (return a) f k = k a
  Moves-and_then (raise e) f k = record { at = order.reflexive }

  pub and_then_moves :
      {A B : Type 0} (r : Outcome A) (f : A → Action S B) (s t : S)
      → R s t
      → ((a : A) → Moves R (f a))
      → R s (and_then r f t).1
  and_then_moves r f s t h k =
      order.transitive s t (and_then r f t).1 h ((Moves-and_then r f k).at t)

  pub Moves-bind :
      {A B : Type 0} (m : Action S A) (f : A → Action S B)
      → Moves R m
      → ((a : A) → Moves R (f a))
      → Moves R (m >>= f)
  Moves-bind m f km kf = record {
    at = λ s. let (r, t) = m s in and_then_moves r f s t (km.at s) kf;
  }

  pub Moves-if :
      {A : Type 0} (b : Bool) (m n : Action S A)
      → Moves R m
      → Moves R n
      → Moves R (if b then m else n)
  Moves-if true m n km kn = km
  Moves-if false m n km kn = kn
