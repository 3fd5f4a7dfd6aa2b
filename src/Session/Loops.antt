-- ===== src/Session/Loops.antt =====
-- The loops of the phases under akropolis/phases: over the nodes, and over a table of steps.
use akropolis.Base.{◌≡◌, refl, Bool, true, false, ◌&&◌, List, [], ◌∷◌, All, ap, ◌∙◌, arith}
use akropolis.Effects.{Outcome, return, pure, throw, ◌>>=◌, ◌>>◌, and_then-eq-return}
use akropolis.Effects.Moves.{Moves, IsPreorder, Moves-bind}
use akropolis.Session.{Conn, Session, Step}

pub and-eq-true : (a b : Bool) → (a && b) ≡ true → (a ≡ true) × (b ≡ true)
and-eq-true true b h = (refl, h)
and-eq-true false b h = ground arith

module _ {S : Type 0} where
  pub return-and-true :
      (a b : Bool) (s t : S)
      → ◌≡◌ {A = Outcome Bool × S} (return (a && b), s) (return true, t)
      → (a ≡ true) × (b ≡ true)
  return-and-true true b s t h = (refl, ground arith)
  return-and-true false b s t h = ground arith

module _ {W : Type 0} where
  -- `ctx.fleet.conns[0]`
  unfoldable pub first_conn : List Conn → Step W Conn
  first_conn [] = throw "list index out of range"
  first_conn (conn ∷ conns) = pure conn

module _ {W A : Type 0} where
  -- A body with no result: the loop ends with the first exception.
  unfoldable pub each : (A → Step W (Unit {0})) → List A → Step W (Unit {0})
  each f [] = pure tt
  each f (x ∷ xs) = f x >> each f xs

  -- A body that sets `ok = ok and good`: every element is visited, whatever the others gave.
  unfoldable pub all_nodes : (A → Step W Bool) → Bool → List A → Step W Bool
  all_nodes f ok [] = pure ok
  all_nodes f ok (x ∷ xs) = f x >>= λ good. all_nodes f (ok && good) xs

  module _ {R : Session W → Session W → Type 0} (order : IsPreorder R) where
    pub each-Moves :
        (f : A → Step W (Unit {0})) (xs : List A) → ((x : A) → Moves R (f x)) → Moves R (each f xs)
    unfolding each
    each-Moves f [] k = record { at = order.reflexive }
    each-Moves f (x ∷ xs) k = Moves-bind order (f x) _ (k x) λ _. each-Moves f xs k

    pub all_nodes-Moves :
        (f : A → Step W Bool) (ok : Bool) (xs : List A)
        → ((x : A) → Moves R (f x))
        → Moves R (all_nodes f ok xs)
    unfolding all_nodes
    all_nodes-Moves f ok [] k = record { at = order.reflexive }
    all_nodes-Moves f ok (x ∷ xs) k =
        Moves-bind order (f x) _ (k x) λ good. all_nodes-Moves f (ok && good) xs k

  module _ {P : A → Type 0} where
    -- What a good round says of its element, a good loop says of every one.
    pub All-all_nodes :
        (f : A → Step W Bool)
        → ((x : A) (s t : Session W) → f x s ≡ (return true, t) → P x)
        → (xs : List A) (ok : Bool) (s t : Session W) → all_nodes f ok xs s ≡ (return true, t)
        → (ok ≡ true) × All P xs
    unfolding all_nodes
    All-all_nodes f inv [] ok s t h = (ground arith, tt)
    All-all_nodes f inv (x ∷ xs) ok s t h =
        let (o, u) = f x s in
        let (good, answered, h1) = and_then-eq-return o _ u h in
        let (both, rest) = All-all_nodes f inv xs (ok && good) u t h1 in
        let (all_before, this) = and-eq-true ok good both in
        (all_before, (inv x s u (ap (λ o. (o, u)) (answered ∙ ap return this)), rest))

module _ {W A : Type 0} where
  -- What a round says of its element, of the session before it and of the one after it, said of
  -- every element in turn: each round begins where the one before it ended.
  abbrev pub Chain : (A → Session W → Session W → Type 0) → List A → Session W → Session W → Type 0
  Chain P [] s t = s ≡ t
  Chain P (x ∷ xs) s t = (u : Session W) × (P x s u × Chain P xs u t)

  module _ {P : A → Session W → Session W → Type 0} where
    pub Chain-each :
        (f : A → Step W (Unit {0}))
        → ((x : A) (s t : Session W) → f x s ≡ (return tt, t) → P x s t)
        → (xs : List A) (s t : Session W) → each f xs s ≡ (return tt, t)
        → Chain P xs s t
    unfolding each
    Chain-each f inv [] s t h = ap (λ o. o.1) h
    Chain-each f inv (x ∷ xs) s t h =
        let (o, u) = f x s in
        let (done, answered, h1) = and_then-eq-return o _ u h in
        (u, (inv x s u (ap (λ o. (o, u)) answered), Chain-each f inv xs u t h1))

    pub Chain-all_nodes :
        (f : A → Step W Bool)
        → ((x : A) (s t : Session W) → f x s ≡ (return true, t) → P x s t)
        → (xs : List A) (ok : Bool) (s t : Session W) → all_nodes f ok xs s ≡ (return true, t)
        → (ok ≡ true) × Chain P xs s t
    unfolding all_nodes
    Chain-all_nodes f inv [] ok s t h = (ground arith, ap (λ o. o.1) h)
    Chain-all_nodes f inv (x ∷ xs) ok s t h =
        let (o, u) = f x s in
        let (good, answered, h1) = and_then-eq-return o _ u h in
        let (both, rest) = Chain-all_nodes f inv xs (ok && good) u t h1 in
        let (all_before, this) = and-eq-true ok good both in
        (all_before, (u, (inv x s u (ap (λ o. (o, u)) (answered ∙ ap return this)), rest)))
