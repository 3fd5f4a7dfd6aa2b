-- ===== src/Preflight/Frame.antt =====
-- What akropolis/phases/preflight.py has recorded as failed stays so: the order and its statements.
use akropolis.Base.{
  ◌≡◌, refl, sym, subst, ℕ, ℤ, String, Bool, true, not, ◌&&◌, string_eq, if◌then◌else◌, none, some,
  Option, [], ◌∷◌, any, any-append, arith,
}
use akropolis.Base.Text.{int_of_text}
use akropolis.Effects.{pure, throw, ◌>>=◌, ◌>>◌}
use akropolis.Effects.Moves.{Moves, IsPreorder, Moves-bind, Moves-if}
use akropolis.Session.{Check, Conn, Session, Step, add_check}
use akropolis.Session.Remote.{Remote, Reply, run, mark_connected, log_reply}
use akropolis.Session.Waiting.{sleep}
use akropolis.Session.Frame.{IsRespected, run-Moves}
use akropolis.Preflight.Node.{read_given, read_int}

-- A failure that is no warning.
abbrev pub is_failure : Check → Bool
is_failure c = not c.ok && not c.warn

abbrev pub Failed : {W : Type 0} → Session W → Type 0
Failed s = any is_failure s.checks ≡ true

abbrev pub Stays : {W : Type 0} → Session W → Session W → Type 0
Stays s t = Failed s → Failed t

module _ {W : Type 0} where
  pub Stays-checked : (c : Check) → Moves {S = Session W} Stays (add_check c)
  unfolding add_check
  Stays-checked c = record {
    at = λ s h. ground (arith, any-append is_failure s.checks (c ∷ []), h);
  }

  -- A check that fails is a failure.
  pub Failed-now : (c : Check) (s : Session W) → is_failure c ≡ true → Failed (add_check c s).1
  unfolding add_check
  Failed-now c s h = ground (arith, any-append is_failure s.checks (c ∷ []), h)

  pub still : {A : Type 0} (m : Step W A) → ((s : Session W) → (m s).1 ≡ s) → Moves Stays m
  still m same = record { at = λ s h. subst Failed (sym (same s)) h }

module _ {W : Type 0} (remote : Remote W) where
  pub Stays-IsRespected : IsRespected remote Stays
  unfolding mark_connected log_reply sleep
  Stays-IsRespected = record {
    order = record { reflexive = λ s h. h; transitive = λ s t u f g h. g (f h) };
    connect = λ conn s h. h;
    exec = λ conn cmd stdin timeout s h. h;
    connected = λ conn s h. h;
    logged = λ conn sent r s h. h;
    slept = λ n s h. h;
  }

  pub order : IsPreorder {S = Session W} Stays
  order = Stays-IsRespected.order

  -- A command and what follows it.
  pub run_then :
      {A : Type 0} (conn : Conn) (cmd : String) (sudo : Option Bool) (timeout : ℕ)
      (f : Reply → Step W A)
      → ((r : Reply) → Moves Stays (f r))
      → Moves Stays (run remote conn cmd sudo timeout >>= f)
  run_then conn cmd sudo timeout f k =
      Moves-bind order (run remote conn cmd sudo timeout) f
        (run-Moves remote Stays-IsRespected conn cmd sudo timeout) k

  pub check_then :
      {A : Type 0} (c : Check) (m : Step W A) → Moves Stays m → Moves Stays (add_check c >> m)
  check_then c m k = Moves-bind order (add_check c) _ (Stays-checked c) λ _. k

  given_moves : (text : String) (o : Option ℤ) → Moves {S = Session W} Stays (read_given text o)
  unfolding read_given
  given_moves text (some z) = still (pure z) (λ s. refl)
  given_moves text none = still (throw _) (λ s. refl)

  pub read_int_then :
      {A : Type 0} (text : String) (f : ℤ → Step W A)
      → ((z : ℤ) → Moves Stays (f z))
      → Moves Stays (read_int text >>= f)
  unfolding read_int
  read_int_then text f k =
      Moves-bind order (read_given text (int_of_text text)) f (given_moves text (int_of_text text))
        k

  pub quiet : {A : Type 0} (a : A) → Moves {S = Session W} Stays (pure a)
  quiet a = still (pure a) (λ s. refl)

  pub if_moves :
      {A : Type 0} (b : Bool) (m n : Step W A)
      → Moves Stays m
      → Moves Stays n
      → Moves Stays (if b then m else n)
  if_moves = Moves-if order
