-- ===== src/Session/Polling.antt =====
-- The polling loop of akropolis/remote.py as a relation, with no fuel: that it ends.
use akropolis.Base.{
  ◌≡◌, refl, ◌⊎◌, inl, inr, ℕ, suc, zero, ◌+◌, ◌*◌, ◌≤◌, String, Bool, true, false, Option, none,
  arith, ltb, Bool-cases,
}
use akropolis.Effects.{Outcome, Raised, return, raise, and_then}
use akropolis.Session.{Conn, Session, Step}
use akropolis.Session.Frame.{run-Moves}
use akropolis.Session.Remote.{Remote, Reply, run}
use akropolis.Session.Waiting.{clock, sleep, min, passes, after_probe, poll, wait_for}
use akropolis.Session.Clock.{IsMonotonic, Later-IsRespected, slept, slept-Later}

module _ {W : Type 0} (remote : Remote W) (law : IsMonotonic remote) where
  -- The loop of the source, with no fuel: its runs of n rounds from a session to an outcome.
  pub data Polls (conn : Conn) (cmd : String) (expect : Option String)
      (deadline timeout interval : ℕ) : ℕ → Session W → Outcome Bool → Session W → Type 0 where
    late :
        (s : Session W)
        → deadline ≤ clock remote s
        → Polls conn cmd expect deadline timeout interval zero s (return false) s
    raised :
        (s u : Session W) (e : Raised)
        → suc (clock remote s) ≤ deadline
        → run remote conn cmd none (min 30 timeout) s ≡ (raise e, u)
        → Polls conn cmd expect deadline timeout interval (suc zero) s (raise e) u
    passed :
        (s u : Session W) (r : Reply)
        → suc (clock remote s) ≤ deadline
        → run remote conn cmd none (min 30 timeout) s ≡ (return r, u)
        → passes expect r ≡ true
        → Polls conn cmd expect deadline timeout interval (suc zero) s (return true) u
    again :
        (n : ℕ) (s u t : Session W) (r : Reply) (o : Outcome Bool)
        → suc (clock remote s) ≤ deadline
        → run remote conn cmd none (min 30 timeout) s ≡ (return r, u)
        → passes expect r ≡ false
        → Polls conn cmd expect deadline timeout interval n (slept remote law interval u) o t
        → Polls conn cmd expect deadline timeout interval (suc n) s o t

  -- A run of n rounds, the last of which begins before the deadline, each a second at least after
  -- the one before it.
  abbrev Run :
      Conn
      → String
      → Option String
      → (deadline timeout interval : ℕ) → Session W
      → Outcome Bool × Session W
      → Type 0
  Run conn cmd expect deadline timeout interval s ended =
      (n : ℕ) × (((n ≡ 0) ⊎ (n * 1000 + clock remote s ≤ deadline + 999))
        × Polls conn cmd expect deadline timeout interval n s ended.0 ended.1)

  longer :
      (n : ℕ) (s u : Session W) (interval deadline : ℕ)
      → suc (clock remote s) ≤ deadline
      → clock remote s + 1000 ≤ clock remote (slept remote law interval u)
      → (n ≡ 0) ⊎ (n * 1000 + clock remote (slept remote law interval u) ≤ deadline + 999)
      → suc n * 1000 + clock remote s ≤ deadline + 999
  longer n s u interval deadline early later (inl none_left) = omega arith
  longer n s u interval deadline early later (inr fits) = omega arith

  bounded :
      (n timeout now : ℕ) → (n ≡ 0) ⊎ (n * 1000 + now ≤ now + timeout * 1000 + 999) → n ≤ timeout
  bounded n timeout now (inl none_left) = omega arith
  bounded n timeout now (inr fits) = omega arith

  probed :
      (conn : Conn) (cmd : String) (expect : Option String) (deadline timeout interval : ℕ)
      (rest : Step W Bool) (o : Outcome Reply) (s u : Session W)
      → suc (clock remote s) ≤ deadline
      → clock remote s + 1000 ≤ clock remote (slept remote law interval u)
      → run remote conn cmd none (min 30 timeout) s ≡ (o, u)
      → Run conn cmd expect deadline timeout interval
          (slept remote law interval u)
          (rest (slept remote law interval u))
      → Run conn cmd expect deadline timeout interval s
          (and_then o (after_probe remote expect interval rest) u)
  unfolding after_probe sleep
  probed conn cmd expect deadline timeout interval rest (raise e) s u early later a ih =
      (suc zero, (inr (omega arith), raised s u e early a))
  probed conn cmd expect deadline timeout interval rest (return r) s u early later a ih =
      elim (Bool-cases (passes expect r)) [
        | inl ok ↦ rw ok (suc zero, (inr (omega arith), passed s u r early a ok))
        | inr failed ↦ rw failed (
          suc ih.0,
          (
            inr (longer ih.0 s u interval deadline early later ih.1.0),
            again ih.0 s u _ r _ early a failed ih.1.1,
          ),
        )
      ]

  poll_runs :
      (fuel : ℕ) (conn : Conn) (cmd : String) (expect : Option String)
      (deadline timeout interval : ℕ) (s : Session W)
      → 1 ≤ interval
      → deadline ≤ clock remote s + fuel
      → Run conn cmd expect deadline timeout interval s
          (poll remote fuel conn cmd expect deadline timeout interval s)
  unfolding poll
  poll_runs zero conn cmd expect deadline timeout interval s i h =
      (zero, (inl refl, late s (omega arith)))
  poll_runs (suc fuel) conn cmd expect deadline timeout interval s i h =
      elim (Bool-cases (ltb (clock remote s) deadline)) [
        | inr passed_by ↦ rw passed_by (zero, (inl refl, late s (ground (arith, passed_by))))
        | inl early ↦
            let (o, u) = run remote conn cmd none (min 30 timeout) s in
            let later = slept-Later remote law interval s u i (
              (run-Moves remote (Later-IsRespected remote law) conn cmd none (min 30 timeout)).at
                s) in
            rw early (
              probed conn cmd expect deadline timeout interval
                (poll remote fuel conn cmd expect deadline timeout interval) o s u
                (ground (arith, early)) later refl
                (poll_runs fuel conn cmd expect deadline timeout interval
                  (slept remote law interval u) i (omega (arith, later))))
      ]

  -- Where the clock never goes back, a sleep takes as long as it says and the interval is a second
  -- at least, `wait_for` with a timeout of n seconds is a run of the loop of the source, which
  -- knows no fuel, of n rounds at most: each round begins before the deadline and sends the
  -- command with its limit of 30 seconds or the timeout; the run ends at the first reply that
  -- passes, at the first exception, or at a time past the deadline.
  pub wait_for_ends :
      (conn : Conn) (cmd : String) (expect : Option String) (timeout interval : ℕ) (s : Session W)
      → 1 ≤ interval
      → let (o, t) = wait_for remote conn cmd expect timeout interval s in
        (n : ℕ) × ((n ≤ timeout)
          × Polls conn cmd expect (clock remote s + timeout * 1000) timeout interval n s o t)
  unfolding wait_for
  wait_for_ends conn cmd expect timeout interval s i =
      let (n, (few, rounds)) =
        poll_runs (timeout * 1000) conn cmd expect (clock remote s + timeout * 1000) timeout
          interval s i (omega arith) in
      (n, (bounded n timeout (clock remote s) few, rounds))
