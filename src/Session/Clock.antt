-- ===== src/Session/Clock.antt =====
-- The clock under the polling loop of akropolis/remote.py, and what a poll that ended has seen.
use akropolis.Base.{
  ◌≡◌, ◌∙◌, ap, ℕ, suc, zero, ◌+◌, ◌*◌, ◌≤◌, String, Bool, true, false, Option, none, arith, ltb,
  Bool-cases, inl, inr,
}
use akropolis.Effects.{Outcome, return, and_then-eq-return}
use akropolis.Session.{Conn, Session, Step}
use akropolis.Session.Frame.{IsRespected, run-Moves}
use akropolis.Session.Remote.{Remote, Reply, mark_connected, log_reply, run}
use akropolis.Session.Waiting.{clock, sleep, min, passes, after_probe, poll, wait_for}

-- `time.monotonic()` never goes back, and `time.sleep(n)` takes n seconds at least.
pub record IsMonotonic {W : Type 0} (remote : Remote W) : Type 0 where
  pub connect :
      (conn : Conn) (w : W) → remote.monotonic w ≤ remote.monotonic (remote.connect conn w).1
  pub exec :
      (conn : Conn) (cmd : String) (stdin : Option String) (timeout : ℕ) (w : W)
      → remote.monotonic w ≤ remote.monotonic (remote.exec conn cmd stdin timeout w).1
  pub sleep : (n : ℕ) (w : W) → remote.monotonic w + n * 1000 ≤ remote.monotonic (remote.sleep n w)

module _ {W : Type 0} (remote : Remote W) (law : IsMonotonic remote) where
  pub Later : Session W → Session W → Type 0
  Later s t = clock remote s ≤ clock remote t

  pub Later-IsRespected : IsRespected remote Later
  unfolding Later mark_connected log_reply sleep
  Later-IsRespected = record {
    order = record { reflexive = λ s. omega arith; transitive = λ s t u h k. omega arith };
    connect = λ conn s. law.connect conn s.world;
    exec = λ conn cmd stdin timeout s. law.exec conn cmd stdin timeout s.world;
    connected = λ conn s. omega arith;
    logged = λ conn sent r s. omega arith;
    slept = λ n s. omega (arith, law.sleep n s.world);
  }

  abbrev pub slept : ℕ → Session W → Session W
  slept interval s = (sleep remote interval s).1

  pub slept-Later :
      (interval : ℕ) (s t : Session W)
      → 1 ≤ interval
      → Later s t
      → clock remote s + 1000 ≤ clock remote (slept interval t)
  unfolding sleep Later
  slept-Later interval s t i h = omega (arith, law.sleep interval t.world)

  -- What a poll that returned has seen: a probe that exited with 0, or the deadline.
  pub Seen : Conn → String → Option String → ℕ → ℕ → Bool → Session W → Type 0
  Seen conn cmd expect limit deadline true t =
      (u : Session W) × (r : Reply) × (run remote conn cmd none limit u ≡ (return r, t))
      × (passes expect r ≡ true)
  Seen conn cmd expect limit deadline false t = deadline ≤ clock remote t

  Seen-late :
      (conn : Conn) (cmd : String) (expect : Option String) (limit deadline : ℕ) (s t : Session W)
      (b : Bool)
      → deadline ≤ clock remote s
      → ◌≡◌ {A = Outcome Bool × Session W} (return false, s) (return b, t)
      → Seen conn cmd expect limit deadline b t
  unfolding Seen
  Seen-late conn cmd expect limit deadline s t true h e = ground arith
  Seen-late conn cmd expect limit deadline s t false h e = ground arith

  Seen-true :
      (conn : Conn) (cmd : String) (expect : Option String) (limit deadline : ℕ) (s u t : Session W)
      (r : Reply) (b : Bool)
      → run remote conn cmd none limit s ≡ (return r, u)
      → passes expect r ≡ true
      → ◌≡◌ {A = Outcome Bool × Session W} (return true, u) (return b, t)
      → Seen conn cmd expect limit deadline b t
  unfolding Seen
  Seen-true conn cmd expect limit deadline s u t r true a ok e =
      (s, r, a ∙ ap (λ o. (return r, o.1)) e, ok)
  Seen-true conn cmd expect limit deadline s u t r false a ok e = ground arith

  Seen-probe :
      (conn : Conn) (cmd : String) (expect : Option String) (limit deadline interval : ℕ)
      (rest : Step W Bool) (r : Reply) (s u t : Session W) (b : Bool)
      → run remote conn cmd none limit s ≡ (return r, u)
      → (rest (slept interval u) ≡ (return b, t) → Seen conn cmd expect limit deadline b t)
      → after_probe remote expect interval rest r u ≡ (return b, t)
      → Seen conn cmd expect limit deadline b t
  unfolding after_probe sleep
  Seen-probe conn cmd expect limit deadline interval rest r s u t b a ih e =
      elim (Bool-cases (passes expect r)) [
        | inl ok ↦ Seen-true conn cmd expect limit deadline s u t r b a ok (rw ok at e)
        | inr failed ↦ ih (rw failed at e)
      ]

  poll-Seen :
      (fuel : ℕ) (conn : Conn) (cmd : String) (expect : Option String)
      (deadline timeout interval : ℕ) (s t : Session W) (b : Bool)
      → 1 ≤ interval
      → deadline ≤ clock remote s + fuel
      → poll remote fuel conn cmd expect deadline timeout interval s ≡ (return b, t)
      → Seen conn cmd expect (min 30 timeout) deadline b t
  unfolding poll Seen
  poll-Seen zero conn cmd expect deadline timeout interval s t b i h e =
      Seen-late conn cmd expect (min 30 timeout) deadline s t b (omega arith) e
  poll-Seen (suc fuel) conn cmd expect deadline timeout interval s t b i h e =
      let limit = min 30 timeout in
      elim (Bool-cases (ltb (clock remote s) deadline)) [
        | inr late ↦ Seen-late conn cmd expect limit deadline s t b (ground arith) (rw late at e)
        | inl early ↦
            let rest = poll remote fuel conn cmd expect deadline timeout interval in
            let (o, u) = run remote conn cmd none limit s in
            let (r, answered, probed) =
              and_then-eq-return o (after_probe remote expect interval rest) u (rw early at e) in
            Seen-probe conn cmd expect limit deadline interval rest r s u t b
              (ap (λ o. (o, u)) answered)
              (poll-Seen fuel conn cmd expect deadline timeout interval (slept interval u) t b i (
                omega (
                  arith,
                  slept-Later interval s u i
                      ((run-Moves remote Later-IsRespected conn cmd none limit).at s),
                )))
              probed
      ]

  -- Under the same laws of the clock: where `wait_for` returns true, its command was sent as the
  -- last thing, and exited with 0 and gave the expected text, if there is one; where it returns
  -- false, its deadline has passed.
  pub wait_for-Seen :
      (conn : Conn) (cmd : String) (expect : Option String) (timeout interval : ℕ) (s t : Session W)
      (b : Bool)
      → 1 ≤ interval
      → wait_for remote conn cmd expect timeout interval s ≡ (return b, t)
      → Seen conn cmd expect (min 30 timeout) (clock remote s + timeout * 1000) b t
  unfolding wait_for
  wait_for-Seen conn cmd expect timeout interval s t b i e =
      poll-Seen (timeout * 1000) conn cmd expect (clock remote s + timeout * 1000) timeout interval
        s t b i (omega arith) e
