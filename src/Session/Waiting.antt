-- ===== src/Session/Waiting.antt =====
-- The polling loop `wait_for` of akropolis/remote.py, and the health gate and the log dump of
-- akropolis/phases/authentik_phase.py that use the same connections.
use akropolis.Base.{
  ℕ, suc, zero, ◌+◌, ◌*◌, String, ◌<>◌, Bool, true, false, ◌&&◌, ◌||◌, ◌==◌, string_eq,
  if◌then◌else◌, Option, none, some, ltb,
}
use text.Mathlib.Text.{starts_with}
use akropolis.Effects.{return, pure, ◌>>=◌, ◌>>◌}
use akropolis.Session.{Conn, Session, Step}
use akropolis.Session.Remote.{Remote, Reply, is_ok, run}

-- `HEALTHY`
unfoldable pub healthy : String
healthy =
    "docker inspect -f '{{.State.Health.Status}}' authentik-server-1 authentik-worker-1 2>/dev/null | sort -u"

-- `ALL_HEALTHY`
unfoldable pub all_healthy : String
unfolding healthy
all_healthy = "[ \"$(" <> (healthy <> ")\" = healthy ]")

abbrev pub min : ℕ → ℕ → ℕ
min a b = if ltb b a then b else a

-- `expect in out`: the text stands somewhere in the other.
unfoldable pub occurs_in : String → String → Bool
occurs_in s String.[] = s == ""
occurs_in s (String.◌∷◌ c t) = starts_with (String.◌∷◌ c t) s || occurs_in s t

-- `r.ok and (expect is None or expect in r.out)`
unfoldable pub passes : Option String → Reply → Bool
unfolding occurs_in
passes none r = is_ok r
passes (some expect) r = is_ok r && occurs_in expect r.out

module _ {W : Type 0} (remote : Remote W) where
  abbrev pub clock : Session W → ℕ
  clock s = remote.monotonic s.world

  unfoldable pub sleep : ℕ → Step W (Unit {0})
  sleep seconds s = (return tt, record s { world = remote.sleep seconds s.world })

  -- The body of the loop after the command: `return True`, or sleep and go on.
  unfoldable pub after_probe : Option String → ℕ → Step W Bool → Reply → Step W Bool
  after_probe expect interval rest r =
      if passes expect r then pure true else (sleep interval >> rest)

  -- The rounds of `while time.monotonic() < deadline`, `fuel` of them at most.
  unfoldable pub poll :
      ℕ → Conn → String → Option String → (deadline timeout interval : ℕ) → Step W Bool
  poll zero conn cmd expect deadline timeout interval s = (return false, s)
  poll (suc fuel) conn cmd expect deadline timeout interval s =
      let rest = poll fuel conn cmd expect deadline timeout interval in
      if ltb (clock s) deadline
      then (run remote conn cmd none (min 30 timeout) >>= after_probe expect interval rest) s
      else (return false, s)

  -- `wait_for`. A round takes a millisecond at least, so that the rounds suffice.
  unfoldable pub wait_for : Conn → String → Option String → (timeout interval : ℕ) → Step W Bool
  wait_for conn cmd expect timeout interval s =
      poll (timeout * 1000) conn cmd expect (clock s + timeout * 1000) timeout interval s

  -- `wait_healthy`
  unfoldable pub wait_healthy : Conn → ℕ → Step W Bool
  unfolding all_healthy
  wait_healthy conn timeout = wait_for conn all_healthy none timeout 10

  -- `dump_logs`, of its 40 lines. What it prints is not modelled.
  unfoldable pub dump_logs : Conn → String → Step W (Unit {0})
  dump_logs conn service = do
    run remote conn
        ("cd /opt/authentik && docker compose logs --no-color --tail 40 " <> (service <> " 2>&1"))
        none 120
    pure tt
