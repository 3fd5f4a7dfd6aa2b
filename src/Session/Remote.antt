-- ===== src/Session/Remote.antt =====
-- `NodeConn.connect` and `NodeConn.run` of akropolis/sshexec.py. Paramiko and the nodes behind it
-- are a parameter.
use akropolis.Base.{
  ℕ, ℤ, pos, negsuc, String, ◌<>◌, Bool, false, not, ◌&&◌, ◌||◌, ◌==◌, string_eq, if◌then◌else◌,
  Option, none, some, List, [], ◌∷◌, ◌++◌, eqb,
}
use akropolis.Base.Text.{strip, shell_quote}
use akropolis.Value.{is_text}
use akropolis.Effects.{Outcome, return, and_then, ◌>>◌}
use akropolis.Session.{Conn, command, Session, Step, plain, add_check}

pub record Reply : Type 0 where
  pub rc : ℤ
  pub out : String
  pub err : String

abbrev pub is_zero : ℤ → Bool
is_zero (pos n) = eqb n 0
is_zero (negsuc n) = false

-- `Result.ok`
abbrev pub is_ok : Reply → Bool
is_ok r = is_zero r.rc

-- The SSH library and everything that it reaches, over an unknown state of the world, with the
-- clock: `monotonic` counts milliseconds, and `sleep` takes seconds.
pub record Remote (W : Type 0) : Type 0 where
  pub connect : Conn → W → Outcome (Unit {0}) × W
  pub exec : Conn → (cmd : String) → (stdin : Option String) → ℕ → W → Outcome Reply × W
  pub now : W → String
  pub monotonic : W → ℕ
  pub sleep : ℕ → W → W

module _ {W : Type 0} where
  -- `ctx.record(node, name, r.ok, r.err if not r.ok else "")`
  unfoldable pub add_reply : Conn → String → Reply → Step W (Unit {0})
  add_reply conn name r =
      add_check (plain conn.node.name name (is_ok r) (if is_ok r then "" else r.err))

abbrev pub member : ℕ → List ℕ → Bool
member i [] = false
member i (j ∷ js) = eqb i j || member i js

-- `self._sudo_password`, as a test: neither None nor empty.
unfoldable pub secret_of : Option String → Option String
secret_of none = none
secret_of (some p) = if p == "" then none else some p

-- The command as it is sent, and what is fed to it: `sudo -S` reads the password from stdin.
unfoldable pub escalate : Conn → String → Bool → String × Option String
unfolding secret_of shell_quote
escalate conn cmd use_sudo =
    if use_sudo && not (is_text conn.cfg.user "root")
    then elim (secret_of conn.sudo_password) [
      | some p ↦ ("sudo -S -k -p '' -- sh -c " <> shell_quote cmd, some (p <> "\n"))
      | none ↦ ("sudo -n -- sh -c " <> shell_quote cmd, none)
    ]
    else (cmd, none)

-- `self.cfg.become if sudo is None else sudo`
abbrev pub chosen : Bool → Option Bool → Bool
chosen become none = become
chosen become (some b) = b

module _ {W : Type 0} (remote : Remote W) where
  unfoldable pub mark_connected : Conn → Session W → Session W
  mark_connected conn s = record s {
    fleet = record s.fleet { connected = conn.slot ∷ s.fleet.connected };
  }

  -- `conn.connect()`
  unfoldable pub connect : Conn → Step W (Unit {0})
  unfolding mark_connected
  connect conn s =
      let (r, w) = remote.connect conn s.world in
      and_then r (λ _ t. (return tt, mark_connected conn t)) (record s { world = w })

  unfoldable pub ensure_connected : Conn → Step W (Unit {0})
  unfolding connect
  ensure_connected conn s =
      if member conn.slot s.fleet.connected then (return tt, s) else connect conn s

  unfoldable pub log_reply : Conn → String → Reply → Session W → Session W
  log_reply conn sent r s = record s {
    fleet = record s.fleet {
      transcript =
          s.fleet.transcript
          ++ (command conn.node.name s.fleet.current_phase sent r.rc r.out r.err ∷ []);
    };
  }

  unfoldable pub stripped : Reply → Reply
  unfolding strip
  stripped r = record { rc = r.rc; out = strip r.out; err = strip r.err }

  unfoldable pub exec_sent : Conn → String × Option String → ℕ → Step W Reply
  unfolding log_reply stripped
  exec_sent conn sent timeout s =
      let (r, w) = remote.exec conn sent.0 sent.1 timeout s.world in
      and_then r (λ reply t. (return (stripped reply), log_reply conn sent.0 (stripped reply) t))
        (record s { world = w })

  -- `conn.run(cmd, sudo, timeout)`
  unfoldable pub run : Conn → String → Option Bool → ℕ → Step W Reply
  unfolding ensure_connected exec_sent escalate
  run conn cmd sudo timeout = do
    ensure_connected conn
    exec_sent conn (escalate conn cmd (chosen conn.cfg.become sudo)) timeout
