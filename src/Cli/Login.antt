-- ===== src/Cli/Login.antt =====
-- The passwords, `Fleet(...)` of akropolis/sshexec.py and `_preauth_sudo` of akropolis/cli.py.
use akropolis.Base.{
  ℕ, zero, suc, String, Bool, true, false, ◌==◌, string_eq, if◌then◌else◌, Option, none, some, List,
  [], ◌∷◌, map,
}
use akropolis.Value.{is_text}
use akropolis.Config.{Node, SshConfig}
use akropolis.Effects.{Outcome, return, raise, exception, interrupt, pure, ◌>>=◌}
use akropolis.Session.{Conn, Session, Step, input}
use akropolis.Session.Remote.{Remote, is_ok, connect, run}

-- `Fleet.__init__`: one connection for each node, in order.
unfoldable pub connections : ℕ → List Node → SshConfig → (password sudo : Option String) → List Conn
connections slot [] cfg password sudo = []
connections slot (node ∷ nodes) cfg password sudo =
    record { slot = slot; node = node; cfg = cfg; password = password; sudo_password = sudo }
    ∷ connections (suc slot) nodes cfg password sudo

-- `line or password`
abbrev pub or_password : String → Option String → Option String
or_password line password = if line == "" then password else some line

with_sudo : Option String → Conn → Conn
with_sudo retry conn = record conn { sudo_password = retry }

module _ {W : Type 0} where
  ask_password : Step W (Option String)
  ask_password s =
      (if is_text s.cfg.ssh.auth "password"
          then (input >>= λ line. pure (some line))
          else pure none)
        s

  ask_sudo : Option String → Step W (Option String)
  ask_sudo password s =
      (if s.cfg.ssh.become then (input >>= λ line. pure (or_password line password)) else pure none)
        s

  open_fleet : Option String → Option String → Step W (Option String)
  unfolding connections
  open_fleet password sudo s = (
    return password,
    record s {
      fleet = record s.fleet {
        conns = connections 0 s.cfg.nodes s.cfg.ssh password sudo;
        connected = [];
        current_phase = "";
      };
    },
  )

  -- The questions, and the fleet; it returns the SSH password.
  unfoldable pub login : Step W (Option String)
  unfolding ask_password ask_sudo open_fleet
  login = ask_password >>= λ password. ask_sudo password >>= λ sudo. open_fleet password sudo

  -- `conn._sudo_password = retry` for each node.
  unfoldable pub give_sudo : Option String → Session W → Session W
  unfolding with_sudo
  give_sudo retry s = record s {
    fleet = record s.fleet { conns = map (with_sudo retry) s.fleet.conns };
  }

-- What a node, or a round over the nodes, says of sudo: `unreachable` is `return False`.
pub data Probe : Type 0 where
  unreachable : Probe
  refused : (bad : List String) → Probe

module _ {W : Type 0} (remote : Remote W) where
  -- Root already, or `sudo true` works.
  unfoldable pub try_sudo : Conn → Step W Bool
  try_sudo conn = run remote conn "id -u" none 30 >>= λ who.
      if who.out == "0"
      then pure true
      else (run remote conn "true" (some true) 30 >>= λ r. pure (is_ok r))

  unfoldable pub add_bad : Conn → Bool → Probe → Probe
  add_bad conn good unreachable = unreachable
  add_bad conn true (refused bad) = refused bad
  add_bad conn false (refused bad) = refused (conn.node.name ∷ bad)

  -- The body for one node after `conn.connect()`, with the rest of the round.
  unfoldable pub after_connect : Conn → Step W Probe → Outcome (Unit {0}) → Step W Probe
  unfolding add_bad
  after_connect conn rest (return _) s =
      (try_sudo conn >>= λ good. rest >>= λ others. pure (add_bad conn good others)) s
  after_connect conn rest (raise (exception _)) s = (return unreachable, s)
  after_connect conn rest (raise interrupt) s = (raise interrupt, s)

  unfoldable pub probe_nodes : List Conn → Step W Probe
  probe_nodes [] s = (return (refused []), s)
  probe_nodes (conn ∷ conns) s =
      let (r, t) = connect remote conn s in after_connect conn (probe_nodes conns) r t

  -- After a round: another password and another round, while there are any left.
  unfoldable pub judge : Option String → (retry : Option (Step W Bool)) → Probe → Step W Bool
  judge password retry unreachable = pure false
  judge password retry (refused []) = pure true
  judge password none (refused (b ∷ bad)) = pure false
  judge password (some again) (refused (b ∷ bad)) =
      input >>= λ line. (λ s. again (give_sudo (or_password line password) s))

  -- `for attempt in range(3)`, with the attempts after this one.
  unfoldable pub attempts : ℕ → Option String → Step W Bool
  attempts zero password s = (probe_nodes s.fleet.conns >>= judge password none) s
  attempts (suc left) password s =
      (probe_nodes s.fleet.conns >>= judge password (some (attempts left password))) s

  -- `_preauth_sudo`
  unfoldable pub preauth : Option String → Step W Bool
  preauth password s = if s.cfg.ssh.become then attempts 2 password s else (return true, s)
