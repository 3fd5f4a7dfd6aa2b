-- ===== src/Haproxy.antt =====
-- akropolis/phases/haproxy_phase.py: the router in front of PostgreSQL on every node. The template
-- and the compose file are parameters.
pub mod Routed
pub mod Tests
use akropolis.Base.{
  ℕ, String, ◌<>◌, Bool, true, false, not, ◌&&◌, ◌||◌, ◌==◌, string_eq, if◌then◌else◌, Option, none,
  some, List, [], ◌∷◌,
}
use akropolis.Base.Dict
use akropolis.Base.Text.{strip, shell_quote}
use akropolis.Value.{Value, str, truthy}
use akropolis.Config.{Node}
use akropolis.Effects.{return, pure, throw, ◌>>=◌, ◌>>◌}
use akropolis.Session.{Conn, Session, Step, plain, add_check}
use akropolis.Session.Remote.{Remote, Reply, is_ok, run, add_reply}
use akropolis.Session.Waiting.{wait_for}
use akropolis.Session.Pushing.{Encoding, push_file}
use akropolis.Session.Loops.{each, all_nodes}
use akropolis.Session.Loops.{first_conn}
use akropolis.Session.Pinned.{Tokens, pinned, as_text}
use akropolis.Phases.{Phase}

-- `haproxy` renders haproxy.cfg.j2; `compose` is haproxy-compose.yml.
pub record Templates : Type 0 where
  pub haproxy : List Node → (stats_password : Value) → String
  pub compose : String

-- `CSV_CMD.format(pw=shlex.quote(stats_pw))`
unfoldable pub csv_cmd : String → String
unfolding shell_quote
csv_cmd password =
    "curl -s -u admin:" <> (shell_quote password <> " 'http://127.0.0.1:9000/stats;csv'")

abbrev pub answers_cmd : String → String
answers_cmd csv = csv <> " | grep -q pg_primary_backend"

abbrev pub backends_cmd : String → String
backends_cmd csv =
    csv
    <> " | awk -F, '$1==\"pg_primary_backend\" && $2!~/BACKEND|FRONTEND/ && $18==\"UP\" {p++} $1==\"pg_replica_backend\" && $2!~/BACKEND|FRONTEND/ && $18==\"UP\" {r++} END {exit !(p==1 && r==2)}'"

unfoldable pub select_cmd : String → String
unfolding shell_quote
select_cmd password =
    "PGPASSWORD="
    <> (shell_quote password
        <> " psql -h 127.0.0.1 -p 5000 -U authentik -d authentik -tAc 'SELECT 1'")

abbrev pub running_cmd : String
running_cmd = "docker ps --filter status=running --format '{{.Names}}' | grep -qx haproxy"

abbrev pub compose_cmd : String
compose_cmd =
    "cd /opt/haproxy && docker compose down 2>/dev/null; cd /opt/haproxy && docker compose up -d"

abbrev pub hup_cmd : String
hup_cmd = "docker kill --signal=HUP haproxy"

-- A value that Python takes for true, if there is one.
unfoldable pub if_filled : Option Value → Option Value
unfolding truthy
if_filled none = none
if_filled (some v) = if truthy v then some v else none

module _ {W : Type 0} (remote : Remote W) (encoding : Encoding) (gen_password : Tokens W)
    (templates : Templates) where
  -- `_stats_password`
  unfoldable pub stats_password : Step W Value
  stats_password = pinned gen_password "haproxy_stats_password"

  abbrev pub plan_lines : List String
  plan_lines =
      "create /opt/haproxy/config on all nodes"
      ∷ "render haproxy.cfg (identical on all nodes): stats on :9000 (password pinned in state), :5000 → Patroni /primary, :5001 → /replica, on-marked-down shutdown-sessions, 1h client/server timeouts"
      ∷ "write docker-compose.yml (haproxy:3.0-alpine, network_mode: host)"
      ∷ "start/reload per guide semantics: HUP for cfg-only changes, down && up for compose changes"
      ∷ "verify: stats CSV shows 1 UP primary + 2 UP replicas on every node; end-to-end `SELECT 1` as authentik via 127.0.0.1:5000"
      ∷ []

  -- The container is started again, told to read its configuration again, or left alone.
  unfoldable pub refresh : Conn → (cfg_changed compose_changed running : Bool) → Step W (Unit {0})
  refresh conn cfg_changed compose_changed running =
      if not running || compose_changed
      then (run remote conn compose_cmd none 300 >>= add_reply conn "compose up")
      else if cfg_changed
      then (run remote conn hup_cmd none 30 >>= add_reply conn "live reload (HUP)")
      else add_check (plain conn.node.name "unchanged" true "config identical, container running")

  -- The body of the loop in `apply`.
  unfoldable pub set_up : String → Conn → Step W (Unit {0})
  set_up configuration conn = do
    r ← run remote conn "mkdir -p /opt/haproxy/config" none 30
    add_reply conn "directories" r
    cfg_changed ←
        push_file remote encoding conn configuration "/opt/haproxy/config/haproxy.cfg" "0644" none
    compose_changed ←
        push_file remote encoding conn templates.compose "/opt/haproxy/docker-compose.yml" "0644"
          none
    probe ← run remote conn running_cmd none 30
    refresh conn cfg_changed compose_changed (is_ok probe)

  unfoldable pub apply : Step W (Unit {0})
  apply s =
      (stats_password >>= λ password.
      each (set_up (templates.haproxy s.cfg.nodes password)) s.fleet.conns)
        s

  -- `continue` where the statistics do not answer; otherwise whether the backends converge.
  unfoldable pub converge : String → Conn → Bool → Step W Bool
  converge csv conn true = do
    converged ← wait_for remote conn (backends_cmd csv) none 90 5
    add_check (
        plain conn.node.name "backends: 1 UP primary + 2 UP replicas" converged
          (if converged then "" else "did not converge within 90s"))
    pure converged
  converge csv conn false = do
    add_check (plain conn.node.name "stats page answering" false "no CSV within 60s")
    pure false

  -- The body of the loop in `verify`.
  unfoldable pub check_node : String → Conn → Step W Bool
  check_node csv conn = wait_for remote conn (answers_cmd csv) none 60 5 >>= converge csv conn

  -- `ctx.state.data["generated"].get("authentik_db_password")`, where it is not empty.
  unfoldable pub database_password : Session W → Option Value
  database_password s = if_filled (Dict.lookup "authentik_db_password" s.state.document.generated)

  unfoldable pub works_through : Reply → Bool
  unfolding strip
  works_through r = is_ok r && strip r.out == "1"

  unfoldable pub select_one : Conn → Bool → String → Step W Bool
  select_one first ok password = do
    r ← run remote first (select_cmd password) none 30
    add_check (
        plain "cluster" "SELECT 1 via 127.0.0.1:5000 as authentik" (works_through r)
          (if works_through r then "full chain works" else r.err))
    pure (ok && works_through r)

  -- Without the password of the database there is only a warning.
  unfoldable pub end_to_end : Conn → Bool → Option Value → Step W Bool
  end_to_end first ok none = do
    add_check (record {
      node = "cluster";
      name = "end-to-end psql check";
      ok = false;
      detail = "authentik_db_password missing from state — run patroni phase first";
      warn = true;
    })
    pure ok
  end_to_end first ok (some password) = as_text password >>= select_one first ok

  -- The check over the first node, with the password that the state holds.
  unfoldable pub verify_chain : List Conn → Bool → Step W Bool
  verify_chain conns ok =
      first_conn conns >>= λ first s. end_to_end first ok (database_password s) s

  unfoldable pub verify : Step W Bool
  verify s =
      (do
        password ← stats_password
        text ← as_text password
        ok ← all_nodes (check_node (csv_cmd text)) true s.fleet.conns
        verify_chain s.fleet.conns ok)
        s

  abbrev pub haproxy : Phase W
  haproxy = record {
    name = "haproxy";
    read_only = false;
    optional = false;
    needs_confirm = pure true;
    plan = pure plan_lines;
    apply = apply;
    verify = verify;
  }
