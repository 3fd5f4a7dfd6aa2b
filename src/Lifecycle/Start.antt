-- ===== src/Lifecycle/Start.antt =====
-- `AuthentikStartPhase` of akropolis/phases/authentik_lifecycle.py.
use akropolis.Base.{
  String, ◌<>◌, Bool, true, false, ◌&&◌, ◌||◌, ◌==◌, string_eq, if◌then◌else◌, none, List, [], ◌∷◌,
  length,
}
use akropolis.Base.Dict
use akropolis.Base.Dict.{Dict}
use akropolis.Base.Text.{decimal}
use akropolis.State.{State, Entry, phase_status}
use akropolis.Effects.{return, pure, throw, ◌>>=◌, ◌>>◌}
use akropolis.Session.{Conn, Session, Step, plain, add_check}
use akropolis.Session.Remote.{Remote, Reply, is_ok, run}
use akropolis.Session.Waiting.{wait_healthy, dump_logs}
use akropolis.Session.Loops.{each, all_nodes}
use akropolis.Lifecycle.{is_ha, scope}
use akropolis.Phases.{Phase}
use akropolis.Phases.Runner.{mark}

-- `_gate`
abbrev pub gate : State → String
gate st = phase_status "authentik-shutdown" st

-- What `verify` sends, with port 9443 of `_ready_port`.
abbrev pub ready_probe : String
ready_probe = "curl -sk -o /dev/null -w '%{http_code}' https://127.0.0.1:9443/-/health/ready/"

detail_of : Entry → String
unfolding Dict.get_or
detail_of entry =
    let changed = Dict.get_or "updated_at" "" entry in
    let note = Dict.get_or "note" "" entry in
    if changed == ""
    then ""
    else ", last changed " <> (changed <> (if note == "" then "" else " (" <> (note <> ")")))

-- `_gate_detail`
unfoldable pub gate_detail : State → String
unfolding detail_of Dict.get_or
gate_detail st = detail_of (Dict.get_or "authentik-shutdown" [] st.document.phases)

unfoldable pub refusal : State → String
refusal st =
    "no completed graceful shutdown on record (authentik-shutdown: "
    <> (gate st <> (gate_detail st <> ") — run `akro shutdown <config>` first"))

module _ {W : Type 0} where
  first_line : Session W → String
  unfolding is_ha decimal
  first_line s =
      if is_ha s
      then "start authentik worker+server on all "
        <> (decimal (length s.fleet.conns)
            <> " nodes, one node at a time — docker compose up -d, health-gated before moving to the next node (worker starts first within a node; server's depends_on: worker: condition: service_healthy handles that ordering automatically)")
      else "start authentik worker+server on the node — docker compose up -d server worker (postgresql, left running by `shutdown`, is untouched); server and worker come up concurrently once postgresql reports healthy"

  -- `plan`
  unfoldable pub plan : Session W → List String
  unfolding first_line
  plan s =
      if gate s.state == "done"
      then first_line s
        ∷ "clears the graceful-shutdown flag on success, so a further `start` without an intervening `shutdown` is refused"
        ∷ []
      else ("[red]refusing[/red]: no completed graceful shutdown on record (authentik-shutdown: "
          <> (gate s.state
              <> (gate_detail s.state
                  <> ") — run `akro shutdown <config>` first; apply will refuse")))
        ∷ []

module _ {W : Type 0} (remote : Remote W) where
  -- A node that never became healthy: its logs, and the loop ends.
  give_up : Conn → Step W (Unit {0})
  give_up conn =
      dump_logs remote conn "worker"
      >> dump_logs remote conn "server"
      >> throw
          (conn.node.name <> " never became healthy — stopping before starting the remaining nodes")

  await_node : Conn → Step W (Unit {0})
  unfolding give_up
  await_node conn = wait_healthy remote conn 900 >>= λ good.
      add_check (plain conn.node.name "healthy" good (if good then "" else "never reached healthy"))
      >> (if good then pure tt else give_up conn)

  started : Conn → Reply → Step W (Unit {0})
  unfolding await_node
  started conn r =
      add_check
        (plain conn.node.name "authentik starting" (is_ok r) (if is_ok r then "" else r.err))
      >> (if is_ok r
          then await_node conn
          else throw ("could not start authentik on " <> conn.node.name))

  -- The body of the loop in `apply`.
  unfoldable pub start_node : String → Conn → Step W (Unit {0})
  unfolding started
  start_node suffix conn =
      run remote conn ("cd /opt/authentik && docker compose up -d" <> suffix) none 1800
      >>= started conn

  -- After the loop: the shutdown is used up.
  unfoldable pub clear_flag : Step W (Unit {0})
  clear_flag s = (
    return tt,
    mark remote "authentik-shutdown" "started"
        (("note", "cleared by a successful `akro start`") ∷ []) s,
  )

  unfoldable pub start_all : Step W (Unit {0})
  start_all s = (each (start_node (scope s)) s.fleet.conns >> clear_flag) s

  unfoldable pub apply : Step W (Unit {0})
  apply s = if gate s.state == "done" then start_all s else throw (refusal s.state) s

  -- `r.out in ("200", "204")`
  abbrev pub is_ready : String → Bool
  is_ready code = code == "200" || code == "204"

  unfoldable pub ready_check : Conn → Bool → Reply → Step W Bool
  ready_check conn good r =
      add_check
        (plain conn.node.name "verify: /-/health/ready/" (is_ready r.out) ("HTTP " <> r.out))
      >> pure (good && is_ready r.out)

  -- The body of the loop in `verify`.
  unfoldable pub is_up : Conn → Step W Bool
  unfolding ready_check
  is_up conn = wait_healthy remote conn 60 >>= λ good.
      add_check (plain conn.node.name "verify: containers healthy" good "")
      >> run remote conn ready_probe none 30
      >>= ready_check conn good

  unfoldable pub verify : Step W Bool
  verify s = all_nodes is_up true s.fleet.conns s

  abbrev pub start : Phase W
  start = record {
    name = "authentik-start";
    read_only = false;
    optional = false;
    needs_confirm = pure true;
    plan = λ s. (return (plan s), s);
    apply = apply;
    verify = verify;
  }
