-- ===== src/Lifecycle/Shutdown.antt =====
-- `AuthentikShutdownPhase` of akropolis/phases/authentik_lifecycle.py.
use akropolis.Base.{
  String, ◌<>◌, Bool, true, false, not, if◌then◌else◌, none, List, [], ◌∷◌, ◌++◌, length,
}
use akropolis.Base.Text.{decimal}
use akropolis.Effects.{return, pure, throw, ◌>>=◌, ◌>>◌}
use akropolis.Session.{Conn, Session, Step, plain, add_check}
use akropolis.Session.Remote.{Remote, Reply, is_ok, run}
use akropolis.Session.Loops.{each, all_nodes}
use akropolis.Lifecycle.{running, is_ha, scope}
use akropolis.Phases.{Phase}

kept_running : Bool → List String
kept_running true =
    "etcd, Patroni/PostgreSQL, HAProxy, nginx, and keepalived are left running untouched — only the authentik application containers stop"
    ∷ "the VIP stays up; nginx serves its maintenance page for the site until `akro start` brings authentik back"
    ∷ []
kept_running false =
    "the postgresql container in the same compose project is left running untouched — only server+worker stop"
    ∷ "the bare-metal nginx in front of the node is untouched and keeps running — it serves its maintenance page for the site until `akro start` brings authentik back"
    ∷ []

module _ {W : Type 0} where
  where_stopped : Session W → String
  unfolding is_ha decimal
  where_stopped s =
      if is_ha s then "all " <> (decimal (length s.fleet.conns) <> " nodes") else "the node"

  -- `plan`
  unfoldable pub plan : Session W → List String
  unfolding where_stopped kept_running is_ha
  plan s =
      (("gracefully stop authentik server+worker on "
          <> (where_stopped s
              <> " that are currently running (docker compose stop, 60s grace — lets in-flight requests and worker tasks finish; a no-op where already stopped)"))
        ∷ kept_running (is_ha s))
      ++ ("on success, unlocks `akro start` for this site (start refuses unless this command last completed gracefully)"
          ∷ [])

module _ {W : Type 0} (remote : Remote W) where
  -- `r.ok` is recorded; without it the loop ends.
  unfoldable pub conclude_stop : Conn → Reply → Step W (Unit {0})
  conclude_stop conn r =
      let node = conn.node.name in
      add_check (plain node "authentik stopped" (is_ok r) (if is_ok r then "" else r.err))
      >> (if is_ok r
          then pure tt
          else throw (
              "could not stop authentik on "
              <> (node <> " — cluster left in a mixed state; inspect and retry")))

  -- The body of the loop in `apply`.
  unfoldable pub stop_node : String → Conn → Step W (Unit {0})
  stop_node suffix conn = run remote conn running none 30 >>= λ probe.
      if not (is_ok probe)
      then add_check (plain conn.node.name "authentik already stopped" true "")
      else (run remote conn ("cd /opt/authentik && docker compose stop --timeout 60" <> suffix) none
            180
          >>= conclude_stop conn)

  unfoldable pub apply : Step W (Unit {0})
  apply s = each (stop_node (scope s)) s.fleet.conns s

  -- The body of the loop in `verify`.
  unfoldable pub is_stopped : Conn → Step W Bool
  is_stopped conn = run remote conn running none 30 >>= λ probe.
      add_check (plain conn.node.name "verify: authentik containers stopped" (not (is_ok probe)) "")
      >> pure (not (is_ok probe))

  unfoldable pub verify : Step W Bool
  verify s = all_nodes is_stopped true s.fleet.conns s

  abbrev pub shutdown : Phase W
  shutdown = record {
    name = "authentik-shutdown";
    read_only = false;
    optional = false;
    needs_confirm = pure true;
    plan = λ s. (return (plan s), s);
    apply = apply;
    verify = verify;
  }
