-- ===== src/Clean.antt =====
-- akropolis/phases/clean_phase.py: the teardown to bare machines.
pub mod Tables
pub mod Bare
pub mod Command
pub mod Guard
pub mod Tests
use akropolis.Base.{
  String, ◌<>◌, Bool, true, not, ◌&&◌, string_eq, if◌then◌else◌, none, some, Option, List, [], ◌∷◌,
  ◌++◌, map,
}
use akropolis.Base.Dict
use akropolis.Base.Lines.{join}
use akropolis.Value.{is_text}
use akropolis.Config.Address.{Platform, str_of}
use akropolis.State.{fresh_data}
use akropolis.State.Saving.{Disk, StateFile}
use akropolis.Effects.{pure, throw, return, ◌>>=◌, ◌>>◌}
use akropolis.Session.{Conn, Session, Step, plain, add_check}
use akropolis.Session.Remote.{Remote, Reply, is_ok, run, add_reply}
use akropolis.Session.Waiting.{occurs_in}
use akropolis.Session.Loops.{each, all_nodes}
use akropolis.Lifecycle.{is_ha}
use akropolis.Clean.Tables.{steps, steps_single, gone, gone_single}

module _ {W : Type 0} where
  unfoldable pub steps_of : Session W → List (String × String)
  steps_of s = if is_ha s then steps else steps_single

  unfoldable pub gone_of : Session W → List (String × String)
  gone_of s = if is_ha s then gone else gone_single

  -- `plan`, with the markup of the terminal left in the text.
  unfoldable pub plan : Platform → Session W → List String
  unfolding join
  plan platform s =
      (("[red]DESTRUCTIVE[/red]: tear site [bold]"
          <> (str_of platform s.cfg.name
              <> ("[/bold] ("
                  <> (join ", " (map (λ n. n.name) s.cfg.nodes) <> ") down to bare VMs"))))
        ∷ (if is_ha s
            then "reverse build order: keepalived/VIP → nginx → authentik → haproxy → patroni + ALL postgres data → etcd + data → TLS material → UFW reset (ssh kept) → /etc/hosts block → /tmp dump leftovers"
            else "bare-metal nginx (disabled, config/certs/webroots removed) → authentik + its containerized postgres (one compose project, docker compose down -v drops the named volume too) → TLS material → akropolis-backup-fw unit + DOCKER-USER rules removed (if backup.ips was ever configured) → UFW reset (ssh kept) → /etc/hosts block → /tmp dump leftovers")
        ∷ ("packages (docker, postgresql-16"
            <> ((if is_ha s then ", keepalived, certbot" else ", nginx, certbot")
                <> ") and the hostname are left alone — data and config removal is what makes the next provision honest"))
        ∷ [])
      ++ (if is_ha s
          then ("the VIP is released with the first step — anything still pointing at "
              <> (s.cfg.network.vip <> " goes dark immediately"))
            ∷ []
          else [])
      ++ (("local state archived to "
            <> (s.cfg.state_file
                <> ".cleaned-<ts> then removed → next provision regenerates every secret from scratch"))
          ∷ [])

-- `sf.replace(archive)` and `archive.chmod(0o600)`
unfoldable pub archive_file : String → StateFile → Disk → Disk
archive_file name f d = record d {
  file = none;
  siblings = Dict.insert name (record { content = f.content; owner_only = true }) d.siblings;
}

-- `stamp` is `time.strftime("%Y%m%d-%H%M%S")`.
module _ {W : Type 0} (remote : Remote W) (stamp : W → String) where
  -- A firewall that would not reset ends the run.
  unfoldable pub guard_ufw : Conn → String → Reply → Step W (Unit {0})
  guard_ufw conn label r =
      if not (is_ok r) && occurs_in "ufw" label
      then throw (
          conn.node.name
          <> ": ufw reset failed — stopping before anything can strand the SSH session")
      else pure tt

  -- The body of the inner loop of `apply`.
  unfoldable pub take_step : Conn → String × String → Step W (Unit {0})
  take_step conn step = do
    r ← run remote conn step.1 none 300
    add_reply conn step.0 r
    guard_ufw conn step.0 r

  -- The inner loop of `apply`.
  unfoldable pub tear_down : List (String × String) → Conn → Step W (Unit {0})
  tear_down steps conn = each (take_step conn) steps

  -- The new data: this in-memory state would save the old secrets again.
  forget : Session W → Session W
  forget s = record s { state = record s.state { document = fresh_data s.state.site_name } }

  archive : String → StateFile → Step W (Unit {0})
  unfolding archive_file forget
  archive name f s =
      add_check (plain "workstation" "state archived + removed" true name)
        (forget (record s { state = record s.state { disk = archive_file name f s.state.disk } }))

  -- `if sf.exists()`
  unfoldable pub archive_found : Option StateFile → Step W (Unit {0})
  unfolding archive
  archive_found none s = add_check (plain "workstation" "state file" true "already absent") s
  archive_found (some f) s = archive (s.state.disk.path <> (".cleaned-" <> stamp s.world)) f s

  -- The state file of the workstation, after the nodes.
  unfoldable pub archive_state : Step W (Unit {0})
  archive_state s = archive_found s.state.disk.file s

  unfoldable pub apply : Step W (Unit {0})
  apply s = (each (tear_down (steps_of s)) s.fleet.conns >> archive_state) s

  -- The body of the inner loop of `verify`.
  unfoldable pub is_gone : Conn → String × String → Step W Bool
  is_gone conn check = do
    r ← run remote conn check.1 none 30
    add_check (
        plain conn.node.name ("verify gone: " <> check.0) (is_ok r)
          (if is_ok r then "" else "still present"))
    pure (is_ok r)

  -- The inner loop of `verify`.
  unfoldable pub is_bare : List (String × String) → Conn → Step W Bool
  is_bare checks conn = all_nodes (is_gone conn) true checks

  unfoldable pub verify : Step W Bool
  verify s = all_nodes (is_bare (gone_of s)) true s.fleet.conns s
