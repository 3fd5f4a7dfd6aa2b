-- ===== src/Preflight/Checks.antt =====
-- The checks of a node in akropolis/phases/preflight.py keep what has been recorded as failed.
use akropolis.Base.{
  String, Bool, true, false, not, ◌&&◌, ◌||◌, ◌==◌, string_eq, contains, none, some, List, [], ◌∷◌,
}
use akropolis.Config.Address.{Platform}
use akropolis.Effects.{Outcome, return, raise, exception, interrupt, pure}
use akropolis.Effects.Moves.{Moves, Moves-bind}
use akropolis.Session.{Conn, Step}
use akropolis.Session.Remote.{Remote, Reply, is_ok, connect}
use akropolis.Session.Loops.{each-Moves}
use akropolis.Session.Frame.{connect-Moves}
use akropolis.Lifecycle.{is_ha}
use akropolis.Preflight.Node.{
  Clock, Offsets, Footprint, judge_user, judge_uid, try_reach, on_reach, reach, check_release,
  judge_mtu, check_interface, keep_offset, check_clock, judge_disk, check_disk, check_ports, stands,
  single_nginx, add_artifacts, check_artifacts, ping_peer, check_path, if_ha, if_refusing,
  check_base, check_rest, check_reached, check_going, check_node, check_nodes,
}
use akropolis.Preflight.Frame.{
  Stays, Stays-checked, Stays-IsRespected, order, run_then, check_then, read_int_then, quiet,
  if_moves,
}

module _ {W : Type 0} (remote : Remote W) (platform : Platform) (clock : Clock W) where
  user-Moves :
      (conn : Conn) (become : Bool) (r : Reply)
      → Moves Stays (judge_user remote platform clock conn become r)
  unfolding judge_user
  user-Moves conn true r =
      run_then remote conn "id -u" (some true) 30 _
        λ r2. check_then remote _ (pure true) (quiet remote true)
  user-Moves conn false r = check_then remote _ (pure false) (quiet remote false)

  judge_uid-Moves : (conn : Conn) (r : Reply) → Moves Stays (judge_uid remote platform clock conn r)
  unfolding judge_uid
  judge_uid-Moves conn r =
      if_moves remote (is_ok r && r.out == "0") _ _
        (check_then remote _ (pure true) (quiet remote true)) (user-Moves conn conn.cfg.become r)

  try_reach-Moves : (conn : Conn) → Moves Stays (try_reach remote platform clock conn)
  unfolding try_reach
  try_reach-Moves conn =
      Moves-bind (order remote) (connect remote conn) _
        (connect-Moves remote (Stays-IsRespected remote) conn)
        λ _. run_then remote conn "id -u" none 30 _ (judge_uid-Moves conn)

  on_reach-Moves :
      (conn : Conn) (o : Outcome Bool) → Moves Stays (on_reach remote platform clock conn o)
  unfolding on_reach
  on_reach-Moves conn (return going) = record { at = λ s h. h }
  on_reach-Moves conn (raise (exception e)) = record {
    at = (check_then remote _ (pure false) (quiet remote false)).at;
  }
  on_reach-Moves conn (raise interrupt) = record { at = λ s h. h }

  reach-Moves : (conn : Conn) → Moves Stays (reach remote platform clock conn)
  unfolding reach
  reach-Moves conn = record {
    at = λ s h.
        let (o, t) = try_reach remote platform clock conn s in
        (on_reach-Moves conn o).at t ((try_reach-Moves conn).at s h);
  }

  release-Moves : (conn : Conn) → Moves Stays (check_release remote platform clock conn)
  unfolding check_release
  release-Moves conn =
      run_then remote conn ". /etc/os-release && echo $ID $VERSION_ID" none 30 _
        λ r. Stays-checked _

  interface-Moves : (conn : Conn) → Moves Stays (check_interface remote platform clock conn)
  unfolding check_interface judge_mtu
  interface-Moves conn = record {
    at = λ s.
        (run_then remote conn _ none 30 _ λ r.
            if_moves remote (not (is_ok r) || r.out == "") _ _ (Stays-checked _)
              (read_int_then remote r.out _ λ z. Stays-checked _)).at
          s;
  }

  clock-Moves :
      (conn : Conn) (offsets : Offsets)
      → Moves Stays (check_clock remote platform clock conn offsets)
  unfolding check_clock keep_offset
  clock-Moves conn offsets = run_then remote conn "date +%s" none 30 _ λ r.
      if_moves remote (is_ok r) _ _ (read_int_then remote r.out _ λ z. record { at = λ s h. h })
        (quiet remote offsets)

  disk-Moves :
      (conn : Conn) (midlife : Bool) → Moves Stays (check_disk remote platform clock conn midlife)
  unfolding check_disk judge_disk
  disk-Moves conn midlife =
      run_then remote conn "df --output=avail -BG / | tail -1 | tr -dc 0-9" none 30 _ λ r.
        if_moves remote (is_ok r && not (r.out == "")) _ _
          (read_int_then remote r.out _ λ z. Stays-checked _) (Stays-checked _)

  ports-Moves :
      (conn : Conn) (footprint : Footprint)
      → Moves Stays (check_ports remote platform clock conn footprint)
  unfolding check_ports
  ports-Moves conn footprint = run_then remote conn _ none 30 _ λ r. Stays-checked _

  stands-Moves :
      (conn : Conn) (footprint : Footprint) (name cmd : String)
      → Moves Stays (stands remote platform clock conn footprint name cmd)
  unfolding stands
  stands-Moves conn footprint name cmd =
      if_moves remote (contains footprint.finished name) _ _ (quiet remote false)
        (run_then remote conn cmd none 30 _ λ r. quiet remote (is_ok r))

  single_nginx-Moves :
      (conn : Conn) (footprint : Footprint)
      → Moves Stays (single_nginx remote platform clock conn footprint)
  unfolding single_nginx
  single_nginx-Moves conn footprint = record {
    at = λ s.
        (if_moves remote (is_ha s) _ _ (quiet remote false)
            (stands-Moves conn footprint "nginx" _)).at
          s;
  }

  add_artifacts-Moves :
      (conn : Conn) (midlife : Bool) (artifacts : List String)
      → Moves Stays (add_artifacts remote platform clock conn midlife artifacts)
  unfolding add_artifacts
  add_artifacts-Moves conn midlife [] = Stays-checked _
  add_artifacts-Moves conn midlife (a ∷ artifacts) = Stays-checked _

  artifacts-Moves :
      (conn : Conn) (footprint : Footprint)
      → Moves Stays (check_artifacts remote platform clock conn footprint)
  unfolding check_artifacts
  artifacts-Moves conn footprint =
      Moves-bind (order remote) (stands remote platform clock conn footprint _ _) _
        (stands-Moves conn footprint _ _)
        λ patroni. run_then remote conn _ none 30 _ λ r.
          Moves-bind (order remote) (stands remote platform clock conn footprint _ _) _
            (stands-Moves conn footprint _ _)
            λ keepalived.
              Moves-bind (order remote) (single_nginx remote platform clock conn footprint) _
                (single_nginx-Moves conn footprint) λ nginx. add_artifacts-Moves conn _ _

  ping_peer-Moves :
      (conn : Conn) (payload : String) (other : Conn)
      → Moves Stays (ping_peer remote platform clock conn payload other)
  unfolding ping_peer
  ping_peer-Moves conn payload other =
      if_moves remote (other.node.name == conn.node.name) _ _ (quiet remote tt)
        (run_then remote conn _ none 30 _ λ r. Stays-checked _)

  path-Moves : (conn : Conn) → Moves Stays (check_path remote platform clock conn)
  unfolding check_path
  path-Moves conn = record {
    at = λ s. (each-Moves (order remote) _ s.fleet.conns (ping_peer-Moves conn _)).at s;
  }

  if_ha-Moves :
      (m : Step W (Unit {0})) → Moves Stays m → Moves Stays (if_ha remote platform clock m)
  unfolding if_ha
  if_ha-Moves m k = record { at = λ s. (if_moves remote (is_ha s) m _ k (quiet remote tt)).at s }

  if_refusing-Moves :
      (m : Step W (Unit {0})) → Moves Stays m → Moves Stays (if_refusing remote platform clock m)
  unfolding if_refusing
  if_refusing-Moves m k = record {
    at = λ s. (if_moves remote s.cfg.refuse_existing m _ k (quiet remote tt)).at s;
  }

  base-Moves :
      (conn : Conn) (footprint : Footprint) (offsets : Offsets)
      → Moves Stays (check_base remote platform clock conn footprint offsets)
  unfolding check_base
  base-Moves conn footprint offsets =
      Moves-bind (order remote) (check_release remote platform clock conn) _ (release-Moves conn)
        λ _.
          Moves-bind (order remote)
            (if_ha remote platform clock (check_interface remote platform clock conn)) _
            (if_ha-Moves _ (interface-Moves conn))
            λ _.
              Moves-bind (order remote) (check_clock remote platform clock conn offsets) _
                (clock-Moves conn offsets)
                λ clocks.
                  Moves-bind (order remote) (check_disk remote platform clock conn _) _
                    (disk-Moves conn _) λ _. quiet remote clocks

  pub rest-Moves :
      (conn : Conn) (footprint : Footprint) (clocks : Offsets)
      → Moves Stays (check_rest remote platform clock conn footprint clocks)
  unfolding check_rest
  rest-Moves conn footprint clocks =
      Moves-bind (order remote)
        (if_refusing remote platform clock (check_artifacts remote platform clock conn footprint)) _
        (if_refusing-Moves _ (artifacts-Moves conn footprint))
        λ _.
          Moves-bind (order remote)
            (if_ha remote platform clock (check_path remote platform clock conn)) _
            (if_ha-Moves _ (path-Moves conn)) λ _. quiet remote clocks

  pub reached-Moves :
      (conn : Conn) (footprint : Footprint) (offsets : Offsets)
      → Moves Stays (check_reached remote platform clock conn footprint offsets)
  unfolding check_reached
  reached-Moves conn footprint offsets =
      Moves-bind (order remote) (check_base remote platform clock conn footprint offsets) _
        (base-Moves conn footprint offsets)
        λ clocks.
          Moves-bind (order remote) (check_ports remote platform clock conn footprint) _
            (ports-Moves conn footprint) λ _. rest-Moves conn footprint clocks

  pub going-Moves :
      (conn : Conn) (footprint : Footprint) (offsets : Offsets) (going : Bool)
      → Moves Stays (check_going remote platform clock conn footprint offsets going)
  unfolding check_going
  going-Moves conn footprint offsets true = reached-Moves conn footprint offsets
  going-Moves conn footprint offsets false = quiet remote offsets

  node-Moves :
      (conn : Conn) (footprint : Footprint) (offsets : Offsets)
      → Moves Stays (check_node remote platform clock conn footprint offsets)
  unfolding check_node
  node-Moves conn footprint offsets =
      Moves-bind (order remote) (reach remote platform clock conn) _ (reach-Moves conn)
        (going-Moves conn footprint offsets)

  pub nodes-Moves :
      (conns : List Conn) (footprint : Footprint) (offsets : Offsets)
      → Moves Stays (check_nodes remote platform clock conns footprint offsets)
  unfolding check_nodes
  nodes-Moves [] footprint offsets = quiet remote offsets
  nodes-Moves (conn ∷ conns) footprint offsets =
      Moves-bind (order remote) (check_node remote platform clock conn footprint offsets) _
        (node-Moves conn footprint offsets) (nodes-Moves conns footprint)
