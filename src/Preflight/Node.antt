-- ===== src/Preflight/Node.antt =====
-- The checks of one node in `PreflightPhase.apply` (akropolis/phases/preflight.py).
use akropolis.Base.{
  ℕ, ℤ, pos, negsuc, suc, ◌-◌, ◌+◌, ◌*◌, ltb, ltb_ℤ, String, ◌<>◌, Bool, true, false, not, ◌&&◌,
  ◌||◌, ◌==◌, string_eq, if◌then◌else◌, contains, Option, none, some, List, [], ◌∷◌, ◌++◌, any,
  keep,
}
use akropolis.Base.Dict
use akropolis.Base.Dict.{Dict}
use akropolis.Base.Lines.{split_lines, join}
use akropolis.Base.Text.{int_of_text}
use akropolis.Config.Address.{Platform, str_of, decimal_ℤ}
use akropolis.Effects.{Outcome, return, raise, exception, interrupt, pure, throw, ◌>>=◌, ◌>>◌}
use akropolis.Session.{Check, Conn, Step, plain, add_check}
use akropolis.Session.Remote.{Remote, Reply, is_ok, connect, run}
use akropolis.Session.Waiting.{occurs_in}
use akropolis.Session.Loops.{each}
use akropolis.Lifecycle.{is_ha}
use akropolis.Preflight.Tables.{
  phase_container, gather, listening_ports, occupied_ports, owned_ports, ports_detail, no_ports,
}

-- `time.time()` in milliseconds, and `f"{n / 1000:.1f}"`.
pub record Clock (W : Type 0) : Type 0 where
  pub milliseconds : W → ℕ
  pub tenths : ℕ → String

-- The offsets of the nodes' clocks from ours, in milliseconds.
abbrev pub Offsets : Type 0
Offsets = Dict ℤ

-- Names of the phases that are done, the ports that they own, and the ports that must be free.
pub record Footprint : Type 0 where
  pub finished : List String
  pub required : List ℕ
  pub expected : List ℕ

difference : ℕ → ℕ → ℤ
difference a b = if ltb a b then negsuc (b - a - 1) else pos (a - b)

-- `z - time.time()`
unfoldable pub offset_of : ℤ → ℕ → ℤ
unfolding difference
offset_of (pos n) now = difference (n * 1000) now
offset_of (negsuc n) now = negsuc (suc n * 1000 + now - 1)

eqb_ℤ : ℤ → ℤ → Bool
eqb_ℤ a b = not (ltb_ℤ a b) && not (ltb_ℤ b a)

-- `mtu - 28`
unfoldable pub payload_of : ℤ → ℤ
unfolding difference
payload_of (pos n) = difference n 28
payload_of (negsuc n) = negsuc (n + 28)

abbrev pub entry : String → String → Bool → String → Bool → Check
entry node name ok detail warn = record {
  node = node;
  name = name;
  ok = ok;
  detail = detail;
  warn = warn;
}

abbrev pub or_text : String → String → String
or_text a b = if a == "" then b else a

-- `bool(done)`
abbrev pub is_midlife : List String → Bool
is_midlife [] = false
is_midlife (name ∷ names) = true

abbrev pub ss_cmd : String
ss_cmd = "ss -Htln | awk '{print $4}'"

module _ {W : Type 0} where
  unfoldable pub read_given : String → Option ℤ → Step W ℤ
  read_given text (some z) = pure z
  read_given text none = throw ("invalid literal for int() with base 10: " <> text)

  -- `int(text)`, of a reply.
  unfoldable pub read_int : String → Step W ℤ
  unfolding int_of_text
  read_int text = read_given text (int_of_text text)

module _ {W : Type 0} (remote : Remote W) (platform : Platform) (clock : Clock W) where
  -- Not root: sudo where the site escalates, and otherwise `continue`.
  unfoldable pub judge_user : Conn → (become : Bool) → Reply → Step W Bool
  judge_user conn true r = do
    r2 ← run remote conn "id -u" (some true) 30
    add_check (
        plain conn.node.name "ssh + root/sudo" (is_ok r2 && r2.out == "0")
          (if is_ok r2 then "sudo -n works" else "sudo failed: " <> r2.err))
    pure true
  judge_user conn false r = do
    add_check (
        plain conn.node.name "ssh + root/sudo" false
          ("connected as uid " <> (r.out <> " without become=true")))
    pure false

  -- What follows `id -u`: root, or another user.
  unfoldable pub judge_uid : Conn → Reply → Step W Bool
  judge_uid conn r =
      if is_ok r && r.out == "0"
      then (add_check (
            plain conn.node.name "ssh + root/sudo" true
              ("uid 0 as " <> str_of platform conn.cfg.user))
          >> pure true)
      else judge_user conn conn.cfg.become r

  unfoldable pub try_reach : Conn → Step W Bool
  try_reach conn = do connect remote conn; r ← run remote conn "id -u" none 30; judge_uid conn r

  -- `except Exception`
  unfoldable pub on_reach : Conn → Outcome Bool → Step W Bool
  on_reach conn (return going) s = (return going, s)
  on_reach conn (raise (exception e)) s =
      (add_check (plain conn.node.name "ssh + root/sudo" false e) >> pure false) s
  on_reach conn (raise interrupt) s = (raise interrupt, s)

  -- Check 1: whether to go on with the node.
  unfoldable pub reach : Conn → Step W Bool
  reach conn s = let (o, t) = try_reach conn s in on_reach conn o t

  -- Check 2.
  unfoldable pub check_release : Conn → Step W (Unit {0})
  check_release conn = do
    r ← run remote conn ". /etc/os-release && echo $ID $VERSION_ID" none 30
    let same = r.out == "ubuntu 24.04"
    add_check (entry conn.node.name "os release" same (or_text r.out r.err) (not same))

  unfoldable pub judge_mtu : Conn → String → ℤ → ℤ → Step W (Unit {0})
  unfolding eqb_ℤ decimal_ℤ
  judge_mtu conn interface expected mtu = add_check (
      plain conn.node.name ("MTU on " <> interface) (eqb_ℤ mtu expected)
        (decimal_ℤ mtu <> (" (expected " <> (decimal_ℤ expected <> ")"))))

  -- Check 3.
  unfoldable pub check_interface : Conn → Step W (Unit {0})
  unfolding judge_mtu
  check_interface conn s =
      let interface = str_of platform s.cfg.network.interface in
      (run remote conn ("cat /sys/class/net/" <> (interface <> "/mtu 2>/dev/null")) none 30 >>= λ r.
      if not (is_ok r) || r.out == ""
      then add_check (plain conn.node.name ("interface " <> interface) false "interface not found")
      else (read_int r.out >>= judge_mtu conn interface s.cfg.network.expected_mtu))
        s

  unfoldable pub keep_offset : Conn → Offsets → ℤ → Step W Offsets
  unfolding Dict.insert offset_of
  keep_offset conn offsets z s =
      (return (Dict.insert conn.node.name (offset_of z (clock.milliseconds s.world)) offsets), s)

  -- Check 4.
  unfoldable pub check_clock : Conn → Offsets → Step W Offsets
  unfolding keep_offset
  check_clock conn offsets = run remote conn "date +%s" none 30 >>= λ r.
      if is_ok r then (read_int r.out >>= keep_offset conn offsets) else pure offsets

  unfoldable pub judge_disk : Conn → (midlife : Bool) → ℤ → Step W (Unit {0})
  unfolding decimal_ℤ
  judge_disk conn midlife free =
      let low = ltb_ℤ free (pos 20) in
      add_check (
        entry conn.node.name "free disk on /" (not low)
          (decimal_ℤ free
            <> (" GB free (need ≥ 20"
                <> (if low && midlife
                    then ", warning only — cluster already provisioned)"
                    else ")")))
          (low && midlife))

  -- Check 5.
  unfoldable pub check_disk : Conn → (midlife : Bool) → Step W (Unit {0})
  unfolding judge_disk
  check_disk conn midlife =
      run remote conn "df --output=avail -BG / | tail -1 | tr -dc 0-9" none 30 >>= λ r.
      if is_ok r && not (r.out == "")
      then (read_int r.out >>= judge_disk conn midlife)
      else add_check (plain conn.node.name "free disk on /" false (or_text r.err "df failed"))

  -- Check 6.
  unfoldable pub check_ports : Conn → Footprint → Step W (Unit {0})
  check_ports conn footprint = do
    r ← run remote conn ss_cmd none 30
    let occupied = occupied_ports footprint.required (listening_ports r.out) footprint.expected
    let owned = owned_ports footprint.required (listening_ports r.out) footprint.expected
    add_check (
        plain conn.node.name "required ports free" (no_ports occupied)
          (ports_detail occupied owned))

  -- `name not in done and conn.run(cmd).ok`
  unfoldable pub stands : Conn → Footprint → (name cmd : String) → Step W Bool
  stands conn footprint name cmd =
      if contains footprint.finished name
      then pure false
      else (run remote conn cmd none 30 >>= λ r. pure (is_ok r))

  abbrev pub listed : Bool → String → List String
  listed found name = if found then name ∷ [] else []

  -- The names that no container of a finished phase has in it.
  unfoldable pub foreign_names : List String → String → List String
  unfolding split_lines
  foreign_names finished out =
      keep
        (λ name.
          not (name == "")
          && not (any (λ part. occurs_in part name) (gather phase_container finished)))
        (split_lines out)

  containers_listed : List String → List String
  unfolding join
  containers_listed [] = []
  containers_listed (name ∷ names) = ("containers: " <> join ", " (name ∷ names)) ∷ []

  -- A site that is not HA is single: `topology == "single" and "nginx" not in done and ...`
  unfoldable pub single_nginx : Conn → Footprint → Step W Bool
  single_nginx conn footprint s =
      (if is_ha s
          then pure false
          else stands conn footprint "nginx" "systemctl is-enabled nginx >/dev/null 2>&1")
        s

  unfoldable pub add_artifacts : Conn → (midlife : Bool) → List String → Step W (Unit {0})
  unfolding join
  add_artifacts conn midlife [] =
      add_check (entry conn.node.name "no existing cluster artifacts" true "clean host" false)
  add_artifacts conn midlife (a ∷ artifacts) = add_check (
      entry conn.node.name "no existing cluster artifacts" false (join "; " (a ∷ artifacts))
        midlife)

  -- Check 7.
  unfoldable pub check_artifacts : Conn → Footprint → Step W (Unit {0})
  unfolding containers_listed single_nginx add_artifacts
  check_artifacts conn footprint = do
    patroni ← stands conn footprint "patroni" "test -e /etc/patroni"
    r ←
        run remote conn
          "command -v docker >/dev/null && docker ps --format '{{.Names}}' | grep -Ei 'authentik|etcd|haproxy|nginx' || true"
          none 30
    keepalived ←
        stands conn footprint "nginx-keepalived" "systemctl is-enabled keepalived >/dev/null 2>&1"
    nginx ← single_nginx conn footprint
    add_artifacts conn (is_midlife footprint.finished) (
        listed patroni "/etc/patroni"
        ++ (containers_listed (foreign_names footprint.finished r.out)
            ++ (listed keepalived "keepalived enabled" ++ listed nginx "nginx enabled")))

  -- One peer of check 8.
  unfoldable pub ping_peer : Conn → (payload : String) → Conn → Step W (Unit {0})
  ping_peer conn payload other = if other.node.name == conn.node.name then pure tt else (do
    r ← run remote conn ("ping -c 2 -W 2 -M do -s " <> (payload <> (" " <> other.node.ip))) none 30
    add_check (
        plain conn.node.name ("MTU path → " <> other.node.name) (is_ok r)
          (if is_ok r then payload <> "B payload, DF set" else "fragmentation or no path")))

  -- Check 8.
  unfoldable pub check_path : Conn → Step W (Unit {0})
  unfolding decimal_ℤ
  check_path conn s =
      each (ping_peer conn (decimal_ℤ (payload_of s.cfg.network.expected_mtu))) s.fleet.conns s

  -- A check of the three nodes' site alone.
  unfoldable pub if_ha : Step W (Unit {0}) → Step W (Unit {0})
  if_ha m s = (if is_ha s then m else pure tt) s

  unfoldable pub if_refusing : Step W (Unit {0}) → Step W (Unit {0})
  if_refusing m s = (if s.cfg.refuse_existing then m else pure tt) s

  -- Checks 2 to 5.
  unfoldable pub check_base : Conn → Footprint → Offsets → Step W Offsets
  check_base conn footprint offsets = do
    check_release conn
    if_ha (check_interface conn)
    clocks ← check_clock conn offsets
    check_disk conn (is_midlife footprint.finished)
    pure clocks

  -- Checks 7 and 8.
  unfoldable pub check_rest : Conn → Footprint → Offsets → Step W Offsets
  check_rest conn footprint clocks = do
    if_refusing (check_artifacts conn footprint)
    if_ha (check_path conn)
    pure clocks

  unfoldable pub check_reached : Conn → Footprint → Offsets → Step W Offsets
  check_reached conn footprint offsets = do
    clocks ← check_base conn footprint offsets
    check_ports conn footprint
    check_rest conn footprint clocks

  -- The body of the loop over the nodes.
  unfoldable pub check_going : Conn → Footprint → Offsets → Bool → Step W Offsets
  check_going conn footprint offsets true = check_reached conn footprint offsets
  check_going conn footprint offsets false = pure offsets

  unfoldable pub check_node : Conn → Footprint → Offsets → Step W Offsets
  check_node conn footprint offsets = reach conn >>= check_going conn footprint offsets

  unfoldable pub check_nodes : List Conn → Footprint → Offsets → Step W Offsets
  check_nodes [] footprint offsets = pure offsets
  check_nodes (conn ∷ conns) footprint offsets =
      check_node conn footprint offsets >>= λ clocks. check_nodes conns footprint clocks
