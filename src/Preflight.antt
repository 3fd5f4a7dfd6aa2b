-- ===== src/Preflight.antt =====
-- `PreflightPhase` of akropolis/phases/preflight.py.
pub mod Tables
pub mod Node
pub mod Frame
pub mod Checks
pub mod Ports
pub mod Ready
pub mod Passed
pub mod Tests
use akropolis.Base.{
  ℕ, ℤ, pos, negsuc, ◌-◌, ◌+◌, leb, ltb_ℤ, pos_part, neg_part, length, String, ◌<>◌, Bool, true,
  false, not, ◌&&◌, ◌||◌, ◌==◌, string_eq, if◌then◌else◌, contains, Option, none, some, List, [],
  ◌∷◌, ◌++◌, any, keep, map,
}
use akropolis.Base.Lines.{split_lines, join}
use akropolis.Base.Text.{decimal, quoted}
use akropolis.Value.{Value, str, is_text, truthy}
use akropolis.State.{phase_status}
use akropolis.Config.Address.{Platform, str_of, shown, decimal_ℤ}
use akropolis.Effects.{Outcome, return, raise, exception, interrupt, pure, throw, ◌>>=◌, ◌>>◌}
use akropolis.Session.{Check, Conn, Session, Step, plain, add_check}
use akropolis.Session.Remote.{Remote, Reply, is_ok, run}
use akropolis.Lifecycle.{is_ha}
use akropolis.Phases.{Phase}
use akropolis.Preflight.Tables.{
  required_free_ports, required_free_ports_single, ha_phases, single_phases, phase_ports, gather,
}
use akropolis.Preflight.Node.{Clock, Offsets, Footprint, entry, check_nodes}

module _ {W : Type 0} where
  abbrev pub required_ports : Session W → List ℕ
  required_ports s = if is_ha s then required_free_ports else required_free_ports_single

  -- `{p for p in PHASES_BY_TOPOLOGY[topology] if phase_status(p) == "done"}`
  unfoldable pub finished_phases : Session W → List String
  finished_phases s =
      keep (λ name. phase_status name s.state == "done")
        (if is_ha s then ha_phases else single_phases)

  unfoldable pub footprint_of : Session W → Footprint
  footprint_of s = record {
    finished = finished_phases s;
    required = required_ports s;
    expected = gather (phase_ports (is_ha s)) (finished_phases s);
  }

  -- `cfg.tls.provider != "none" and cfg.tls.hostname`
  unfoldable pub has_name : Session W → Bool
  unfolding truthy
  has_name s = not (is_text s.cfg.tls.provider "none") && truthy s.cfg.tls.hostname

  abbrev pub is_acme : Session W → Bool
  is_acme s = is_text s.cfg.tls.provider "acme"

largest : ℤ → List ℤ → ℤ
largest a [] = a
largest a (b ∷ bs) = if ltb_ℤ a b then largest b bs else largest a bs

smallest : ℤ → List ℤ → ℤ
smallest a [] = a
smallest a (b ∷ bs) = if ltb_ℤ b a then smallest b bs else smallest a bs

-- `max(offsets) - min(offsets)`, in milliseconds; none below two offsets.
unfoldable pub skew_of : List ℤ → Option ℕ
unfolding largest smallest
skew_of [] = none
skew_of (a ∷ []) = none
skew_of (a ∷ b ∷ offsets) =
    let high = largest a (b ∷ offsets) in
    let low = smallest a (b ∷ offsets) in
    some ((pos_part high + neg_part low) - (pos_part low + neg_part high))

-- `resolved or 'nothing'` in a text.
shown_names : List String → String
unfolding join
shown_names [] = "nothing"
shown_names (name ∷ names) = "[" <> (join ", " (map quoted (name ∷ names)) <> "]")

module _ {W : Type 0} (remote : Remote W) (platform : Platform) (clock : Clock W) where
  unfoldable pub judge_skew : Option ℕ → Step W (Unit {0})
  judge_skew none = pure tt
  judge_skew (some skew) =
      add_check (
        plain "cluster" "clock skew" (leb skew 5000) (clock.tenths skew <> "s across nodes (≤ 5s)"))

  unfoldable pub check_skew : Offsets → Step W (Unit {0})
  check_skew offsets = judge_skew (skew_of (map (λ e. e.1) offsets))

  -- `except Exception: record(..., warn)`
  unfoldable pub on_caught :
      (name : String) → (warn : Bool) → Outcome (Unit {0}) → Step W (Unit {0})
  on_caught name warn (return done) s = (return done, s)
  on_caught name warn (raise (exception message)) s =
      add_check (entry "cluster" name false message warn) s
  on_caught name warn (raise interrupt) s = (raise interrupt, s)

  unfoldable pub caught : (name : String) → (warn : Bool) → Step W (Unit {0}) → Step W (Unit {0})
  caught name warn m s = let (o, t) = m s in on_caught name warn o t

  unfoldable pub judge_vip : (vip : String) → (deployed : Bool) → Reply → Step W (Unit {0})
  judge_vip vip true r = add_check (
      plain "cluster" "VIP owned by cluster" (is_ok r) (
        if is_ok r
        then "answering (good — keepalived deployed)"
        else vip <> " not answering — keepalived unhealthy?"))
  judge_vip vip false r = add_check (
      plain "cluster" "VIP unclaimed" (not (is_ok r))
        (if not (is_ok r) then "no reply (good)" else vip <> " is answering — something owns it"))

  unfoldable pub check_vip : Conn → Footprint → Step W (Unit {0})
  unfolding judge_vip
  check_vip first footprint s =
      let vip = s.cfg.network.vip in
      caught "VIP check" true
        (run remote first ("ping -c 1 -W 1 " <> vip) none 30
          >>= judge_vip vip (contains footprint.finished "nginx-keepalived"))
        s

  -- `r.out.splitlines() if r.ok else []`
  unfoldable pub resolved_names : Reply → List String
  unfolding split_lines
  resolved_names r = if is_ok r then split_lines r.out else []

  abbrev pub is_none : List String → Bool
  is_none [] = true
  is_none (name ∷ names) = false

  unfoldable pub dns_detail : Session W → List String → String
  unfolding shown_names
  dns_detail s resolved =
      if not (is_ha s)
      then "resolves to "
        <> (shown_names resolved <> " — NAT: verify this is the right target by hand")
      else "resolves to "
        <> (shown_names resolved
            <> (if contains resolved s.cfg.network.vip
                then " — the VIP itself (resolved directly, no NAT in front)"
                else if not (is_none resolved)
                then " — not the VIP ("
                  <> (s.cfg.network.vip
                      <> "); fine if that address forwards :80/:443 to it, verify by hand")
                else ""))

  -- The check of the name, for both topologies.
  unfoldable pub check_dns : Conn → Step W (Unit {0})
  unfolding dns_detail
  check_dns first s =
      let hostname = str_of platform s.cfg.tls.hostname in
      let name = "DNS " <> (hostname <> " resolves") in
      if has_name s
      then caught name (not (is_acme s))
          (run remote first ("getent ahostsv4 " <> (hostname <> " | awk '{print $1}' | sort -u"))
              none 30
            >>= λ r. add_check (
                entry "cluster" name (not (is_none (resolved_names r)))
                  (dns_detail s (resolved_names r))
                  (is_none (resolved_names r) && not (is_acme s))))
          s
      else (return tt, s)

  -- Whether the first node was reached.
  unfoldable pub was_reached : String → List Check → Bool
  was_reached node checks =
      any (λ c. c.node == node && (c.name == "ssh + root/sudo" && c.ok)) checks

  -- The checks of the VIP and of the name, from the first node.
  unfoldable pub check_first : Conn → Footprint → Step W (Unit {0})
  check_first first footprint s =
      if was_reached first.node.name s.checks
      then ((if is_ha s then check_vip first footprint else pure tt) >> check_dns first) s
      else add_check
          (plain "cluster" "VIP / DNS checks" false
            ("skipped — " <> (first.node.name <> " unreachable")))
          s

  unfoldable pub check_cluster : List Conn → Footprint → Step W (Unit {0})
  check_cluster [] footprint = throw "list index out of range"
  check_cluster (first ∷ conns) footprint = check_first first footprint

  unfoldable pub apply : Step W (Unit {0})
  apply s =
      (do
        offsets ← check_nodes remote platform clock s.fleet.conns (footprint_of s) []
        check_skew offsets
        check_cluster s.fleet.conns (footprint_of s))
        s

  -- `[c for c in ctx.checks if not c.ok and not c.warn]`, as a test for any.
  unfoldable pub has_failure : List Check → Bool
  has_failure checks = any (λ c. not c.ok && not c.warn) checks

  unfoldable pub verify : Step W Bool
  verify s = (return (not (has_failure s.checks)), s)

  unfoldable pub plan : Session W → List String
  unfolding join decimal_ℤ
  plan s =
      let ha = is_ha s in
      (("SSH to "
          <> (decimal (length s.cfg.nodes)
              <> (" node(s) as "
                  <> (shown platform s.cfg.ssh.user
                      <> (" (auth: "
                          <> (str_of platform s.cfg.ssh.auth <> ") and run read-only checks:"))))))
        ∷ (if ha
            then "reachability + sudo, OS release, interface "
              <> (shown platform s.cfg.network.interface
                  <> (" exists with MTU " <> decimal_ℤ s.cfg.network.expected_mtu))
            else "reachability + sudo, OS release")
        ∷ "≥ 20 GB free on /"
        ∷ ("required ports free: " <> join ", " (map decimal (required_ports s)))
        ∷ [])
      ++ ((if ha
            then "clock skew across nodes ≤ 5s (Patroni/etcd are sensitive to it)"
              ∷ ("VIP " <> (s.cfg.network.vip <> " is unclaimed"))
              ∷ "inter-node MTU path (ping with DF bit at expected MTU)"
              ∷ []
            else [])
          ++ ((if s.cfg.refuse_existing
                then ("REFUSE any node with existing cluster artifacts ("
                    <> ((if ha
                          then "/etc/patroni, ak containers, keepalived"
                          else "ak containers (authentik/postgres)")
                        <> ")"))
                  ∷ []
                else [])
              ++ ((("state-aware: footprint of already-completed phases (ports, containers"
                      <> ((if ha then ", VIP" else "") <> ") is expected, not a failure"))
                    ∷ [])
                  ++ (if has_name s
                      then ("DNS: "
                          <> (str_of platform s.cfg.tls.hostname
                              <> (" resolves to *something* ("
                                  <> ((if is_acme s then "hard requirement" else "warning only")
                                      <> (") — NAT means akropolis cannot verify the address it returns actually reaches "
                                          <> ((if ha then "the VIP" else "THIS node's public IP")
                                              <> "; check that by hand"))))))
                        ∷ []
                      else []))))

  abbrev pub preflight : Phase W
  preflight = record {
    name = "preflight";
    read_only = true;
    optional = false;
    needs_confirm = pure false;
    plan = λ s. (return (plan s), s);
    apply = apply;
    verify = verify;
  }
