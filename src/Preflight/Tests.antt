-- ===== src/Preflight/Tests.antt =====
-- Runs of akropolis/phases/preflight.py, and its theorems there.
use akropolis.Base.{
  ◌≡◌, refl, ℕ, ◌+◌, ◌*◌, pos, String, true, false, string_eq, if◌then◌else◌, [], ◌∷◌, All,
}
use akropolis.Base.Dict
use akropolis.Base.Lines.{split_lines, join}
use akropolis.Base.Text.{strip, shell_quote, decimal, int_of_text}
use akropolis.Value.{truthy}
use akropolis.State.{phase_status, fresh_data}
use akropolis.Config.Address.{Platform, str_of, decimal_ℤ}
use akropolis.Effects.{return}
use akropolis.Session.{Session, add_check}
use akropolis.Session.Remote.{
  Remote, Reply, run, ensure_connected, connect, mark_connected, exec_sent, log_reply, stripped,
  escalate, secret_of,
}
use akropolis.Session.Waiting.{occurs_in}
use akropolis.Session.Loops.{each}
use akropolis.Session.Samples.{fresh_session}
use akropolis.Lifecycle.{is_ha}
use akropolis.Preflight.Tables.{
  phase_ports, phase_container, listens, after_colon, listening_ports, put_in_order, sorted,
  occupied_ports, owned_ports, shown_ports, ports_detail,
}
use akropolis.Preflight.Node.{
  Clock, offset_of, read_given, read_int, judge_user, judge_uid, try_reach, on_reach, reach,
  check_release, keep_offset, check_clock, judge_disk, check_disk, check_ports, stands,
  foreign_names, single_nginx, add_artifacts, check_artifacts, check_path, if_ha, if_refusing,
  check_base, check_rest, check_reached, check_going, check_node, check_nodes,
}
use akropolis.Preflight.Ready.{IsReady}
use akropolis.Preflight.Passed.{preflight-IsReady}
use akropolis.Preflight.{
  finished_phases, footprint_of, has_name, skew_of, judge_skew, check_skew, check_dns, was_reached,
  check_first, check_cluster, apply, has_failure, verify,
}

program : Unit {0}
unfolding Dict.lookup Dict.get_or Dict.insert split_lines join strip shell_quote decimal int_of_text
    truthy phase_status str_of decimal_ℤ string_eq add_check run ensure_connected connect
    mark_connected exec_sent log_reply stripped escalate secret_of occurs_in each is_ha phase_ports
    phase_container listens after_colon listening_ports put_in_order sorted occupied_ports
    owned_ports shown_ports ports_detail offset_of read_given read_int judge_user judge_uid
    try_reach on_reach reach check_release keep_offset check_clock judge_disk check_disk check_ports
    stands foreign_names single_nginx add_artifacts check_artifacts check_path if_ha if_refusing
    check_base check_rest check_reached check_going check_node check_nodes finished_phases
    footprint_of has_name skew_of judge_skew check_skew check_dns was_reached check_first
    check_cluster apply has_failure verify
program = tt

abbrev platform : Platform
platform = record {
  is_ipv6 = λ s. false;
  is_network = λ s. false;
  exists = λ s. true;
  expanduser = λ s. s;
  repr_of = λ v. "";
}

abbrev clock : Clock ℕ
clock = record { milliseconds = λ w. w; tenths = λ n. decimal n }

-- A virgin host: nothing but SSH listens, and no unit is enabled.
abbrev answer : String → Reply
answer cmd =
    if occurs_in "id -u" cmd
    then record { rc = pos 0; out = "0"; err = "" }
    else if occurs_in "ss -Htln" cmd
    then record { rc = pos 0; out = "0.0.0.0:22\n[::]:9000\n127.0.0.1:x"; err = "" }
    else if occurs_in "df " cmd
    then record { rc = pos 0; out = "41"; err = "" }
    else if occurs_in "date" cmd
    then record { rc = pos 0; out = "1700000000"; err = "" }
    else if occurs_in "docker" cmd
    then record { rc = pos 0; out = ""; err = "" }
    else record { rc = pos 1; out = ""; err = "no" }

abbrev virgin : Remote ℕ
virgin = record {
  connect = λ conn w. (return tt, w + 5);
  exec = λ conn cmd stdin timeout w. (return (answer cmd), w + 5);
  now = λ w. "2026-01-01T00:00:00+0000";
  monotonic = λ w. w;
  sleep = λ n w. w + n * 1000;
}

-- The authentik phase is done, and owns the port 9000.
abbrev begun : Session ℕ
begun =
    let s = fresh_session [] in
    record s {
      state = record s.state {
        document = record (fresh_data "lab") {
          phases = ("authentik", ("status", "done") ∷ []) ∷ [];
        };
      };
    }

applied : Session ℕ
unfolding program
applied = (apply virgin platform clock begun).1

preflight-IsReady_example :
    All (IsReady virgin platform clock (footprint_of begun)) begun.fleet.conns
unfolding program applied
preflight-IsReady_example = preflight-IsReady virgin platform clock begun applied applied refl refl

-- On a host where no phase is done the same port is a failure.
occupied :
    (verify virgin platform clock (apply virgin platform clock (fresh_session [])).1).0
    ≡ return false
unfolding program
occupied = refl
