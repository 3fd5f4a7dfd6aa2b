-- ===== src/Patroni/Tests.antt =====
-- Runs of akropolis/phases/patroni_phase.py, and its theorems there.
use akropolis.Base.{
  refl, ℕ, ◌+◌, ◌*◌, pos, String, true, false, string_eq, if◌then◌else◌, none, [], ◌∷◌,
}
use akropolis.Base.Dict
use akropolis.Base.Lines.{split_lines, join}
use akropolis.Base.Text.{strip, split, shell_quote, decimal}
use akropolis.Value.{elements, truthy, get, walk, or_else, lookup_field}
use akropolis.State.{get_or_generate, save}
use akropolis.State.Saving.{save_disk, run_steps, save_steps}
use akropolis.Config.Address.{Platform, str_of}
use akropolis.Effects.{return}
use akropolis.Session.{Conn, Session, add_check}
use akropolis.Session.Remote.{
  Remote, run, ensure_connected, connect, mark_connected, exec_sent, log_reply, stripped, escalate,
  secret_of, add_reply,
}
use akropolis.Session.Waiting.{poll, passes, wait_for, sleep, after_probe, occurs_in}
use akropolis.Session.Pushing.{
  Encoding, push_file, write, write_command, converge, apply_fixes, digest_command, fixes, parent,
  chown_suffix, has_drifted, modes_differ,
}
use akropolis.Session.Loops.{each}
use akropolis.Session.Pinned.{Tokens, pinned, as_text}
use akropolis.Session.Samples.{node1, fresh_session}
use akropolis.Patroni.Commands.{
  pg_install, patroni_install, role_cmd, streaming_cmd, create_role_cmd, count_in, is_formed,
  last_error,
}
use akropolis.Patroni.{
  Templates, list_of, extra_pg_hba, subnet, leader_conn, demand, secrets, settings, prepare,
  await_leader, judge_promotion, start_leader, await_state, judge_replica, join_replica,
  create_role, bring_up, apply, has_database, verify_leader, verify,
}
use akropolis.Patroni.Formed.{IsFormed, patroni_verify-IsFormed}

program : Unit {0}
unfolding Dict.has_key Dict.lookup Dict.insert split_lines join strip split shell_quote decimal
    elements truthy get walk or_else lookup_field get_or_generate save save_disk run_steps
    save_steps str_of string_eq add_check run ensure_connected connect mark_connected exec_sent
    log_reply stripped escalate secret_of add_reply poll passes wait_for sleep after_probe occurs_in
    push_file write write_command converge apply_fixes digest_command fixes parent chown_suffix
    has_drifted modes_differ each pinned as_text pg_install patroni_install role_cmd streaming_cmd
    create_role_cmd count_in is_formed last_error list_of extra_pg_hba subnet leader_conn demand
    secrets settings prepare await_leader judge_promotion start_leader await_state judge_replica
    join_replica create_role bring_up apply has_database verify_leader verify
program = tt

abbrev platform : Platform
platform = record {
  is_ipv6 = λ s. false;
  is_network = λ s. false;
  exists = λ s. true;
  expanduser = λ s. s;
  repr_of = λ v. "";
}

abbrev encoding : Encoding
encoding = record {
  sha256 = λ content. "sum";
  base64 = λ content. "b64";
  parse_octal = λ mode. none;
}

abbrev templates : Templates
templates = record { config = λ node nodes settings. "config"; unit = "unit" }

abbrev tokens : Tokens ℕ
tokens w = ("secret", w + 1)

abbrev listing : String
listing =
    "| n1 | Leader | running |\n| n2 | Replica | streaming |\n| n3 | Sync Standby | streaming |"

-- Every node does as it is told.
abbrev cluster : Remote ℕ
cluster = record {
  connect = λ conn w. (return tt, w + 5);
  exec = λ conn cmd stdin timeout w. (
    return (record {
      rc = pos 0;
      out =
          if occurs_in "patronictl" cmd
          then listing
          else if occurs_in "psql" cmd
          then "1"
          else "200 replica";
      err = "";
    }),
    w + 5,
  );
  now = λ w. "2026-01-01T00:00:00+0000";
  monotonic = λ w. w;
  sleep = λ n w. w + n * 1000;
}

abbrev node2 : Conn
node2 = record node1 {
  slot = 1;
  node = record { name = "n2"; ip = "10.0.0.6"; bootstrap_leader = false };
}

abbrev start : Session ℕ
start =
    let s = fresh_session [] in record s { fleet = record s.fleet { conns = node1 ∷ node2 ∷ [] } }

applied : Session ℕ
unfolding program
applied = (apply cluster platform encoding tokens templates start).1

verified : Session ℕ
unfolding program
verified = (verify cluster platform encoding tokens templates start).1

patroni_verify-IsFormed_example : IsFormed cluster platform encoding tokens templates start verified
unfolding program verified
patroni_verify-IsFormed_example =
    patroni_verify-IsFormed cluster platform encoding tokens templates start verified refl
