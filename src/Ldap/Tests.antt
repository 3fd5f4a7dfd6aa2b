-- ===== src/Ldap/Tests.antt =====
-- Runs of akropolis/phases/ldap_reconcile.py, and its theorems there.
use akropolis.Base.{◌≡◌, refl, ℕ, ◌+◌, ◌*◌, pos, String, string_eq, none, some, [], ◌∷◌}
use akropolis.Base.Lines.{split_lines, join}
use akropolis.Base.Text.{strip, shell_quote, lower_is, quoted}
use akropolis.Effects.{return}
use akropolis.Session.{Session, add_check, input, take_answer}
use akropolis.Session.Remote.{
  Remote, run, ensure_connected, connect, mark_connected, exec_sent, log_reply, stripped, escalate,
  secret_of,
}
use akropolis.Session.Waiting.{occurs_in}
use akropolis.Session.Loops.{all_nodes}
use akropolis.Session.Samples.{node1, fresh_session}
use akropolis.Phases.Runner.{says_yes}
use akropolis.Ldap.Scripts.{Row, dry_run_script, apply_script}
use akropolis.Ldap.{
  Report, Json, marked_line, read_marked, after_script, run_script, script_cmd, collect_drift,
  apply_changes, confirm_rows, record_result, record_row, repair, repair_confirmed, is_unknown,
  reconcile,
}
use akropolis.Ldap.Confirmed.{reconcile_unconfirmed}
use akropolis.Ldap.Repaired.{IsRepaired, reconcile-IsRepaired}

program : Unit {0}
unfolding split_lines join strip shell_quote lower_is string_eq add_check input take_answer run
    ensure_connected connect mark_connected exec_sent log_reply stripped escalate secret_of
    occurs_in all_nodes says_yes dry_run_script apply_script marked_line read_marked after_script
    run_script script_cmd collect_drift apply_changes confirm_rows record_result record_row repair
    repair_confirmed is_unknown reconcile
program = tt

abbrev row : String → String → String → Row
row name live status = record {
  source = "ldap";
  username = name;
  stored = "old";
  live = some live;
  status = status;
}

abbrev drift : Report
drift = record {
  rows = row "ann" "new" "DIFFERENT" ∷ row "bob" "newer" "DIFFERENT" ∷ row "eve" "old" "SAME" ∷ [];
  sources_checked = "ldap" ∷ [];
}

-- The second report finds the user as in LDAP.
abbrev json : Json
json = record {
  report = λ text.
      return (record { rows = row "bob" "newer" "SAME" ∷ []; sources_checked = "ldap" ∷ [] });
  results = λ text. return (record { username = "bob"; status = "UPDATED"; dumped = "" } ∷ []);
  repr = λ text. quoted text;
}

abbrev worker : Remote ℕ
worker = record {
  connect = λ conn w. (return tt, w + 5);
  exec = λ conn cmd stdin timeout w.
      (return (record { rc = pos 0; out = "noise\nAKROPOLIS_JSON:{}"; err = "" }), w + 5);
  now = λ w. "2026-01-01T00:00:00+0000";
  monotonic = λ w. w;
  sleep = λ n w. w + n * 1000;
}

reconcile_unconfirmed_example :
    let t = (reconcile worker json node1 none drift (fresh_session ("n" ∷ "" ∷ []))).1 in
    (t.world ≡ 0) × (t.state ≡ (fresh_session ("n" ∷ "" ∷ [])).state)
unfolding program
reconcile_unconfirmed_example =
    reconcile_unconfirmed worker json node1 none drift (fresh_session ("n" ∷ "" ∷ [])) refl

abbrev answered : Session ℕ
answered = fresh_session ("n" ∷ " Yes " ∷ [])

repaired : Session ℕ
unfolding program
repaired = (reconcile worker json node1 none drift answered).1

reconcile-IsRepaired_example :
    IsRepaired worker json node1 none (row "bob" "newer" "DIFFERENT" ∷ []) answered repaired
unfolding program repaired
reconcile-IsRepaired_example =
    reconcile-IsRepaired worker json node1 none drift answered repaired refl refl
