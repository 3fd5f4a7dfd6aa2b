-- ===== src/Cli/Tests.antt =====
-- Runs of akropolis/cli.py's commands, and its theorems at concrete sites.
use akropolis.Base.{◌≡◌, refl, ℕ, String, true, false, string_eq, List, [], ◌∷◌, All, none}
use akropolis.Base.Dict
use akropolis.Base.Text.{strip, lower_is, shell_quote, decimal}
use akropolis.Effects.{return, pure}
use akropolis.State.{phase_status, mark_entry, mark_phase, save}
use akropolis.State.Saving.{Data, save_disk, run_steps, save_steps}
use akropolis.Session.{Session, add_note, add_check, input, take_answer}
use akropolis.Session.Remote.{
  run, ensure_connected, connect, mark_connected, exec_sent, log_reply, stripped, escalate,
  secret_of,
}
use akropolis.Session.Samples.{up, session, fresh_session}
use akropolis.Phases.{Phase}
use akropolis.Phases.Runner.{
  mark, says_yes, accepts, ask, confirm, enter, decline, conclude, settle, apply_phase, attempt,
  is_skipped, visit, run_phases,
}
use akropolis.Phases.Frame.{IsFramed, SameOthers}
use akropolis.Phases.Settled.{IsSettled}
use akropolis.Cli.Login.{
  connections, login, give_sudo, try_sudo, add_bad, after_connect, probe_nodes, judge, attempts,
  preauth,
}
use akropolis.Cli.Commands.{
  close, closing, selected, has_missing, mark_pending, run_selected, proceed, provision,
}
use akropolis.Cli.Rows.{shown_error, row_of, phase_rows, remaining, status_agrees}
use akropolis.Cli.Authorised.{CanSudo, preauth-CanSudo}
use akropolis.Cli.Choice.{phase_status-mark_pending, provision-IsSettled}

abbrev quiet : Phase ℕ
quiet = record {
  name = "etcd";
  read_only = false;
  optional = false;
  needs_confirm = pure true;
  plan = pure [];
  apply = pure tt;
  verify = pure true;
}

quiet-IsFramed : IsFramed up quiet
unfolding IsFramed SameOthers
quiet-IsFramed = record {
  needs_confirm = record { at = λ s other h. refl };
  plan = record { at = λ s other h. refl };
  apply = record { at = λ s other h. refl };
  verify = record { at = λ s other h. refl };
}

program : Unit {0}
unfolding run_phases visit is_skipped attempt enter add_note add_check confirm ask input take_answer
    accepts says_yes strip lower_is decline apply_phase settle conclude mark mark_phase mark_entry
    save save_disk run_steps save_steps phase_status Dict.lookup Dict.get_or Dict.insert Dict.erase
    Dict.update string_eq run ensure_connected connect mark_connected exec_sent log_reply stripped
    escalate secret_of shell_quote decimal connections login give_sudo try_sudo add_bad
    after_connect probe_nodes judge attempts preauth close closing selected has_missing mark_pending
    run_selected proceed provision shown_error row_of phase_rows remaining
program = tt

-- The sudo password, then the confirmation.
abbrev lines : List String
lines = "secret" ∷ "y" ∷ []

provisioned : Session ℕ
unfolding program
provisioned = (provision up (quiet ∷ []) ("etcd" ∷ []) [] (fresh_session lines)).1

provision-IsSettled_example : All (IsSettled up provisioned) (quiet ∷ [])
unfolding program provisioned
provision-IsSettled_example =
    provision-IsSettled up (quiet ∷ []) ("etcd" ∷ []) (fresh_session lines) provisioned
      (quiet-IsFramed, tt) (tt, tt) refl

-- An unknown name after --only: exit code 2, and the connections stay open.
unknown_left_open :
    let (code, t) = provision up (quiet ∷ []) [] ("etdc" ∷ []) (fresh_session lines) in
    (code ≡ return 2) × (t.fleet.connected ≡ 0 ∷ [])
unfolding program
unknown_left_open = (refl, refl)

asked : Session ℕ
unfolding program
asked = (preauth up none (fresh_session [])).1

preauth-CanSudo_example : All (CanSudo up) asked.fleet.conns
unfolding program asked
preauth-CanSudo_example = preauth-CanSudo up none (fresh_session []) asked refl refl

abbrev all_done : Data
all_done = record { site = none; phases = ("etcd", ("status", "done") ∷ []) ∷ []; generated = [] }

status_agrees_example :
    run_phases up (quiet ∷ []) false (session all_done []) ≡ (return true, session all_done [])
unfolding program
status_agrees_example = status_agrees up (quiet ∷ []) (session all_done []) refl

phase_status-mark_pending_example :
    phase_status "etcd" (mark_pending up ("base" ∷ "etcd" ∷ []) (session all_done [])).state
    ≡ "pending"
unfolding program
phase_status-mark_pending_example =
    phase_status-mark_pending up ("base" ∷ "etcd" ∷ []) "etcd" (session all_done [])
