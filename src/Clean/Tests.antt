-- ===== src/Clean/Tests.antt =====
-- Runs of `akro clean` (akropolis/cli.py, akropolis/phases/clean_phase.py), and its theorems there.
use akropolis.Base.{◌≡◌, refl, ℕ, String, true, false, string_eq, some, [], ◌∷◌}
use akropolis.Base.Dict
use akropolis.Base.Text.{strip, lower_is, shell_quote}
use akropolis.Effects.{return}
use akropolis.State.{fresh_data}
use akropolis.State.Saving.{whole}
use akropolis.Session.{Session, add_note, add_check, input, take_answer}
use akropolis.Session.Remote.{
  run, ensure_connected, connect, mark_connected, exec_sent, log_reply, stripped, escalate,
  secret_of, add_reply,
}
use akropolis.Session.Loops.{each, all_nodes}
use akropolis.Session.Waiting.{occurs_in}
use akropolis.Session.Samples.{up, fresh_session}
use akropolis.Lifecycle.{is_ha}
use akropolis.Cli.Login.{
  connections, login, give_sudo, try_sudo, add_bad, after_connect, probe_nodes, judge, attempts,
  preauth,
}
use akropolis.Cli.Commands.{close, closing}
use akropolis.Clean.Tables.{steps_single, gone_single}
use akropolis.Clean.{
  steps_of, gone_of, archive_file, guard_ufw, take_step, tear_down, archive_found, archive_state,
  apply, is_gone, is_bare, verify,
}
use akropolis.Clean.Command.{
  announce, is_protected, is_named, tear, on_line, on_sudo, sign_in, cmd_clean,
}
use akropolis.Clean.Guard.{IsClean, cmd_clean-IsClean, cmd_clean_declined}

program : Unit {0}
unfolding add_note add_check input take_answer strip lower_is Dict.insert string_eq run
    ensure_connected connect mark_connected exec_sent log_reply stripped escalate secret_of
    shell_quote add_reply each all_nodes occurs_in is_ha connections login give_sudo try_sudo
    add_bad after_connect probe_nodes judge attempts preauth close closing steps_single gone_single
    steps_of gone_of archive_file guard_ufw take_step tear_down archive_found archive_state apply
    is_gone is_bare verify announce is_protected is_named tear on_line on_sudo sign_in cmd_clean
program = tt

abbrev stamp : ℕ → String
stamp w = "20260101-000000"

-- The state file is there; the operator gives the sudo password and types `line`.
abbrev before : String → Session ℕ
before line =
    let s = fresh_session ("secret" ∷ line ∷ []) in
    record s {
      state = record s.state {
        disk = record s.state.disk {
          file = some (record { content = whole (fresh_data "lab"); owner_only = true });
        };
      };
    }

after : Session ℕ
unfolding program
after = (cmd_clean up stamp false (before " lab ")).1

cmd_clean-IsClean_example :
    (is_protected false (before " lab ") ≡ false) × IsClean up stamp (before " lab ") after
unfolding program after
cmd_clean-IsClean_example = cmd_clean-IsClean up stamp false (before " lab ") after refl

signed : Session ℕ
unfolding program
signed = (sign_in up stamp (before "y")).1

cmd_clean_declined_example :
    let (code, t) = cmd_clean up stamp false (before "y") in
    (code ≡ return 1) × ((t.world ≡ signed.world) × (t.state ≡ signed.state))
unfolding program signed
cmd_clean_declined_example =
    cmd_clean_declined up stamp false "y" [] (before "y") signed refl refl refl refl
