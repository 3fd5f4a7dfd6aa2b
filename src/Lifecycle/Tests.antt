-- ===== src/Lifecycle/Tests.antt =====
-- Runs of akropolis/phases/authentik_lifecycle.py, and its theorems at concrete nodes.
use akropolis.Base.{◌≡◌, refl, ◌≢◌, String, true, string_eq, [], ◌∷◌, All, arith, none, ℕ}
use akropolis.Base.Dict
use akropolis.Base.Text.{strip, lower_is, shell_quote, decimal}
use text.Mathlib.TextEquality.{eq_iff}
use akropolis.State.{phase_status, mark_entry, mark_phase, save}
use akropolis.State.Saving.{Data, save_disk, run_steps, save_steps}
use akropolis.Session.{Session, add_note, add_check, input, take_answer}
use akropolis.Session.Remote.{
  run, ensure_connected, connect, mark_connected, exec_sent, log_reply, stripped, escalate,
  secret_of,
}
use akropolis.Session.Waiting.{
  passes, poll, wait_for, wait_healthy, sleep, after_probe, all_healthy, healthy,
}
use akropolis.Session.Loops.{each, all_nodes}
use akropolis.Session.Samples.{up, down, session, fresh_session}
use akropolis.Phases.Runner.{
  mark, says_yes, accepts, ask, confirm, enter, decline, conclude, settle, apply_phase, attempt,
  is_skipped, visit, run_phases,
}
use akropolis.Lifecycle.{is_ha, scope}
use akropolis.Lifecycle.Shutdown
use akropolis.Lifecycle.Shutdown.{shutdown, stop_node, conclude_stop, is_stopped}
use akropolis.Lifecycle.Start
use akropolis.Lifecycle.Start.{gate, start, start_node, start_all, clear_flag, is_up, ready_check}
use akropolis.Lifecycle.Gate.{IsRefused, start-IsRefused}
use akropolis.Lifecycle.Stopped.{WasStopped, shutdown_stops}
use akropolis.Lifecycle.Consumed.{start_consumes}

program : Unit {0}
unfolding run_phases visit is_skipped attempt enter add_note add_check confirm ask input take_answer
    accepts says_yes strip lower_is decline apply_phase settle conclude mark mark_phase mark_entry
    save save_disk run_steps save_steps phase_status Dict.lookup Dict.get_or Dict.insert Dict.erase
    Dict.update string_eq run ensure_connected connect mark_connected exec_sent log_reply stripped
    escalate secret_of shell_quote poll passes wait_for wait_healthy sleep after_probe all_healthy
    healthy each all_nodes is_ha scope Shutdown.plan Shutdown.apply Shutdown.verify stop_node
    conclude_stop is_stopped decimal Start.plan Start.apply Start.verify start_node start_all
    clear_flag is_up ready_check
program = tt

stopped : Session ℕ
unfolding program
stopped = (run_phases down (shutdown down ∷ []) true (fresh_session ("y" ∷ []))).1

shutdown_stops_example :
    All (WasStopped down) (fresh_session []).fleet.conns × (gate stopped.state ≡ "done")
unfolding program stopped
shutdown_stops_example = shutdown_stops down (fresh_session ("y" ∷ [])) stopped refl

never_stopped : ◌≢◌ {A = String} "pending" "done"
never_stopped = ground (arith, eq_iff "pending" "done")

start-IsRefused_example :
    IsRefused up
      (fresh_session ("y" ∷ []))
      (run_phases up (start up ∷ []) true (fresh_session ("y" ∷ [])))
unfolding phase_status Dict.lookup
start-IsRefused_example = start-IsRefused up (fresh_session ("y" ∷ [])) never_stopped

abbrev was_shut : Data
was_shut = record {
  site = none;
  phases = ("authentik-shutdown", ("status", "done") ∷ []) ∷ [];
  generated = [];
}

started : Session ℕ
unfolding program
started = (run_phases up (start up ∷ []) true (session was_shut ("yes" ∷ []))).1

start_consumes_example :
    (gate started.state ≡ "started")
    × IsRefused up started (run_phases up (start up ∷ []) true started)
unfolding program started
start_consumes_example = start_consumes up (session was_shut ("yes" ∷ [])) started refl
