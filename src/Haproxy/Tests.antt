-- ===== src/Haproxy/Tests.antt =====
-- Runs of akropolis/phases/haproxy_phase.py, and its theorem there.
use akropolis.Base.{◌≡◌, refl, ℕ, ◌+◌, pos, true, string_eq, none, [], ◌∷◌}
use akropolis.Base.Dict
use akropolis.Base.Text.{strip, shell_quote}
use akropolis.Value.{str, truthy}
use akropolis.State.{get_or_generate, save, fresh_data}
use akropolis.State.Saving.{Data, save_disk, run_steps, save_steps}
use akropolis.Effects.{return}
use akropolis.Session.{Session, add_check}
use akropolis.Session.Remote.{
  Remote, run, ensure_connected, connect, mark_connected, exec_sent, log_reply, stripped, escalate,
  secret_of, add_reply,
}
use akropolis.Session.Waiting.{poll, passes, wait_for, sleep, after_probe, occurs_in}
use akropolis.Session.Pushing.{Encoding}
use akropolis.Session.Loops.{first_conn, all_nodes}
use akropolis.Session.Pinned.{Tokens, pinned, as_text}
use akropolis.Session.Samples.{answering, session}
use akropolis.Haproxy.{
  Templates, csv_cmd, select_cmd, stats_password, converge, check_node, if_filled,
  database_password, works_through, select_one, end_to_end, verify_chain, verify,
}
use akropolis.Haproxy.Routed.{IsRouted, haproxy_verify-IsRouted}

program : Unit {0}
unfolding Dict.has_key Dict.lookup Dict.insert strip shell_quote truthy get_or_generate save
    save_disk run_steps save_steps string_eq add_check run ensure_connected connect mark_connected
    exec_sent log_reply stripped escalate secret_of add_reply poll passes wait_for sleep after_probe
    occurs_in all_nodes pinned as_text csv_cmd select_cmd stats_password converge check_node
    if_filled database_password works_through select_one end_to_end first_conn verify_chain verify
program = tt

abbrev router : Remote ℕ
router = answering (record { rc = pos 0; out = "1"; err = "" })

abbrev encoding : Encoding
encoding = record {
  sha256 = λ content. "sum";
  base64 = λ content. "b64";
  parse_octal = λ mode. none;
}

abbrev templates : Templates
templates = record { haproxy = λ nodes password. "config"; compose = "compose" }

abbrev tokens : Tokens ℕ
tokens w = ("secret", w + 1)

abbrev with_password : Data
with_password = record (fresh_data "lab") { generated = ("authentik_db_password", str "pw") ∷ [] }

verified : Session ℕ
unfolding program
verified = (verify router encoding tokens templates (session with_password [])).1

haproxy_verify-IsRouted_example :
    IsRouted router encoding tokens templates (session with_password []) verified
unfolding program verified
haproxy_verify-IsRouted_example =
    haproxy_verify-IsRouted router encoding tokens templates (session with_password []) verified
      refl

-- Without the password the gate passes all the same, with a warning.
without_password :
    (verify router encoding tokens templates (session (fresh_data "lab") [])).0 ≡ return true
unfolding program
without_password = refl
