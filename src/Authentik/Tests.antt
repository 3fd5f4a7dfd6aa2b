-- ===== src/Authentik/Tests.antt =====
-- Runs of akropolis/phases/authentik_phase.py, and its theorems there.
use akropolis.Base.{
  ◌≡◌, refl, ℕ, ◌+◌, pos, String, string_eq, eqb, if◌then◌else◌, none, some, [], ◌∷◌,
}
use akropolis.Base.Dict
use akropolis.Base.Text.{strip, shell_quote}
use akropolis.Value.{str}
use akropolis.State.{State, save, fresh_data, mark_phase, mark_entry}
use akropolis.State.Saving.{Data, save_disk, run_steps, save_steps}
use akropolis.Effects.{return}
use akropolis.Session.{Session, add_check}
use akropolis.Session.Remote.{
  Remote, Reply, run, ensure_connected, connect, mark_connected, exec_sent, log_reply, stripped,
  escalate, secret_of,
}
use akropolis.Session.Waiting.{
  poll, passes, wait_for, sleep, after_probe, occurs_in, wait_healthy, all_healthy, healthy,
}
use akropolis.Session.Loops.{first_conn, all_nodes}
use akropolis.Session.Pinned.{as_text}
use akropolis.Session.Samples.{up, session}
use akropolis.Authentik.Token.{
  alive_cmd, is_alive, shell_works, mint_cmd, mint_script, after_ok, shell_detail, token_alive,
  after_mint, remint_bootstrap_token,
}
use akropolis.Authentik.{
  record_ready, check_health, recover, check_api, bootstrap_token, verify_api, verify,
  pin_applied_tag, previous_tag, tag_change_warning, warning_for,
}
use akropolis.Authentik.Reachable.{IsReachable, verify-IsReachable}
use akropolis.Authentik.Tagged.{Mark, mark_all, previous_tag_pinned}

program : Unit {0}
unfolding Dict.get_or Dict.lookup Dict.insert Dict.erase Dict.update strip shell_quote save
    save_disk run_steps save_steps mark_phase mark_entry string_eq add_check run ensure_connected
    connect mark_connected exec_sent log_reply stripped escalate secret_of poll passes wait_for
    sleep after_probe occurs_in wait_healthy all_healthy healthy first_conn all_nodes as_text
    alive_cmd is_alive shell_works mint_cmd mint_script after_ok shell_detail token_alive after_mint
    remint_bootstrap_token record_ready check_health recover check_api bootstrap_token verify_api
    verify pin_applied_tag previous_tag tag_change_warning warning_for
program = tt

said : String → Reply
said out = record { rc = pos 0; out = out; err = "" }

-- The third command finds the token rejected, and the fourth mints it.
abbrev reply_at : ℕ → Reply
unfolding said
reply_at w = if eqb w 15 then said "403" else if eqb w 20 then said "OK akadmin" else said "200"

abbrev forgetful : Remote ℕ
forgetful = record up { exec = λ conn cmd stdin timeout w. (return (reply_at w), w + 5) }

abbrev as_is : String → String
as_is s = s

abbrev with_token : Data
with_token = record (fresh_data "lab") {
  generated = ("authentik_bootstrap_token", str "secret") ∷ [];
}

verified : Session ℕ
unfolding program
verified = (verify forgetful as_is (session with_token [])).1

verify-IsReachable_example : IsReachable forgetful as_is (session with_token []) verified
unfolding program verified reply_at
verify-IsReachable_example =
    verify-IsReachable forgetful as_is (session with_token []) verified refl

five_commands : verified.world ≡ 30
unfolding program verified reply_at
five_commands = refl

owner : after_ok "warning: OK then\nOK akadmin" ≡ "akadmin"
unfolding program
owner = refl

abbrev done : Mark
done = record { now = "later"; name = "authentik"; status = "done"; detail = [] }

abbrev fresh : State
fresh = (session (fresh_data "lab") []).state

previous_tag_pinned_example :
    let t = mark_all (done ∷ []) (pin_applied_tag "now" "authentik" "2026.1" fresh) in
    (previous_tag "authentik" t ≡ some "2026.1")
    × (tag_change_warning "authentik" "2026.1" t ≡ warning_for (some "2026.1") "2026.1")
unfolding program
previous_tag_pinned_example =
    previous_tag_pinned "now" "authentik" "2026.1" "2026.1" (done ∷ []) fresh (refl, tt)

same_tag : warning_for (some "2026.1") "2026.1" ≡ none
unfolding program
same_tag = refl
