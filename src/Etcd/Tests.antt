-- ===== src/Etcd/Tests.antt =====
-- The health gate of akropolis/phases/etcd_phase.py at a concrete node.
use akropolis.Base.{◌≡◌, refl, pos, Bool, true, false, none, string_eq, ℕ, ◌∷◌, []}
use akropolis.Base.Lines.{split_lines, join}
use akropolis.Base.Text.{strip, shell_quote, decimal}
use akropolis.Effects.{Outcome}
use akropolis.Session.{Session, add_check}
use akropolis.Session.Remote.{
  Remote, run, ensure_connected, connect, mark_connected, exec_sent, log_reply, stripped, escalate,
  secret_of,
}
use akropolis.Session.Waiting.{poll, passes, wait_for, sleep, after_probe, occurs_in}
use akropolis.Session.Pushing.{Encoding}
use akropolis.Session.Samples.{answering, fresh_session}
use akropolis.Config.Address.{Platform}
use akropolis.Etcd.{
  Templates, health_command, members_command, unhealthy_lines, started_members, look_again,
  count_members, verify_from, verify,
}
use akropolis.Etcd.Healthy.{IsHealthy, verify-IsHealthy}

-- One output serves both commands here.
abbrev three_members : Remote ℕ
three_members = answering (record {
  rc = pos 0;
  out = "a started is healthy\nb started is healthy\nc started is healthy\n";
  err = "";
})

abbrev platform : Platform
platform = record {
  is_ipv6 = λ s. false;
  is_network = λ s. false;
  exists = λ s. true;
  expanduser = λ s. s;
  repr_of = λ v. "";
}

abbrev encoding : Encoding
encoding = record {
  sha256 = λ content. "sum";
  base64 = λ content. "b64";
  parse_octal = λ mode. none;
}

abbrev templates : Templates ℕ
templates = record { compose = λ node nodes secret. secret; token_hex = λ w. "00c0ffee" }

lines : split_lines "a\r\nb\n\n" ≡ "a" ∷ "b" ∷ "" ∷ []
unfolding split_lines string_eq
lines = refl

verified : Session ℕ → Outcome Bool × Session ℕ
unfolding verify verify_from look_again count_members add_check health_command members_command
    unhealthy_lines started_members wait_for poll passes occurs_in run ensure_connected connect
    mark_connected exec_sent log_reply stripped escalate secret_of strip shell_quote sleep
    after_probe string_eq split_lines join decimal
verified s = verify three_members platform encoding templates s

verify-IsHealthy_example :
    IsHealthy three_members (fresh_session []) (verified (fresh_session [])).1
unfolding verified
verify-IsHealthy_example =
    verify-IsHealthy three_members platform encoding templates (fresh_session [])
      (verified (fresh_session [])).1 refl
