-- ===== src/Session/Tests.antt =====
-- The polling loop of akropolis/remote.py at concrete nodes.
use akropolis.Base.{
  true, none, ◌≡◌, ◌≤◌, refl, ℕ, ◌+◌, ◌*◌, arith, Bool, false, [], string_eq, String, pos,
  if◌then◌else◌,
}
use akropolis.Effects.{Outcome, return}
use akropolis.Session.{Session, add_note}
use akropolis.Base.Text.{strip, shell_quote, decimal}
use akropolis.Session.Remote.{
  Remote, run, ensure_connected, connect, mark_connected, exec_sent, log_reply, stripped, escalate,
  secret_of,
}
use akropolis.Session.Waiting.{poll, passes, wait_for, sleep, after_probe, occurs_in}
use akropolis.Session.Clock.{Seen, wait_for-Seen}
use akropolis.Session.Polling.{Polls, wait_for_ends}
use akropolis.Session.Pushing.{
  Encoding, digest_command, parent, write_command, chown_suffix, write, push_file,
}
use akropolis.Session.Placed.{Placed, push_file-Placed}
use akropolis.Session.Uploading.{
  Local, sent, staging_path, move_command, sum_command, after_put, put, check_sum, after_move,
  upload, push_digest, give_digest, push_binary,
}
use akropolis.Session.Uploaded.{Pushed, push_binary-Pushed}
use akropolis.Session.Samples.{up, down, answering-IsMonotonic, node1, fresh_session}

polled : Session ℕ → Outcome Bool × Session ℕ
unfolding wait_for poll passes run ensure_connected connect mark_connected exec_sent log_reply
    stripped escalate secret_of strip shell_quote sleep after_probe string_eq
polled s = wait_for down node1 "probe" none 2 1 s

abbrev after : Session ℕ
after = (polled (fresh_session [])).1

wait_for-Seen_example : Seen down (answering-IsMonotonic _) node1 "probe" none 2 2000 false after
unfolding polled
wait_for-Seen_example =
    wait_for-Seen down (answering-IsMonotonic _) node1 "probe" none 2 1 (fresh_session []) after
      false (omega arith) refl

wait_for_ends_example :
    (n : ℕ) × ((n ≤ 2)
      × Polls down
          (answering-IsMonotonic _)
          node1
          "probe"
          none
          2000
          2
          1
          n
          (fresh_session [])
          (return false)
          after)
unfolding polled
wait_for_ends_example =
    wait_for_ends down (answering-IsMonotonic _) node1 "probe" none 2 1 (fresh_session [])
      (omega arith)

-- A checksum that is no text of a node here: the file differs, and is written.
abbrev encoding : Encoding
encoding = record {
  sha256 = λ content. "sum";
  base64 = λ content. "b64";
  parse_octal = λ mode. none;
}

pushed : Session ℕ → Outcome Bool × Session ℕ
unfolding push_file write digest_command write_command parent chown_suffix run ensure_connected
    connect mark_connected exec_sent log_reply stripped escalate secret_of strip shell_quote
    string_eq
pushed s = push_file up encoding node1 "x" "/opt/x" "0644" none s

push_file-Placed_example :
    Placed up encoding true node1 "x" "/opt/x" "0644" none (pushed (fresh_session [])).1
unfolding pushed
push_file-Placed_example =
    push_file-Placed up encoding node1 "x" "/opt/x" "0644" none (fresh_session [])
      (pushed (fresh_session [])).1 true refl

parents : (parent "/opt/etcd/x.yml" ≡ "/opt/etcd") × (parent "x" ≡ "x")
unfolding parent
parents = (refl, refl)

-- The node has no such file before, and has it after the move.
abbrev store : Remote ℕ
store = record {
  connect = λ conn w. (return tt, w + 5);
  exec = λ conn cmd stdin timeout w. (
    return (record {
      rc = pos 0;
      out = if occurs_in "2>/dev/null" cmd then "" else "sum\n";
      err = "";
    }),
    w + 5,
  );
  now = λ w. "2026-01-01T00:00:00+0000";
  monotonic = λ w. w;
  sleep = λ n w. w + n * 1000;
}

abbrev local : Local ℕ
local = record {
  expanduser = λ file. file;
  file_name = λ file. file;
  digest = λ file. return "sum";
  pid = 42;
  put = λ conn file path w. (sent, w + 1);
}

uploaded : Session ℕ → Outcome Bool × Session ℕ
unfolding push_binary give_digest push_digest upload after_move check_sum put after_put staging_path
    move_command sum_command digest_command parent add_note occurs_in decimal run ensure_connected
    connect mark_connected exec_sent log_reply stripped escalate secret_of strip shell_quote
    string_eq
uploaded s = push_binary store local node1 "logo.png" "/opt/logo.png" "0644" s

push_binary-Pushed_example :
    (digest : String) × ((local.digest "logo.png" ≡ return digest)
      × Pushed store local node1 "logo.png" "/opt/logo.png" "0644" digest true
          (fresh_session [])
          (uploaded (fresh_session [])).1)
unfolding uploaded
push_binary-Pushed_example =
    push_binary-Pushed store local node1 "logo.png" "/opt/logo.png" "0644" (fresh_session [])
      (uploaded (fresh_session [])).1 true refl
