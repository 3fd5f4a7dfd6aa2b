-- ===== src/Ldap.antt =====
-- akropolis/phases/ldap_reconcile.py: the report of drifted identifiers, and their repair.
pub mod Scripts
pub mod Confirmed
pub mod Repaired
pub mod Tests
use akropolis.Base.{
  String, ◌<>◌, Bool, true, false, not, ◌&&◌, ◌||◌, ◌==◌, string_eq, if◌then◌else◌, contains,
  Option, none, some, List, [], ◌∷◌, keep, map, ℕ,
}
use text.Mathlib.Text.{starts_with}
use akropolis.Base.Lines.{split_lines}
use akropolis.Base.Text.{shell_quote}
use akropolis.Config.Nodes.{bootstrap_leader}
use akropolis.Config.{Node}
use akropolis.Effects.{Outcome, return, pure, throw, ◌>>=◌, ◌>>◌}
use akropolis.Session.{Conn, Session, Step, plain, add_check, add_note, input}
use akropolis.Session.Remote.{Remote, Reply, is_ok, run}
use akropolis.Session.Loops.{all_nodes}
use akropolis.Phases.Runner.{says_yes}
use akropolis.Cli.Login.{login, preauth}
use akropolis.Cli.Commands.{close}
use akropolis.Ldap.Scripts.{Row, marker, dry_run_script, apply_script}

-- What the first script prints.
pub record Report : Type 0 where
  pub rows : List Row
  pub sources_checked : List String

-- What the second script prints for a user; `dumped` is `json.dumps` of it.
pub record Result : Type 0 where
  pub username : String
  pub status : String
  pub dumped : String

-- `json.loads` of what the scripts print, and `repr` of a text.
pub record Json : Type 0 where
  pub report : String → Outcome Report
  pub results : String → Outcome (List Result)
  pub repr : String → String

-- The first line that begins with the marker.
unfoldable pub marked_line : List String → Option String
marked_line [] = none
marked_line (line ∷ lines) =
    let rest = marked_line lines in if starts_with line marker then some line else rest

drop_text : String → String → String
drop_text String.[] s = s
drop_text (String.◌∷◌ c part) String.[] = String.[]
drop_text (String.◌∷◌ c part) (String.◌∷◌ d s) = drop_text part s

abbrev pub has_status : String → Row → Bool
has_status status row = row.status == status

abbrev pub no_rows : List Row → Bool
no_rows [] = true
no_rows (row ∷ rows) = false

abbrev pub no_names : List String → Bool
no_names [] = true
no_names (name ∷ names) = false

-- `source and source not in sources_checked`
unfoldable pub is_unknown : Option String → List String → Bool
is_unknown none checked = false
is_unknown (some source) checked = not (source == "") && not (contains checked source)

-- The rows that differ. Those that are gone from LDAP are shown only.
abbrev pub drifted_rows : List Row → List Row
drifted_rows rows = keep (has_status "DIFFERENT") (keep (λ row. not (has_status "SAME" row)) rows)

unfoldable pub script_cmd : String → String
unfolding shell_quote
script_cmd script =
    "cd /opt/authentik && docker compose exec -T worker ak shell -c " <> shell_quote script

module _ {W : Type 0} (remote : Remote W) (json : Json) where
  -- `json.loads(line[len(_MARKER):])`, or the exception.
  unfoldable pub read_marked :
      {A : Type 0} → (String → Outcome A) → String → Option String → Step W A
  unfolding drop_text
  read_marked loads message none = throw message
  read_marked loads message (some line) = λ s. (loads (drop_text marker line), s)

  unfoldable pub after_script :
      {A : Type 0} → (String → Outcome A) → Conn → String → Reply → Step W A
  unfolding split_lines marked_line
  after_script loads conn label r =
      if is_ok r
      then read_marked loads (label <> (": no " <> (marker <> (" output from " <> conn.node.name))))
          (marked_line (split_lines r.out))
      else throw (
          label
          <> (" failed on "
              <> (conn.node.name <> (": " <> (if r.err == "" then r.out else r.err)))))

  -- `_run_script`, of its 120 seconds. The tail of the output is left out of its second message.
  unfoldable pub run_script :
      {A : Type 0} → (String → Outcome A) → Conn → (script label : String) → Step W A
  run_script loads conn script label =
      run remote conn (script_cmd script) none 120 >>= after_script loads conn label

  -- `collect_drift`
  unfoldable pub collect_drift : Conn → Option String → Option (List String) → Step W Report
  collect_drift conn source usernames =
      run_script json.report conn (dry_run_script json.repr source usernames)
        "reading LDAP source drift"

  -- `apply_changes`
  unfoldable pub apply_changes : Conn → List Row → Step W (List Result)
  apply_changes conn [] = pure []
  apply_changes conn (row ∷ rows) =
      run_script json.results conn (apply_script json.repr (row ∷ rows))
        "repointing confirmed identifiers"

  -- The questions, a row at a time.
  unfoldable pub confirm_rows : List Row → Step W (List Row)
  confirm_rows [] = pure []
  confirm_rows (row ∷ rows) = do
    line ← input
    confirmed ← confirm_rows rows
    pure (if says_yes remote line then row ∷ confirmed else confirmed)

  unfoldable pub record_result : Conn → Result → Step W Bool
  record_result conn result = do
    let good = result.status == "UPDATED"
    add_check (
        plain conn.node.name (result.username <> (": " <> result.status)) good
          (if good then "" else result.dumped))
    pure good

  unfoldable pub record_row : Conn → Row → Step W Bool
  record_row conn row = do
    let good = has_status "SAME" row
    add_check (plain conn.node.name ("verify: " <> row.username) good row.status)
    pure good

  abbrev pub exit_code : Bool → ℕ
  exit_code ok = if ok then 0 else 1

  -- The changes, and another look at their users.
  unfoldable pub repair : Conn → Option String → List Row → Step W ℕ
  repair conn source confirmed = do
    results ← apply_changes conn confirmed
    ok ← all_nodes (record_result conn) true results
    report ← collect_drift conn source (some (map (λ row. row.username) confirmed))
    good ← all_nodes (record_row conn) ok report.rows
    pure (exit_code good)

  unfoldable pub repair_confirmed : Conn → Option String → List Row → Step W ℕ
  repair_confirmed conn source confirmed =
      if no_rows confirmed then pure 0 else repair conn source confirmed

  unfoldable pub reconcile : Conn → Option String → Report → Step W ℕ
  reconcile conn source report =
      if is_unknown source report.sources_checked || no_names report.sources_checked
      then pure 2
      else if no_rows (drifted_rows report.rows)
      then pure 0
      else (confirm_rows (drifted_rows report.rows) >>= repair_confirmed conn source)

  -- `next((c for c in ctx.fleet if c.node.name == name), None)`
  unfoldable pub conn_named : String → List Conn → Option Conn
  conn_named name [] = none
  conn_named name (conn ∷ conns) =
      let rest = conn_named name conns in if conn.node.name == name then some conn else rest

  from_conn : Option String → Option Conn → Step W ℕ
  from_conn source none = pure 2
  from_conn source (some conn) = collect_drift conn source none >>= reconcile conn source

  from_leader : Option String → Option Node → Step W ℕ
  unfolding from_conn
  from_leader source none s = throw "StopIteration" s
  from_leader source (some leader) s = from_conn source (conn_named leader.name s.fleet.conns) s

  -- `run`
  unfoldable pub run_reconcile : Option String → Step W ℕ
  unfolding from_leader
  run_reconcile source s = from_leader source (bootstrap_leader s.cfg.nodes) s

  -- `fleet.current_phase = "ldap-reconcile"`, and the note.
  announce : Step W (Unit {0})
  announce s =
      add_note "phase: ldap-reconcile"
        (record s { fleet = record s.fleet { current_phase = "ldap-reconcile" } })

  -- `try: ... finally: fleet.close()`
  unfoldable pub close_after : Step W ℕ → Step W ℕ
  close_after m s = let (o, t) = m s in (o, close t)

  unfoldable pub with_sudo : Option String → Bool → Step W ℕ
  unfolding announce
  with_sudo source true s = (announce >>= λ _. close_after (run_reconcile source)) s
  with_sudo source false s = (return 2, close s)

  -- `cmd_ldap_reconcile` of akropolis/cli.py.
  unfoldable pub cmd_ldap_reconcile : Option String → Step W ℕ
  cmd_ldap_reconcile source =
      login >>= λ password. preauth remote password >>= λ able. with_sudo source able
