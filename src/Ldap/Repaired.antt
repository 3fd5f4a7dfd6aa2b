-- ===== src/Ldap/Repaired.antt =====
-- What has been seen where akropolis/phases/ldap_reconcile.py reports that it repaired everything.
use akropolis.Base.{
  ◌≡◌, refl, sym, ◌∙◌, ap, subst, ℕ, String, Bool, true, false, ◌||◌, ◌==◌, string_eq, Option, none,
  some, List, [], ◌∷◌, All, map, Bool-cases, inl, inr, arith,
}
use akropolis.Effects.{Outcome, return, and_then-eq-return}
use akropolis.Session.{Conn, Session, add_check}
use akropolis.Session.Remote.{Remote, Reply, is_ok}
use akropolis.Session.Sent.{Exchange, exchange-eq-return, Exchange-from, Exchange-to}
use akropolis.Effects.Moves.{Moves}
use akropolis.Base.Lines.{split_lines}
use akropolis.Session.Loops.{all_nodes, All-all_nodes, all_nodes-Moves}
use akropolis.Ldap.Scripts.{Row, dry_run_script, apply_script}
use akropolis.Phases.Runner.{says_yes}
use akropolis.Ldap.Confirmed.{picked, confirm_inv, confirm-Moves, Untouched, order}
use akropolis.Ldap.{
  Report, Result, Json, read_marked, after_script, run_script, script_cmd, marked_line,
  collect_drift, apply_changes, record_result, record_row, exit_code, repair, repair_confirmed,
  confirm_rows, no_rows, no_names, is_unknown, drifted_rows, reconcile, has_status,
}

module _ {W : Type 0} (remote : Remote W) (json : Json) where
  -- From the session `s` on: the confirmed rows, and no others, were sent to be changed, by a
  -- command that worked and answered for every change that it was made; then, with nothing in
  -- between, another report for their users was asked for, which shows every one as in LDAP, and
  -- nothing was sent after it.
  pub record IsRepaired (conn : Conn) (source : Option String) (confirmed : List Row)
      (s t : Session W) : Type 0 where
    pub reply : Reply
    pub asked : Session W
    pub changed : Session W
    pub results : List Result
    pub sent :
        Exchange remote conn
          (script_cmd (apply_script json.repr confirmed))
          120
          reply
          s.world
          changed.world
    pub works : is_ok reply ≡ true
    pub same_start : asked.world ≡ s.world
    pub applied : apply_changes remote json conn confirmed asked ≡ (return results, changed)
    pub updated : All (λ result. (result.status == "UPDATED") ≡ true) results
    pub seen : Reply
    pub again : Session W
    pub reported : Session W
    pub report : Report
    pub looked :
        Exchange remote conn
          (script_cmd
            (dry_run_script json.repr source (some (map (λ (row : Row). row.username) confirmed))))
          120
          seen
          changed.world
          t.world
    pub same_again : again.world ≡ changed.world
    pub read :
        collect_drift remote json conn source (some (map (λ row. row.username) confirmed)) again
        ≡ (return report, reported)
    pub same_end : reported.world ≡ t.world
    pub same : All (λ row. has_status "SAME" row ≡ true) report.rows

  read_inv :
      {A : Type 0} (loads : String → Outcome A) (message : String) (line : Option String)
      (s t : Session W) (a : A)
      → read_marked remote json loads message line s ≡ (return a, t)
      → s.world ≡ t.world
  unfolding read_marked
  read_inv loads message none s t a h = ground (arith, ap (λ o. o.0) h)
  read_inv loads message (some line) s t a h = ap (λ o. o.1.world) h

  after_inv :
      {A : Type 0} (loads : String → Outcome A) (conn : Conn) (label : String) (r : Reply)
      (s t : Session W) (a : A)
      → after_script remote json loads conn label r s ≡ (return a, t)
      → (is_ok r ≡ true) × (s.world ≡ t.world)
  unfolding after_script
  after_inv loads conn label r s t a h = elim (Bool-cases (is_ok r)) [
    | inl works ↦ (works, read_inv loads _ (marked_line (split_lines r.out)) s t a (rw works at h))
    | inr fails ↦ ground (arith, ap (λ o. o.0) (rw fails at h))
  ]

  script_inv :
      {A : Type 0} (loads : String → Outcome A) (conn : Conn) (script label : String)
      (s t : Session W) (a : A)
      → run_script remote json loads conn script label s ≡ (return a, t)
      → (r : Reply) × (Exchange remote conn (script_cmd script) 120 r s.world t.world
          × (is_ok r ≡ true))
  unfolding run_script
  script_inv loads conn script label s t a h =
      let (r, (sent, h1)) = exchange-eq-return remote conn (script_cmd script) 120 _ s h in
      let (works, same) = after_inv loads conn label r _ t a h1 in
      (r, (Exchange-to remote same sent, works))

  changes_inv :
      (conn : Conn) (rows : List Row) (s t : Session W) (results : List Result)
      → no_rows rows ≡ false
      → apply_changes remote json conn rows s ≡ (return results, t)
      → (r : Reply) × (Exchange remote conn
            (script_cmd (apply_script json.repr rows))
            120
            r
            s.world
            t.world
          × (is_ok r ≡ true))
  unfolding apply_changes
  changes_inv conn [] s t results some_row h = ground arith
  changes_inv conn (row ∷ rows) s t results some_row h =
      script_inv json.results conn _ "repointing confirmed identifiers" s t results h

  result-Moves :
      (conn : Conn) (result : Result)
      → Moves (Untouched remote json) (record_result remote json conn result)
  unfolding record_result add_check
  result-Moves conn result = record { at = λ s. (refl, refl) }

  row-Moves :
      (conn : Conn) (row : Row) → Moves (Untouched remote json) (record_row remote json conn row)
  unfolding record_row add_check
  row-Moves conn row = record { at = λ s. (refl, refl) }

  result_inv :
      (conn : Conn) (result : Result) (s t : Session W)
      → record_result remote json conn result s ≡ (return true, t)
      → (result.status == "UPDATED") ≡ true
  unfolding record_result add_check
  result_inv conn result s t h = ground (arith, h)

  row_inv :
      (conn : Conn) (row : Row) (s t : Session W)
      → record_row remote json conn row s ≡ (return true, t)
      → has_status "SAME" row ≡ true
  unfolding record_row add_check
  row_inv conn row s t h = ground (arith, h)

  code_inv :
      (good : Bool) (s t : Session W)
      → ◌≡◌ {A = Outcome ℕ × Session W} (return (exit_code remote json good), s) (return 0, t)
      → (good ≡ true) × (s.world ≡ t.world)
  code_inv true s t h = (refl, ap (λ o. o.1.world) h)
  code_inv false s t h = ground (arith, ap (λ o. o.0) h)

  repair-IsRepaired :
      (conn : Conn) (source : Option String) (confirmed : List Row) (r s t : Session W)
      → no_rows confirmed ≡ false
      → s.world ≡ r.world
      → repair remote json conn source confirmed s ≡ (return 0, t)
      → IsRepaired conn source confirmed r t
  unfolding repair collect_drift
  repair-IsRepaired conn source confirmed r s t some_row start h =
      let (o, u) = apply_changes remote json conn confirmed s in
      let (results, applied, h1) = and_then-eq-return o _ u h in
      let (p, v) = all_nodes (record_result remote json conn) true results u in
      let (ok, recorded, h2) = and_then-eq-return p _ v h1 in
      let names = some (map (λ (row : Row). row.username) confirmed) in
      let (q, w) = collect_drift remote json conn source names v in
      let (report, reported, h3) = and_then-eq-return q _ w h2 in
      let (z, x) = all_nodes (record_row remote json conn) ok report.rows w in
      let (good, verified, h4) = and_then-eq-return z _ x h3 in
      let (fine, ended) = code_inv good x t h4 in
      let (ok_before, same) =
        All-all_nodes (record_row remote json conn) (row_inv conn) report.rows ok w x
          (ap (λ z. (z, x)) (verified ∙ ap return fine)) in
      let (reply, (sent, works)) =
        changes_inv conn confirmed s u results some_row (ap (λ o. (o, u)) applied) in
      let read = ap (λ q. (q, w)) reported in
      let (seen, (looked, _)) =
        script_inv json.report conn (dry_run_script json.repr source names)
          "reading LDAP source drift" v w report read in
      let again =
        ((all_nodes-Moves (order remote json) (record_result remote json conn) true results
            (result-Moves conn)).at
          u).0 in
      let end =
        sym
          ((all_nodes-Moves (order remote json) (record_row remote json conn) ok report.rows
              (row-Moves conn)).at
            w).0
        ∙ ended in
      record {
        reply = reply;
        asked = s;
        changed = u;
        results = results;
        sent = Exchange-from remote start sent;
        works = works;
        same_start = start;
        applied = ap (λ o. (o, u)) applied;
        updated =
            (All-all_nodes (record_result remote json conn) (result_inv conn) results true u v
              (ap (λ p. (p, v)) (recorded ∙ ap return ok_before))).1;
        seen = seen;
        again = v;
        reported = w;
        report = report;
        looked = Exchange-from remote again (Exchange-to remote end looked);
        same_again = again;
        read = read;
        same_end = end;
        same = same;
      }

  nothing_picked :
      (rows : List Row) (lines : List String)
      → no_rows rows ≡ true
      → no_rows (picked (says_yes remote) rows lines) ≡ true
  nothing_picked [] lines h = refl
  nothing_picked (row ∷ rows) lines h = ground arith

  confirmed_inv :
      (conn : Conn) (source : Option String) (confirmed : List Row) (r s t : Session W)
      → no_rows confirmed ≡ false
      → s.world ≡ r.world
      → repair_confirmed remote json conn source confirmed s ≡ (return 0, t)
      → IsRepaired conn source confirmed r t
  unfolding repair_confirmed
  confirmed_inv conn source confirmed r s t some_row start h =
      repair-IsRepaired conn source confirmed r s t some_row start (rw some_row at h)

  -- Where the reconciliation ends with exit code 0 and the operator agreed to some of the rows
  -- that differ, the first command sent is the script that changes exactly those rows; it exited
  -- with 0 and answered UPDATED in every result; the next and last command asks for the report of
  -- the users of those rows, which has no row that is not SAME.
  pub reconcile-IsRepaired :
      (conn : Conn) (source : Option String) (report : Report) (s t : Session W)
      → no_rows (picked (says_yes remote) (drifted_rows report.rows) s.answers) ≡ false
      → reconcile remote json conn source report s ≡ (return 0, t)
      → IsRepaired conn source (picked (says_yes remote) (drifted_rows report.rows) s.answers) s t
  unfolding reconcile
  reconcile-IsRepaired conn source report s t some_row h =
      let rows = drifted_rows report.rows in
      elim (Bool-cases
        (is_unknown source report.sources_checked || no_names report.sources_checked)) [
          | inl unknown ↦ ground (arith, rw unknown at h)
          | inr known ↦ elim (Bool-cases (no_rows rows)) [
            | inl same ↦ ground (arith, some_row, nothing_picked rows s.answers same)
            | inr drift ↦
                let (o, u) = confirm_rows remote json rows s in
                let (confirmed, answered, h1) =
                  and_then-eq-return o (repair_confirmed remote json conn source) u
                    (rw drift at (rw known at h)) in
                let chosen : confirmed ≡ picked (says_yes remote) rows s.answers =
                  confirm_inv remote json rows confirmed s.answers s u refl
                    (ap (λ o. (o, u)) answered) in
                let found : no_rows confirmed ≡ false =
                  subst (λ c. no_rows c ≡ false) (sym chosen) some_row in
                subst (λ c. IsRepaired conn source c s t) chosen
                  (confirmed_inv conn source confirmed s u t found
                    ((confirm-Moves remote json rows).at s).0 h1)
          ]
        ]
