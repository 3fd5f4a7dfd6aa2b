-- ===== src/Phases/Tests.antt =====
-- Runs of akropolis/phases/base.py's `run_phases`, and its theorems at concrete phases.
use akropolis.Base.{
  ◌≡◌, refl, ◌≢◌, ◌⊎◌, ℕ, String, Bool, true, false, string_eq, List, [], ◌∷◌, All, arith,
}
use akropolis.Base.Dict
use akropolis.Base.Text.{strip, lower_is}
use text.Mathlib.TextEquality.{eq_iff}
use akropolis.Effects.{Outcome, pure}
use akropolis.State.{phase_status, mark_entry, mark_phase, save}
use akropolis.State.Saving.{save_disk, run_steps, save_steps}
use akropolis.Session.{Session, input, take_answer, add_note}
use akropolis.Session.Samples.{up, fresh_session}
use akropolis.Phases.{Phase}
use akropolis.Phases.Runner.{
  Verdict, mark, says_yes, accepts, ask, confirm, enter, decline, conclude, settle, apply_phase,
  attempt, is_skipped, visit, run_phases,
}
use akropolis.Phases.Frame.{IsFramed, SameOthers}
use akropolis.Phases.Stopped.{IsUnsettled, visit-IsUnsettled}
use akropolis.Phases.Settled.{IsVerified, IsDeclined, IsSettled, visit_go_on, run_phases-IsSettled}

abbrev quiet : String → Bool → Phase ℕ
quiet name optional = record {
  name = name;
  read_only = false;
  optional = optional;
  needs_confirm = pure true;
  plan = pure (name ∷ []);
  apply = pure tt;
  verify = pure true;
}

quiet-IsFramed : (name : String) (optional : Bool) → IsFramed up (quiet name optional)
unfolding IsFramed SameOthers
quiet-IsFramed name optional = record {
  needs_confirm = record { at = λ s other h. refl };
  plan = record { at = λ s other h. refl };
  apply = record { at = λ s other h. refl };
  verify = record { at = λ s other h. refl };
}

-- The second is optional, and will be declined.
abbrev two : List (Phase ℕ)
two = quiet "etcd" false ∷ quiet "restore" true ∷ []

abbrev start : Session ℕ
start = fresh_session (" Yes" ∷ "n" ∷ [])

ran : Session ℕ → Outcome Bool × Session ℕ
unfolding run_phases visit is_skipped attempt enter add_note confirm ask input take_answer accepts
    says_yes strip lower_is decline apply_phase settle conclude mark mark_phase mark_entry save
    save_disk run_steps save_steps phase_status Dict.lookup Dict.get_or Dict.insert Dict.erase
    Dict.update string_eq
ran s = run_phases up two false s

abbrev end : Session ℕ
end = (ran start).1

statuses : (phase_status "etcd" end.state ≡ "done") × (phase_status "restore" end.state ≡ "skipped")
unfolding ran phase_status Dict.lookup Dict.get_or string_eq
statuses = (refl, refl)

names_differ : ◌≢◌ {A = String} "etcd" "restore"
names_differ = ground (arith, eq_iff "etcd" "restore")

run_phases-IsSettled_example : All (IsSettled up end) two
unfolding ran
run_phases-IsSettled_example =
    run_phases-IsSettled up two false start end (quiet-IsFramed _ _, (quiet-IsFramed _ _, tt))
      ((names_differ, tt), (tt, tt)) refl

visited : Session ℕ → Outcome Verdict × Session ℕ
unfolding ran
visited s = visit up (quiet "etcd" false) false s

visit_go_on_example :
    (is_skipped up (quiet "etcd" false) false start ≡ true) × ((visited start).1 ≡ start)
    ⊎ (IsVerified up (quiet "etcd" false) (visited start).1
        ⊎ IsDeclined up (quiet "etcd" false) (visited start).1)
unfolding visited ran visit is_skipped attempt enter add_note confirm ask input take_answer accepts
    says_yes strip lower_is apply_phase settle conclude phase_status string_eq Dict.lookup
visit_go_on_example = visit_go_on up (quiet "etcd" false) false start (visited start).1 refl

-- A required phase, declined.
abbrev unwilling : Session ℕ
unwilling = fresh_session ("no" ∷ [])

visit-IsUnsettled_example : IsUnsettled up (visited unwilling).1 (quiet "etcd" false)
unfolding visited ran visit is_skipped attempt enter add_note confirm ask input take_answer accepts
    says_yes strip lower_is decline phase_status string_eq Dict.lookup
visit-IsUnsettled_example =
    visit-IsUnsettled up (quiet "etcd" false) false unwilling (visited unwilling).1 refl
