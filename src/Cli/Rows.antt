-- ===== src/Cli/Rows.antt =====
-- `phase_rows` of akropolis/cli.py, what `cmd_status` makes of it, and how it agrees with a run.
use akropolis.Base.{
  ◌≡◌, sym, ◌∙◌, inl, inr, String, Bool, true, false, not, ◌==◌, string_eq, if◌then◌else◌, List, [],
  ◌∷◌, map, keep, All, arith, Bool-cases, Option-cases,
}
use akropolis.Base.Dict
use akropolis.State.{State, Entry, phase_status}
use akropolis.Effects.{return}
use akropolis.Session.{Session}
use akropolis.Session.Remote.{Remote}
use akropolis.Phases.{Phase}
use akropolis.Phases.Runner.{run_phases}
use akropolis.Phases.Order.{run_phases_done}

pub record Row : Type 0 where
  pub name : String
  pub status : String
  pub updated_at : String
  pub error : String
  pub optional : Bool

-- `entry.get("error", "") if entry.get("status") != "done" else ""`
unfoldable pub shown_error : Entry → String
unfolding Dict.get_or
shown_error entry =
    if Dict.get_or "status" "" entry == "done" then "" else Dict.get_or "error" "" entry

module _ {W : Type 0} where
  unfoldable pub row_of : State → Phase W → Row
  unfolding Dict.get_or shown_error
  row_of st p =
      let entry = Dict.get_or p.name [] st.document.phases in
      record {
        name = p.name;
        status = Dict.get_or "status" "pending" entry;
        updated_at = Dict.get_or "updated_at" "" entry;
        error = shown_error entry;
        optional = p.optional;
      }

  unfoldable pub phase_rows : List (Phase W) → State → List Row
  unfolding row_of
  phase_rows pipeline st = map (row_of st) pipeline

-- `[r for r in rows if r["status"] != "done"]`
unfoldable pub remaining : List Row → List Row
remaining rows = keep (λ r. not (r.status == "done")) rows

module _ {W : Type 0} where
  row_status : (st : State) (p : Phase W) → (row_of st p).status ≡ phase_status p.name st
  unfolding row_of phase_status Dict.get_or Dict.lookup
  row_status st p = elim (Option-cases (Dict.lookup p.name st.document.phases)) [
    | inl absent ↦ ground arith
    | inr (entry, found) ↦ ground arith
  ]

  none_remain :
      (ps : List (Phase W)) (st : State)
      → remaining (phase_rows ps st) ≡ []
      → All (λ p. phase_status p.name st ≡ "done") ps
  unfolding remaining phase_rows
  none_remain [] st h = tt
  none_remain (p ∷ ps) st h = elim (Bool-cases ((row_of st p).status == "done")) [
    | inl done ↦ (sym (row_status st p) ∙ ground arith, none_remain ps st (ground arith))
    | inr other ↦ ground arith
  ]

  -- Where the rows of `akro status` leave no phase that is not done, a run of the same phases
  -- without replay returns true and changes nothing.
  pub status_agrees :
      (remote : Remote W) (ps : List (Phase W)) (s : Session W)
      → remaining (phase_rows ps s.state) ≡ []
      → run_phases remote ps false s ≡ (return true, s)
  status_agrees remote ps s h = run_phases_done remote ps s (none_remain ps s.state h)
