-- ===== src/Phases/Order.antt =====
-- Runs of akropolis/phases/base.py under replay, of one phase, and of phases that are all done.
use akropolis.Base.{◌≡◌, refl, ap, ◌∙◌, Bool, true, false, List, [], ◌∷◌, All, arith}
use akropolis.State.{phase_status}
use akropolis.Effects.{Outcome, return, pure, and_then-eq-return}
use akropolis.Session.{Session, Step}
use akropolis.Session.Remote.{Remote}
use akropolis.Phases.{Phase}
use akropolis.Phases.Runner.{Verdict, go_on, stop, attempt, visit, is_skipped, run_phases}

module _ {W : Type 0} (remote : Remote W) where
  -- A round under replay skips nothing.
  pub visit_replay : (p : Phase W) (s : Session W) → visit remote p true s ≡ attempt remote p s
  unfolding visit is_skipped
  visit_replay p s = ground arith

  abbrev next : (ps : List (Phase W)) → Bool → Verdict → Step W Bool
  next ps replay verdict = elim verdict [ go_on ↦ run_phases remote ps replay | stop ↦ pure false ]

  went_on :
      (verdict : Verdict) (u t : Session W)
      → next [] true verdict u ≡ (return true, t)
      → ◌≡◌ {A = Outcome Verdict × Session W} (return verdict, u) (return go_on, t)
  unfolding run_phases
  went_on go_on u t h = ground arith
  went_on stop u t h = ground arith

  -- A run of one phase that returns true is a round that goes on.
  pub run_single :
      (p : Phase W) (replay : Bool) (s t : Session W)
      → run_phases remote (p ∷ []) replay s ≡ (return true, t)
      → visit remote p replay s ≡ (return go_on, t)
  unfolding run_phases
  run_single p replay s t h =
      let (r, u) = visit remote p replay s in
      let (verdict, answered, h1) = and_then-eq-return r (next [] replay) u h in
      ap (λ o. (o, u)) answered ∙ went_on verdict u t h1

  -- Where all phases are done and none is replayed, a run does nothing.
  pub run_phases_done :
      (ps : List (Phase W)) (s : Session W)
      → All (λ p. phase_status p.name s.state ≡ "done") ps
      → run_phases remote ps false s ≡ (return true, s)
  unfolding run_phases visit is_skipped
  run_phases_done [] s h = refl
  run_phases_done (p ∷ ps) s h = ground (arith, run_phases_done ps s h.1)
