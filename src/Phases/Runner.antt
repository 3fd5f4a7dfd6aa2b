-- ===== src/Phases/Runner.antt =====
-- `run_phases` of akropolis/phases/base.py.
use akropolis.Base.{
  String, ◌<>◌, Bool, true, false, not, ◌&&◌, ◌||◌, ◌==◌, string_eq, if◌then◌else◌, List, [], ◌∷◌,
}
use akropolis.Base.Dict.{Dict}
use akropolis.Base.Text.{strip, lower_is}
use akropolis.Value.{is_text}
use akropolis.State.{phase_status, mark_phase}
use akropolis.Effects.{Outcome, return, raise, exception, interrupt, pure, ◌>>=◌, ◌>>◌}
use akropolis.Session.{Session, Step, input, add_note}
use akropolis.Session.Remote.{Remote}
use akropolis.Phases.{Phase}

-- What one round of the loop says: `continue`, or `return False`.
pub data Verdict : Type 0 where
  go_on stop : Verdict

module _ {W : Type 0} (remote : Remote W) where
  -- `ctx.state.mark_phase(name, status, detail)`
  unfoldable pub mark : String → String → Dict String → Session W → Session W
  mark name status detail s = record s {
    state = mark_phase (remote.now s.world) name status detail s.state;
  }

  -- `answer in ("y", "yes")` after `strip` and `lower`.
  unfoldable pub says_yes : String → Bool
  says_yes line = lower_is (strip line) "y" || lower_is (strip line) "yes"

  unfoldable pub accepts : Session W → String → Bool
  accepts s line =
      if is_text s.cfg.environment "production"
      then is_text s.cfg.name (strip line)
      else says_yes line

  unfoldable pub ask : Step W Bool
  ask s = (do line ← input; pure (accepts s line)) s

  -- `_confirm`
  unfoldable pub confirm : Phase W → Step W Bool
  confirm p = do needed ← p.needs_confirm; if needed then ask else pure true

  -- The head of a round: `ctx.checks.clear()`, the fleet's current phase, the note.
  unfoldable pub enter : Phase W → Step W (Unit {0})
  enter p s =
      add_note ("phase: " <> p.name)
        (record s { checks = []; fleet = record s.fleet { current_phase = p.name } })

  -- Not confirmed: skip what is optional, stop at what is not.
  unfoldable pub decline : Phase W → Step W Verdict
  decline p s =
      if p.optional
      then (return go_on, mark p.name "skipped" [] s)
      else (return stop, mark p.name "declined" [] s)

  unfoldable pub conclude : Phase W → Bool → Step W Verdict
  conclude p true s = (return go_on, mark p.name "done" [] s)
  conclude p false s = (return stop, mark p.name "failed" [] s)

  -- `try: phase.apply(ctx)` with its handler, then the health gate.
  unfoldable pub settle : Phase W → Outcome (Unit {0}) → Step W Verdict
  settle p (return _) s = (do good ← p.verify; conclude p good) s
  settle p (raise (exception message)) s =
      (return stop, mark p.name "failed" (("error", message) ∷ []) s)
  settle p (raise interrupt) s = (raise interrupt, s)

  unfoldable pub apply_phase : Phase W → Step W Verdict
  apply_phase p s = let (r, t) = p.apply s in settle p r t

  unfoldable pub attempt : Phase W → Step W Verdict
  attempt p = do
    enter p
    p.plan
    confirmed ← confirm p
    if confirmed then apply_phase p else decline p

  -- `status == "done" and not replay`
  unfoldable pub is_skipped : Phase W → Bool → Session W → Bool
  is_skipped p replay s = phase_status p.name s.state == "done" && not replay

  -- One round of the loop.
  unfoldable pub visit : Phase W → Bool → Step W Verdict
  visit p replay s = if is_skipped p replay s then (return go_on, s) else attempt p s

  unfoldable pub run_phases : List (Phase W) → Bool → Step W Bool
  run_phases [] replay s = (return true, s)
  run_phases (p ∷ ps) replay s =
      (do
        verdict ← visit p replay
        elim verdict [ go_on ↦ run_phases ps replay | stop ↦ pure false ])
        s
