-- ===== src/Phases/Frame.antt =====
-- What a round of akropolis/phases/base.py can change, for any relation of session to session that
-- its parts and the phase respect; and the phases that touch no status but their own.
use akropolis.Base.{
  ◌≡◌, refl, ◌∙◌, ◌≢◌, String, Bool, true, false, List, [], ◌∷◌, Bool-cases, inl, inr,
}
use akropolis.Base.Dict.{Dict}
use akropolis.State.{phase_status}
use akropolis.State.Laws.{phase_status-mark_phase_ne}
use akropolis.Effects.{Outcome, return, raise, exception, interrupt}
use akropolis.Effects.Moves.{Moves, IsPreorder, and_then_moves, Moves-bind, Moves-if}
use akropolis.Session.{Session, input, take_answer, add_note}
use akropolis.Session.Remote.{Remote}
use akropolis.Phases.{Phase}
use akropolis.Phases.Runner.{
  mark, ask, confirm, enter, decline, conclude, settle, apply_phase, attempt, visit, is_skipped,
}

-- The four methods of a phase.
pub record IsMoving {W : Type 0} (R : Session W → Session W → Type 0) (p : Phase W) : Type 0 where
  pub needs_confirm : Moves R p.needs_confirm
  pub plan : Moves R p.plan
  pub apply : Moves R p.apply
  pub verify : Moves R p.verify

-- The order, and what the runner itself does to a session.
pub record IsRunner {W : Type 0} (remote : Remote W) (R : Session W → Session W → Type 0)
    (p : Phase W) : Type 0 where
  pub order : IsPreorder R
  pub entered : (s : Session W) → R s (enter remote p s).1
  pub asked : (answers : List String) (s : Session W) → R s (record s { answers = answers })
  pub marked :
      (status : String) (detail : Dict String) (s : Session W)
      → R s (mark remote p.name status detail s)

module _ {W : Type 0} (remote : Remote W) {R : Session W → Session W → Type 0} (p : Phase W)
    (k : IsRunner remote R p) (m : IsMoving R p) where
  decline-Moves : Moves R (decline remote p)
  unfolding decline
  decline-Moves = record {
    at = λ s. elim (Bool-cases p.optional) [
      | inl optional ↦ rw optional (k.marked "skipped" [] s)
      | inr required ↦ rw required (k.marked "declined" [] s)
    ];
  }

  conclude-Moves : (good : Bool) → Moves R (conclude remote p good)
  unfolding conclude
  conclude-Moves true = record { at = k.marked "done" [] }
  conclude-Moves false = record { at = k.marked "failed" [] }

  settle-Moves : (r : Outcome (Unit {0})) → Moves R (settle remote p r)
  unfolding settle
  settle-Moves (return _) = Moves-bind k.order p.verify _ m.verify conclude-Moves
  settle-Moves (raise (exception message)) = record {
    at = k.marked "failed" (("error", message) ∷ []);
  }
  settle-Moves (raise interrupt) = record { at = k.order.reflexive }

  apply_phase-Moves : Moves R (apply_phase remote p)
  unfolding apply_phase
  apply_phase-Moves = record {
    at = λ s.
        let (r, t) = p.apply s in
        k.order.transitive s t (settle remote p r t).1 (m.apply.at s) ((settle-Moves r).at t);
  }

  take_answer_moves : (lines : List String) (s : Session W) → R s (take_answer lines s).1
  unfolding take_answer
  take_answer_moves [] s = k.order.reflexive s
  take_answer_moves (line ∷ lines) s = k.asked lines s

  ask-Moves : Moves R (ask remote)
  unfolding ask input
  ask-Moves = record {
    at = λ s.
        let (r, t) = take_answer s.answers s in
        and_then_moves k.order r _ s t (take_answer_moves s.answers s)
          λ _. record { at = k.order.reflexive };
  }

  confirm-Moves : Moves R (confirm remote p)
  unfolding confirm
  confirm-Moves =
      Moves-bind k.order p.needs_confirm _ m.needs_confirm
        λ needed. Moves-if k.order needed _ _ ask-Moves (record { at = k.order.reflexive })

  attempt-Moves : Moves R (attempt remote p)
  unfolding attempt
  attempt-Moves =
      Moves-bind k.order (enter remote p) _ (record { at = k.entered })
        λ _. Moves-bind k.order p.plan _ m.plan λ _.
          Moves-bind k.order (confirm remote p) _ confirm-Moves
            λ confirmed. Moves-if k.order confirmed _ _ apply_phase-Moves decline-Moves

  pub visit-Moves : (replay : Bool) → Moves R (visit remote p replay)
  unfolding visit
  visit-Moves replay = record {
    at = λ s. elim (Bool-cases (is_skipped remote p replay s)) [
      | inl skipped ↦ rw skipped (k.order.reflexive s)
      | inr attempted ↦ rw attempted (attempt-Moves.at s)
    ];
  }

-- The status of every phase but `name` is the same.
unfoldable pub SameOthers : {W : Type 0} → String → Session W → Session W → Type 0
SameOthers name s t =
    (other : String) → other ≢ name → phase_status other t.state ≡ phase_status other s.state

module _ {W : Type 0} (remote : Remote W) (p : Phase W) where
  -- A phase that touches no status but its own.
  unfoldable pub IsFramed : Type 0
  IsFramed = IsMoving (SameOthers p.name) p

  SameOthers-IsRunner : IsRunner remote (SameOthers p.name) p
  unfolding SameOthers enter add_note mark
  SameOthers-IsRunner = record {
    order = record {
      reflexive = λ s other h. refl;
      transitive = λ s t u f g other h. g other h ∙ f other h;
    };
    entered = λ s other h. refl;
    asked = λ answers s other h. refl;
    marked = λ status detail s other h.
        phase_status-mark_phase_ne (remote.now s.world) p.name status other detail s.state h;
  }

  pub visit_others :
      (replay : Bool) (s : Session W) (other : String)
      → IsFramed
      → other ≢ p.name
      → phase_status other (visit remote p replay s).1.state ≡ phase_status other s.state
  unfolding IsFramed SameOthers
  visit_others replay s other f h = (visit-Moves remote p SameOthers-IsRunner f replay).at s other h
