-- ===== src/Lifecycle/Gate.antt =====
-- The gate between `akro shutdown` and `akro start` (akropolis/phases/authentik_lifecycle.py).
use akropolis.Base.{
  ◌≡◌, refl, ◌≢◌, String, Bool, true, false, string_eq, if◌then◌else◌, List, [], ◌∷◌, arith,
}
use akropolis.Base.Dict.{Dict}
use akropolis.State.Laws.{phase_status-mark_phase_ne}
use text.Mathlib.TextEquality.{eq_iff}
use akropolis.Effects.{Outcome, return, raise, exception, pure, and_then, ◌>>=◌}
use akropolis.Session.{Session, input, take_answer, add_note}
use akropolis.Session.Remote.{Remote}
use akropolis.Phases.Order.{visit_replay}
use akropolis.Phases.Runner.{
  Verdict, go_on, stop, mark, accepts, ask, confirm, enter, decline, settle, apply_phase, attempt,
  visit, run_phases,
}
use akropolis.Lifecycle.Start
use akropolis.Lifecycle.Start.{gate, refusal, start, start_all, clear_flag}

module _ {W : Type 0} (remote : Remote W) where
  -- Nothing was done: the run gave no success, sent nothing, and left the gate as it was.
  pub record IsRefused (s : Session W) (result : Outcome Bool × Session W) : Type 0 where
    pub fails : result.0 ≢ return true
    pub world : result.1.world ≡ s.world
    pub gate : gate result.1.state ≡ gate s.state

  apply_refused :
      (s : Session W)
      → gate s.state ≢ "done"
      → Start.apply remote s ≡ (raise (exception (refusal s.state)), s)
  unfolding Start.apply
  apply_refused s h = ground arith

  -- The same of one round.
  record IsHeld (s : Session W) (result : Outcome Verdict × Session W) : Type 0 where
    pub fails : result.0 ≢ return go_on
    pub world : result.1.world ≡ s.world
    pub gate : gate result.1.state ≡ gate s.state

  other_name : ◌≢◌ {A = String} "authentik-shutdown" "authentik-start"
  other_name = ground (arith, eq_iff "authentik-shutdown" "authentik-start")

  pub marked_gate :
      (status : String) (detail : Dict String) (s : Session W)
      → gate (mark remote "authentik-start" status detail s).state ≡ gate s.state
  unfolding mark
  marked_gate status detail s =
      phase_status-mark_phase_ne (remote.now s.world) "authentik-start" status "authentik-shutdown"
        detail s.state other_name

  decide-IsHeld :
      (confirmed : Bool) (s : Session W)
      → gate s.state ≢ "done"
      → IsHeld s (
          (if confirmed then apply_phase remote (start remote) else decline remote (start remote))
            s)
  unfolding apply_phase settle decline mark
  decide-IsHeld true s h = rw (apply_refused s h) (record {
    fails = ground arith;
    world = refl;
    gate = marked_gate "failed" (("error", refusal s.state) ∷ []) s;
  })
  decide-IsHeld false s h = record {
    fails = ground arith;
    world = refl;
    gate = marked_gate "declined" [] s;
  }

  ask-IsHeld :
      (answers : List String) (s : Session W)
      → gate s.state ≢ "done"
      → IsHeld s (
          ((take_answer answers >>= λ line. pure (accepts remote s line)) >>= λ confirmed.
          if confirmed then apply_phase remote (start remote) else decline remote (start remote))
            s)
  unfolding take_answer
  ask-IsHeld [] s h = record { fails = ground arith; world = refl; gate = refl }
  ask-IsHeld (line ∷ lines) s h =
      let answered = record s { answers = lines } in
      let held = decide-IsHeld (accepts remote s line) answered h in
      record { fails = held.fails; world = held.world; gate = held.gate }

  round-IsRefused :
      (s : Session W) (r : Outcome Verdict) (t : Session W)
      → IsHeld s (r, t)
      → IsRefused s (
          (and_then r
              λ verdict. elim verdict [ go_on ↦ run_phases remote [] true | stop ↦ pure false ])
            t)
  round-IsRefused s (return go_on) t held = ground (arith, held.fails)
  round-IsRefused s (return stop) t held = record {
    fails = ground arith;
    world = held.world;
    gate = held.gate;
  }
  round-IsRefused s (raise e) t held = record {
    fails = ground arith;
    world = held.world;
    gate = held.gate;
  }

  visit-IsHeld :
      (s : Session W) → gate s.state ≢ "done" → IsHeld s (visit remote (start remote) true s)
  unfolding attempt enter add_note confirm ask input
  visit-IsHeld s h =
      let held = ask-IsHeld s.answers (enter remote (start remote) s).1 h in
      rw (visit_replay remote (start remote) s)
        (record { fails = held.fails; world = held.world; gate = held.gate })

  -- Where the gate does not read done, a run of the start phase does not succeed, leaves the nodes
  -- and the world as they were, and leaves the gate as it was, whatever the operator types.
  pub start-IsRefused :
      (s : Session W)
      → gate s.state ≢ "done"
      → IsRefused s (run_phases remote (start remote ∷ []) true s)
  unfolding run_phases
  start-IsRefused s h =
      let (r, t) = visit remote (start remote) true s in round-IsRefused s r t (visit-IsHeld s h)
