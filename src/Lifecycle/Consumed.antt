-- ===== src/Lifecycle/Consumed.antt =====
-- A successful `akro start` uses the shutdown up (akropolis/phases/authentik_lifecycle.py).
use akropolis.Base.{
  ◌≡◌, refl, sym, ◌∙◌, ap, ◌≢◌, String, true, ◌==◌, string_eq, none, [], ◌∷◌, arith, Bool-cases,
  inl, inr,
}
use akropolis.Base.Dict.{lookup}
use text.Mathlib.TextEquality.{eq_iff}
use akropolis.Effects.{return, ◌>>◌, and_then-eq-return}
use akropolis.Effects.Moves.{Moves, Moves-bind}
use akropolis.State.Laws.{phase_status-mark_phase}
use akropolis.Session.{Conn, Session, plain, add_check}
use akropolis.Session.Remote.{Remote, run}
use akropolis.Session.Waiting.{all_healthy, wait_healthy}
use akropolis.Session.Frame.{SameState, SameState-IsRespected, run-Moves, wait_for-Moves}
use akropolis.Session.Loops.{each, all_nodes-Moves}
use akropolis.Phases.Order.{run_single}
use akropolis.Phases.Runner.{mark, run_phases}
use akropolis.Phases.Settled.{visit-IsVerified}
use akropolis.Lifecycle.{scope}
use akropolis.Lifecycle.Gate.{IsRefused, start-IsRefused, marked_gate}
use akropolis.Lifecycle.Start
use akropolis.Lifecycle.Start.{
  gate, start, start_node, start_all, clear_flag, is_up, ready_check, ready_probe,
}

module _ {W : Type 0} (remote : Remote W) where
  is_up-Moves : (conn : Conn) → Moves SameState (is_up remote conn)
  unfolding is_up ready_check wait_healthy add_check
  is_up-Moves conn =
      let k = SameState-IsRespected remote in
      Moves-bind k.order (wait_healthy remote conn 60) _
        (wait_for-Moves remote k conn all_healthy none 60 10)
        λ good.
          Moves-bind k.order
            (add_check (plain conn.node.name "verify: containers healthy" good "")
              >> run remote conn ready_probe none 30)
            (ready_check remote conn good)
            (Moves-bind k.order (add_check _) _ (record { at = λ s. refl })
              λ _. run-Moves remote k conn ready_probe none 30)
            λ r. record { at = λ s. refl }

  verify_state : (s : Session W) → (Start.verify remote s).1.state ≡ s.state
  unfolding Start.verify
  verify_state s =
      (all_nodes-Moves (SameState-IsRespected remote).order (is_up remote) true s.fleet.conns
          is_up-Moves).at
        s

  status_ne_note : ◌≢◌ {A = String} "status" "note"
  status_ne_note = ground (arith, eq_iff "status" "note")

  cleared : (s : Session W) → gate (clear_flag remote s).1.state ≡ "started"
  unfolding clear_flag mark lookup
  cleared s =
      phase_status-mark_phase (remote.now s.world) "authentik-shutdown" "started" _ s.state
        (ground (arith, status_ne_note))

  start_all_cleared :
      (s t : Session W) → start_all remote s ≡ (return tt, t) → gate t.state ≡ "started"
  unfolding start_all
  start_all_cleared s t h =
      let (o, u) = each (start_node remote (scope s)) s.fleet.conns s in
      let (_, _, h1) = and_then-eq-return o (λ _. clear_flag remote) u h in
      ap (λ o. gate o.1.state) (sym h1) ∙ cleared u

  apply_cleared :
      (s t : Session W) → Start.apply remote s ≡ (return tt, t) → gate t.state ≡ "started"
  unfolding Start.apply
  apply_cleared s t h = elim (Bool-cases (gate s.state == "done")) [
    | inl opened ↦ start_all_cleared s t (rw opened at h)
    | inr shut ↦ ground arith
  ]

  -- After a run of the start phase that succeeds, the gate reads started, and another run of it
  -- without a shutdown in between is refused in the same way.
  pub start_consumes :
      (s t : Session W)
      → run_phases remote (start remote ∷ []) true s ≡ (return true, t)
      → (gate t.state ≡ "started")
        × IsRefused remote t (run_phases remote (start remote ∷ []) true t)
  start_consumes s t h =
      let v =
        visit-IsVerified remote (start remote) s t refl
          (run_single remote (start remote) true s t h) in
      let shut =
        ap (λ u. gate u.state) v.marked
        ∙ marked_gate remote "done" [] v.verified
        ∙ ap (λ o. gate o.1.state) (sym v.verify_passes)
        ∙ ap gate (verify_state v.applied)
        ∙ apply_cleared v.before v.applied v.apply_returns in
      (shut, start-IsRefused remote t (λ e. started_ne_done (sym shut ∙ e)))
    where
      started_ne_done : ◌≢◌ {A = String} "started" "done"
      started_ne_done = ground (arith, eq_iff "started" "done")
