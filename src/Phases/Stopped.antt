-- ===== src/Phases/Stopped.antt =====
-- What a round of akropolis/phases/base.py that stops the run leaves on record.
use akropolis.Base.{
  ◌≡◌, refl, ap, sym, ◌∙◌, ◌≢◌, ◌⊎◌, inl, inr, String, Bool, true, false, none, if◌then◌else◌, [],
  ◌∷◌, arith, Bool-cases,
}
use akropolis.Base.Dict.{Dict, lookup}
use text.Mathlib.TextEquality.{eq_iff}
use akropolis.State.{phase_status}
use akropolis.State.Laws.{phase_status-mark_phase}
use akropolis.Effects.{Outcome, return, raise, exception, interrupt, and_then-eq-return}
use akropolis.Session.{Session}
use akropolis.Session.Remote.{Remote}
use akropolis.Phases.{Phase}
use akropolis.Phases.Runner.{
  stop, mark, confirm, enter, decline, conclude, settle, apply_phase, attempt, visit, is_skipped,
}

module _ {W : Type 0} (remote : Remote W) where
  -- The phase failed, or it is required and was declined.
  unfoldable pub IsUnsettled : Session W → Phase W → Type 0
  IsUnsettled t p =
      (phase_status p.name t.state ≡ "failed")
      ⊎ ((p.optional ≡ false) × (phase_status p.name t.state ≡ "declined"))

  marked_status :
      (name status : String) (detail : Dict String) (s t : Session W)
      → lookup "status" detail ≡ none
      → t ≡ mark remote name status detail s
      → phase_status name t.state ≡ status
  unfolding mark
  marked_status name status detail s t h e =
      ap (λ u. phase_status name u.state) e
      ∙ phase_status-mark_phase (remote.now s.world) name status detail s.state h

  status_ne_error : ◌≢◌ {A = String} "status" "error"
  status_ne_error = ground (arith, eq_iff "status" "error")

  conclude_stop :
      (p : Phase W) (good : Bool) (s t : Session W)
      → conclude remote p good s ≡ (return stop, t)
      → phase_status p.name t.state ≡ "failed"
  unfolding conclude lookup
  conclude_stop p true s t h = ground arith
  conclude_stop p false s t h = marked_status p.name "failed" [] s t refl (ap (λ o. o.1) (sym h))

  settle_stop :
      (p : Phase W) (r : Outcome (Unit {0})) (s t : Session W)
      → settle remote p r s ≡ (return stop, t)
      → phase_status p.name t.state ≡ "failed"
  unfolding settle lookup
  settle_stop p (return _) s t h =
      let (good, _, c) = and_then-eq-return (p.verify s).0 (conclude remote p) (p.verify s).1 h in
      conclude_stop p good (p.verify s).1 t c
  settle_stop p (raise (exception message)) s t h =
      marked_status p.name "failed" (("error", message) ∷ []) s t (ground (arith, status_ne_error))
        (ap (λ o. o.1) (sym h))
  settle_stop p (raise interrupt) s t h = ground arith

  decline_stop :
      (p : Phase W) (s t : Session W)
      → decline remote p s ≡ (return stop, t)
      → (p.optional ≡ false) × (phase_status p.name t.state ≡ "declined")
  unfolding decline lookup
  decline_stop p s t h = elim (Bool-cases p.optional) [
    | inl optional ↦ ground arith
    | inr required ↦ (required, marked_status p.name "declined" [] s t refl (ground arith))
  ]

  decide_stop :
      (p : Phase W) (confirmed : Bool) (s t : Session W)
      → (if confirmed then apply_phase remote p else decline remote p) s ≡ (return stop, t)
      → IsUnsettled t p
  unfolding apply_phase IsUnsettled
  decide_stop p true s t h = inl (settle_stop p (p.apply s).0 (p.apply s).1 t h)
  decide_stop p false s t h = inr (decline_stop p s t h)

  attempt_stop :
      (p : Phase W) (s t : Session W) → attempt remote p s ≡ (return stop, t) → IsUnsettled t p
  unfolding attempt
  attempt_stop p s t h =
      let u = (enter remote p s).1 in
      let (_, _, h1) = and_then-eq-return (enter remote p s).0 _ u h in
      let (_, _, h2) = and_then-eq-return (p.plan u).0 _ (p.plan u).1 h1 in
      let v = (p.plan u).1 in
      let (confirmed, _, h3) =
        and_then-eq-return (confirm remote p v).0 _ (confirm remote p v).1 h2 in
      decide_stop p confirmed (confirm remote p v).1 t h3

  -- A round of the runner that stops the run leaves its phase recorded as failed, or as declined
  -- where the phase is required.
  pub visit-IsUnsettled :
      (p : Phase W) (replay : Bool) (s t : Session W)
      → visit remote p replay s ≡ (return stop, t)
      → IsUnsettled t p
  unfolding visit
  visit-IsUnsettled p replay s t h = elim (Bool-cases (is_skipped remote p replay s)) [
    | inl skipped ↦ ground arith
    | inr attempted ↦ attempt_stop p s t (rw attempted at h)
  ]
