-- ===== src/Phases/Settled.antt =====
-- What a round, and a whole run, of akropolis/phases/base.py leaves behind.
use akropolis.Base.{
  ◌≡◌, refl, ap, sym, ◌∙◌, ◌≢◌, ◌⊎◌, inl, inr, String, Bool, true, false, string_eq, if◌then◌else◌,
  List, [], ◌∷◌, All, arith, Bool-cases,
}
use akropolis.Base.Dict.{lookup}
use akropolis.State.{phase_status}
use akropolis.State.Laws.{phase_status-mark_phase}
use akropolis.Effects.{
  Outcome, return, raise, exception, interrupt, pure, and_then, and_then-eq-return,
}
use akropolis.Session.{Session, Step}
use akropolis.Session.Remote.{Remote}
use akropolis.Phases.{Phase}
use akropolis.Phases.Frame.{IsFramed, visit_others}
use akropolis.Phases.Runner.{
  Verdict, go_on, stop, mark, confirm, enter, decline, conclude, settle, apply_phase, attempt,
  visit, is_skipped, run_phases,
}

module _ {W : Type 0} (remote : Remote W) where
  -- The phase was applied without an exception, and its health gate then passed.
  pub record IsVerified (p : Phase W) (t : Session W) : Type 0 where
    pub before : Session W
    pub applied : Session W
    pub verified : Session W
    pub apply_returns : p.apply before ≡ (return tt, applied)
    pub verify_passes : p.verify applied ≡ (return true, verified)
    pub marked : t ≡ mark remote p.name "done" [] verified

  -- The operator did not confirm an optional phase.
  pub record IsDeclined (p : Phase W) (t : Session W) : Type 0 where
    pub before : Session W
    pub optional : p.optional ≡ true
    pub marked : t ≡ mark remote p.name "skipped" [] before

  conclude_inv :
      (p : Phase W) (good : Bool) (s t : Session W)
      → conclude remote p good s ≡ (return go_on, t)
      → (good ≡ true) × (t ≡ mark remote p.name "done" [] s)
  unfolding conclude
  conclude_inv p true s t h = (refl, ground arith)
  conclude_inv p false s t h = ground arith

  settle_inv :
      (p : Phase W) (b s t : Session W) (r : Outcome (Unit {0}))
      → p.apply b ≡ (r, s)
      → settle remote p r s ≡ (return go_on, t)
      → IsVerified p t
  unfolding settle
  settle_inv p b s t (return tt) a h =
      let (good, e, c) = and_then-eq-return (p.verify s).0 (conclude remote p) (p.verify s).1 h in
      let (g, m) = conclude_inv p good (p.verify s).1 t c in
      record {
        before = b;
        applied = s;
        verified = (p.verify s).1;
        apply_returns = a;
        verify_passes = ap (λ r. (r, (p.verify s).1)) (e ∙ ap return g);
        marked = m;
      }
  settle_inv p b s t (raise (exception message)) a h = ground arith
  settle_inv p b s t (raise interrupt) a h = ground arith

  decline_inv :
      (p : Phase W) (s t : Session W) → decline remote p s ≡ (return go_on, t) → IsDeclined p t
  unfolding decline
  decline_inv p s t h = elim (Bool-cases p.optional) [
    | inl optional ↦ record { before = s; optional = optional; marked = ground arith }
    | inr required ↦ ground arith
  ]

  decide_inv :
      (p : Phase W) (confirmed : Bool) (s t : Session W)
      → (if confirmed then apply_phase remote p else decline remote p) s ≡ (return go_on, t)
      → IsVerified p t ⊎ IsDeclined p t
  unfolding apply_phase
  decide_inv p true s t h = inl (settle_inv p s (p.apply s).1 t (p.apply s).0 refl h)
  decide_inv p false s t h = inr (decline_inv p s t h)

  attempt_inv :
      (p : Phase W) (s t : Session W)
      → attempt remote p s ≡ (return go_on, t)
      → IsVerified p t ⊎ IsDeclined p t
  unfolding attempt
  attempt_inv p s t h =
      let u = (enter remote p s).1 in
      let (_, _, h1) = and_then-eq-return (enter remote p s).0 _ u h in
      let (_, _, h2) = and_then-eq-return (p.plan u).0 _ (p.plan u).1 h1 in
      let v = (p.plan u).1 in
      let (confirmed, _, h3) =
        and_then-eq-return (confirm remote p v).0 _ (confirm remote p v).1 h2 in
      decide_inv p confirmed (confirm remote p v).1 t h3

  -- A round of the runner after which it goes on has skipped a phase that was done, and changed
  -- nothing; or has applied the phase without an exception, seen its health gate pass on what that
  -- left, and marked it done; or has marked an optional phase skipped.
  pub visit_go_on :
      (p : Phase W) (replay : Bool) (s t : Session W)
      → visit remote p replay s ≡ (return go_on, t)
      → (is_skipped remote p replay s ≡ true) × (t ≡ s) ⊎ (IsVerified p t ⊎ IsDeclined p t)
  unfolding visit
  visit_go_on p replay s t h = elim (Bool-cases (is_skipped remote p replay s)) [
    | inl skipped ↦ inl (skipped, ground arith)
    | inr attempted ↦ inr (attempt_inv p s t (rw attempted at h))
  ]

  -- The status that a phase has where a run counts as done.
  unfoldable pub IsSettled : Session W → Phase W → Type 0
  IsSettled t p =
      (phase_status p.name t.state ≡ "done")
      ⊎ ((p.optional ≡ true) × (phase_status p.name t.state ≡ "skipped"))

  visit_settles :
      (p : Phase W) (replay : Bool) (s t : Session W)
      → visit remote p replay s ≡ (return go_on, t)
      → IsSettled t p
  unfolding IsSettled is_skipped mark lookup
  visit_settles p replay s t h = elim (visit_go_on p replay s t h) [
    | inl (skipped, same) ↦ inl (ap (λ u. phase_status p.name u.state) same ∙ ground arith)
    | inr (inl verified) ↦ inl (
        ap (λ u. phase_status p.name u.state) verified.marked
        ∙ phase_status-mark_phase (remote.now verified.verified.world) p.name "done" []
            verified.verified.state refl)
    | inr (inr declined) ↦ inr (
      declined.optional,
      ap (λ u. phase_status p.name u.state) declined.marked
          ∙ phase_status-mark_phase (remote.now declined.before.world) p.name "skipped" []
              declined.before.state refl,
    )
  ]

  -- No name stands twice.
  abbrev pub Distinct : List (Phase W) → Type 0
  Distinct [] = Unit
  Distinct (p ∷ ps) = All (λ q. p.name ≢ q.name) ps × Distinct ps

  abbrev next : List (Phase W) → Bool → Verdict → Step W Bool
  next ps replay verdict = elim verdict [ go_on ↦ run_phases remote ps replay | stop ↦ pure false ]

  rest_others :
      (ps : List (Phase W)) (replay : Bool) (r : Outcome Verdict) (u : Session W) (other : String)
      → phase_status other (run_phases remote ps replay u).1.state ≡ phase_status other u.state
      → phase_status other (and_then r (next ps replay) u).1.state ≡ phase_status other u.state
  rest_others ps replay (return go_on) u other ih = ih
  rest_others ps replay (return stop) u other ih = refl
  rest_others ps replay (raise e) u other ih = refl

  run_others :
      (ps : List (Phase W)) (replay : Bool) (s : Session W) (other : String)
      → All (IsFramed remote) ps
      → All (λ q. other ≢ q.name) ps
      → phase_status other (run_phases remote ps replay s).1.state ≡ phase_status other s.state
  unfolding run_phases
  run_others [] replay s other f h = refl
  run_others (p ∷ ps) replay s other f h =
      let (r, u) = visit remote p replay s in
      rest_others ps replay r u other (run_others ps replay u other f.1 h.1)
      ∙ visit_others remote p replay s other f.0 h.0

  IsSettled-transport :
      (p : Phase W) (u t : Session W)
      → phase_status p.name t.state ≡ phase_status p.name u.state
      → IsSettled u p
      → IsSettled t p
  unfolding IsSettled
  IsSettled-transport p u t e (inl done) = inl (e ∙ done)
  IsSettled-transport p u t e (inr (optional, skipped)) = inr (optional, e ∙ skipped)

  next_inv :
      (ps : List (Phase W)) (replay : Bool) (verdict : Verdict) (u t : Session W)
      → next ps replay verdict u ≡ (return true, t)
      → (verdict ≡ go_on) × (run_phases remote ps replay u ≡ (return true, t))
  next_inv ps replay go_on u t h = (refl, h)
  next_inv ps replay stop u t h = ground arith

  -- A run of phases that returns true leaves each of them done, or skipped where it is optional.
  -- The phases have different names and touch no status but their own.
  pub run_phases-IsSettled :
      (ps : List (Phase W)) (replay : Bool) (s t : Session W)
      → All (IsFramed remote) ps
      → Distinct ps
      → run_phases remote ps replay s ≡ (return true, t)
      → All (IsSettled t) ps
  unfolding run_phases
  run_phases-IsSettled [] replay s t f d h = tt
  run_phases-IsSettled (p ∷ ps) replay s t f d h =
      let (r, u) = visit remote p replay s in
      let (verdict, answered, h1) = and_then-eq-return r (next ps replay) u h in
      let (went_on, h2) = next_inv ps replay verdict u t h1 in
      let kept =
        ap (λ o. phase_status p.name o.1.state) (sym h2) ∙ run_others ps replay u p.name f.1 d.0 in
      (
        IsSettled-transport p u t kept
            (visit_settles p replay s u (ap (λ o. (o, u)) (answered ∙ ap return went_on))),
        run_phases-IsSettled ps replay u t f.1 d.1 h2,
      )

  -- A round under replay of a phase that is not optional goes on where it is verified, and only there.
  pub visit-IsVerified :
      (p : Phase W) (s t : Session W)
      → p.optional ≡ false
      → visit remote p true s ≡ (return go_on, t)
      → IsVerified p t
  unfolding is_skipped
  visit-IsVerified p s t required h = elim (visit_go_on p true s t h) [
    | inl (skipped, same) ↦ ground arith
    | inr (inl verified) ↦ verified
    | inr (inr declined) ↦ ground (arith, declined.optional)
  ]
