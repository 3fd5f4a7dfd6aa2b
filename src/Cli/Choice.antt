-- ===== src/Cli/Choice.antt =====
-- Which phases `cmd_provision` of akropolis/cli.py runs, and what its exit code says.
use akropolis.Base.{
  ◌≡◌, refl, sym, ◌∙◌, ap, subst, ℕ, String, Bool, true, false, ◌||◌, ◌==◌, string_eq, contains,
  if◌then◌else◌, List, [], ◌∷◌, All, arith,
}
use akropolis.Base.Dict.{lookup}
use akropolis.State.{phase_status}
use akropolis.State.Laws.{phase_status-mark_phase, phase_status-mark_phase_ne}
use akropolis.Effects.{Outcome, return, and_then-eq-return}
use akropolis.Session.{Session, Step}
use akropolis.Session.Remote.{Remote}
use akropolis.Phases.{Phase}
use akropolis.Phases.Runner.{mark, run_phases}
use akropolis.Phases.Frame.{IsFramed}
use akropolis.Phases.Settled.{IsSettled, Distinct, run_phases-IsSettled}
use akropolis.Cli.Login.{login, preauth}
use akropolis.Cli.Commands.{close, closing, mark_pending, run_selected, proceed, provision}

module _ {W : Type 0} (remote : Remote W) where
  marked_pending :
      (name other : String) (rest : Bool) (s : Session W)
      → (if rest then "pending" else phase_status other (mark remote name "pending" [] s).state)
        ≡ (if other == name || rest then "pending" else phase_status other s.state)
  unfolding mark lookup
  marked_pending name other true s = ground arith
  marked_pending name other false s = ground (
    arith,
    phase_status-mark_phase (remote.now s.world) name "pending" [] s.state refl,
    phase_status-mark_phase_ne (remote.now s.world) name "pending" other [] s.state,
  )

  -- After the marks of `--replay`, every phase that it names is pending and every other has the
  -- status that it had.
  pub phase_status-mark_pending :
      (names : List String) (other : String) (s : Session W)
      → phase_status other (mark_pending remote names s).state
        ≡ (if contains names other then "pending" else phase_status other s.state)
  unfolding mark_pending
  phase_status-mark_pending [] other s = refl
  phase_status-mark_pending (name ∷ names) other s =
      phase_status-mark_pending names other (mark remote name "pending" [] s)
      ∙ marked_pending name other (contains names other) s

  code_inv :
      (ok : Bool) (u t : Session W)
      → ◌≡◌ {A = Outcome ℕ × Session W} (return (if ok then 0 else 1), u) (return 0, t)
      → ok ≡ true
  code_inv true u t h = refl
  code_inv false u t h = ground arith

  code_state :
      (ok : Bool) (u t : Session W)
      → ◌≡◌ {A = Outcome ℕ × Session W} (return (if ok then 0 else 1), u) (return 0, t)
      → t ≡ u
  code_state ok u t h = ap (λ o. o.1) (sym h)

  closing_inv :
      (m : Step W Bool) (s t : Session W)
      → closing m s ≡ (return 0, t)
      → (u : Session W) × (m s ≡ (return true, u)) × (t ≡ close u)
  unfolding closing
  closing_inv m s t h =
      let (o, u) = m s in
      let (ok, answered, h1) =
        and_then-eq-return o (λ ok v. (return (if ok then 0 else 1), v)) (close u) h in
      (
        u,
        ap (λ o. (o, u)) (answered ∙ ap return (code_inv ok (close u) t h1)),
        code_state ok (close u) t h1,
      )

  able-IsSettled :
      (pipeline : List (Phase W)) (replay : List String) (able : Bool) (s t : Session W)
      → All (IsFramed remote) pipeline
      → Distinct remote pipeline
      → proceed remote pipeline replay [] able s ≡ (return 0, t)
      → All (IsSettled remote t) pipeline
  unfolding IsSettled close proceed run_selected
  able-IsSettled pipeline replay true s t f d h =
      let (u, run, e) =
        closing_inv (run_phases remote pipeline false) (mark_pending remote replay s) t h in
      subst (λ t. All (IsSettled remote t) pipeline) (sym e)
        (run_phases-IsSettled remote pipeline false (mark_pending remote replay s) u f d run)
  able-IsSettled pipeline replay false s t f d h = ground arith

  -- Where `akro provision` without `--only` exits with 0, every phase of its pipeline is recorded
  -- as done, or as skipped where it is optional, whatever `--replay` named. The phases have
  -- different names and touch no status but their own.
  pub provision-IsSettled :
      (pipeline : List (Phase W)) (replay : List String) (s t : Session W)
      → All (IsFramed remote) pipeline
      → Distinct remote pipeline
      → provision remote pipeline replay [] s ≡ (return 0, t)
      → All (IsSettled remote t) pipeline
  unfolding provision
  provision-IsSettled pipeline replay s t f d h =
      let (o, u) = login s in
      let (password, _, h1) = and_then-eq-return o _ u h in
      let (p, v) = preauth remote password u in
      let (able, _, h2) = and_then-eq-return p _ v h1 in
      able-IsSettled pipeline replay able v t f d h2
