-- ===== src/Lifecycle/Stopped.antt =====
-- What a successful `akro shutdown` has seen (akropolis/phases/authentik_lifecycle.py).
use akropolis.Base.{
  ◌≡◌, refl, sym, ◌∙◌, ap, subst, Bool, true, false, not, ◌&&◌, none, List, [], ◌∷◌, All, arith,
}
use akropolis.Effects.{return, and_then-eq-return}
use akropolis.Base.Dict.{lookup}
use akropolis.State.Laws.{phase_status-mark_phase}
use akropolis.Session.{Conn, Session, add_check, add_note}
use akropolis.Session.Remote.{Remote, Reply, is_ok, run}
use akropolis.Session.Frame.{SameNodes, SameNodes-IsRespected}
use akropolis.Session.Loops.{all_nodes}
use akropolis.Phases.Order.{run_single}
use akropolis.Phases.Frame.{IsMoving, IsRunner, visit-Moves}
use akropolis.Phases.Runner.{mark, enter, run_phases}
use akropolis.Phases.Settled.{visit-IsVerified}
use akropolis.Lifecycle.{running}
use akropolis.Lifecycle.Frame.{shutdown-IsMoving}
use akropolis.Lifecycle.Shutdown
use akropolis.Lifecycle.Shutdown.{shutdown, is_stopped}
use akropolis.Lifecycle.Start.{gate}

module _ {W : Type 0} (remote : Remote W) where
  -- The probe for running containers was sent to the node, and found none.
  pub record WasStopped (conn : Conn) : Type 0 where
    pub before : Session W
    pub after : Session W
    pub reply : Reply
    pub probed : run remote conn running none 30 before ≡ (return reply, after)
    pub none_running : is_ok reply ≡ false

  good_inv : (r : Reply) → not (is_ok r) ≡ true → is_ok r ≡ false
  good_inv r h = ground arith

  is_stopped_inv :
      (conn : Conn) (s t : Session W) (good : Bool)
      → is_stopped remote conn s ≡ (return good, t)
      → good ≡ true
      → WasStopped conn
  unfolding is_stopped add_check
  is_stopped_inv conn s t good h g =
      let (o, u) = run remote conn running none 30 s in
      let (r, answered, h1) = and_then-eq-return o _ u h in
      record {
        before = s;
        after = u;
        reply = r;
        probed = ap (λ o. (o, u)) answered;
        none_running = ground (arith, h1, g);
      }

  and_inv : (a b : Bool) → (a && b) ≡ true → (a ≡ true) × (b ≡ true)
  and_inv true b h = (refl, h)
  and_inv false b h = ground arith

  All-stopped :
      (conns : List Conn) (ok : Bool) (s t : Session W)
      → all_nodes (is_stopped remote) ok conns s ≡ (return true, t)
      → (ok ≡ true) × All WasStopped conns
  unfolding all_nodes
  All-stopped [] ok s t h = (ground arith, tt)
  All-stopped (conn ∷ conns) ok s t h =
      let (o, u) = is_stopped remote conn s in
      let (good, answered, h1) = and_then-eq-return o _ u h in
      let (both, rest) = All-stopped conns (ok && good) u t h1 in
      let (all_before, this) = and_inv ok good both in
      (all_before, (is_stopped_inv conn s u good (ap (λ o. (o, u)) answered) this, rest))

  shutdown_nodes : IsRunner remote SameNodes (shutdown remote)
  unfolding enter add_note mark
  shutdown_nodes = record {
    order = record { reflexive = λ s. refl; transitive = λ s t u h k. k ∙ h };
    entered = λ s. refl;
    asked = λ answers s. refl;
    marked = λ status detail s. refl;
  }

  moving : IsMoving SameNodes (shutdown remote)
  unfolding add_check
  moving = shutdown-IsMoving remote (SameNodes-IsRespected remote) (λ c s. refl)

  -- Where `akro shutdown` runs its phase with success, every node of the fleet was sent the probe
  -- for running containers and answered that there are none, and the gate of `akro start` reads
  -- done.
  pub shutdown_stops :
      (s t : Session W)
      → run_phases remote (shutdown remote ∷ []) true s ≡ (return true, t)
      → All WasStopped s.fleet.conns × (gate t.state ≡ "done")
  unfolding Shutdown.verify mark lookup
  shutdown_stops s t h =
      let round = run_single remote (shutdown remote) true s t h in
      let v = visit-IsVerified remote (shutdown remote) s t refl round in
      let probed =
        (All-stopped v.applied.fleet.conns true v.applied v.verified v.verify_passes).1 in
      let kept =
        ap (λ u. u.fleet.conns) v.marked
        ∙ ap (λ o. o.1.fleet.conns) (sym v.verify_passes)
        ∙ moving.verify.at v.applied in
      let same =
        ap (λ o. o.1.fleet.conns) (sym round)
        ∙ (visit-Moves remote (shutdown remote) shutdown_nodes moving true).at s in
      (
        subst (All WasStopped) (sym kept ∙ same) probed,
        ap (λ u. gate u.state) v.marked
            ∙ phase_status-mark_phase (remote.now v.verified.world) "authentik-shutdown" "done" []
                v.verified.state refl,
      )
