-- ===== src/Lifecycle/Frame.antt =====
-- What the phases of akropolis/phases/authentik_lifecycle.py can change in a session.
use akropolis.Base.{◌≡◌, refl, sym, String, true, not, none, subst}
use akropolis.Effects.{pure}
use akropolis.Effects.Moves.{Moves, Moves-bind, Moves-if}
use akropolis.Session.{Conn, Session, Step, Check, add_check}
use akropolis.Session.Remote.{Remote, Reply, is_ok, run}
use akropolis.Session.Frame.{IsRespected, run-Moves}
use akropolis.Session.Loops.{each-Moves, all_nodes-Moves}
use akropolis.Phases.Frame.{IsMoving}
use akropolis.Lifecycle.{running, scope}
use akropolis.Lifecycle.Shutdown
use akropolis.Lifecycle.Shutdown.{shutdown, stop_node, conclude_stop, is_stopped}

module _ {W : Type 0} (remote : Remote W) where
  module _ {R : Session W → Session W → Type 0} (k : IsRespected remote R)
      (checked : (c : Check) (s : Session W) → R s (add_check c s).1) where
    record_check : (c : Check) → Moves R (add_check c)
    record_check c = record { at = checked c }

    still : {A : Type 0} (m : Step W A) → ((s : Session W) → (m s).1 ≡ s) → Moves R m
    still m same = record { at = λ s. subst (R s) (sym (same s)) (k.order.reflexive s) }

    conclude_stop-Moves : (conn : Conn) (r : Reply) → Moves R (conclude_stop remote conn r)
    unfolding conclude_stop
    conclude_stop-Moves conn r =
        Moves-bind k.order (add_check _) _ (record_check _)
          λ _. Moves-if k.order (is_ok r) _ _ (still (pure tt) (λ s. refl)) (still _ (λ s. refl))

    stop_node-Moves : (suffix : String) (conn : Conn) → Moves R (stop_node remote suffix conn)
    unfolding stop_node
    stop_node-Moves suffix conn =
        Moves-bind k.order (run remote conn running none 30) _
          (run-Moves remote k conn running none 30)
          λ probe. Moves-if k.order (not (is_ok probe)) _ _ (record_check _) (
            Moves-bind k.order (run remote conn _ none 180) _ (run-Moves remote k conn _ none 180)
              (conclude_stop-Moves conn))

    is_stopped-Moves : (conn : Conn) → Moves R (is_stopped remote conn)
    unfolding is_stopped
    is_stopped-Moves conn =
        Moves-bind k.order (run remote conn running none 30) _
          (run-Moves remote k conn running none 30)
          λ probe. Moves-bind k.order (add_check _) _ (record_check _) λ _. still _ (λ s. refl)

    pub shutdown-IsMoving : IsMoving R (shutdown remote)
    unfolding Shutdown.apply Shutdown.verify
    shutdown-IsMoving = record {
      needs_confirm = still _ (λ s. refl);
      plan = still _ (λ s. refl);
      apply = record {
        at = λ s.
            (each-Moves k.order (stop_node remote (scope s)) s.fleet.conns
                (stop_node-Moves (scope s))).at
              s;
      };
      verify = record {
        at = λ s.
            (all_nodes-Moves k.order (is_stopped remote) true s.fleet.conns is_stopped-Moves).at s;
      };
    }
