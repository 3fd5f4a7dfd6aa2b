-- ===== src/Preflight/Passed.antt =====
-- What has been seen where the preflight phase (akropolis/phases/preflight.py) passes.
use akropolis.Base.{
  ◌≡◌, refl, ap, subst, inl, inr, ℕ, String, Bool, true, false, string_eq, if◌then◌else◌, none,
  some, Option, List, [], ◌∷◌, All, arith,
}
use akropolis.Config.Address.{Platform}
use akropolis.Effects.{
  Outcome, return, raise, exception, interrupt, pure, throw, ◌>>◌, and_then-eq-return,
}
use akropolis.Effects.Moves.{Moves, Moves-bind, Moves-if}
use akropolis.Session.{Conn, Session, Step}
use akropolis.Session.Remote.{Remote, Reply}
use akropolis.Lifecycle.{is_ha}
use akropolis.Preflight.Node.{Clock, Offsets, Footprint, check_nodes}
use akropolis.Preflight.Frame.{Failed, Stays, Stays-checked, order, run_then, still}
use akropolis.Preflight.Ready.{IsReady, nodes_inv}
use akropolis.Preflight.{
  footprint_of, has_name, skew_of, judge_skew, check_skew, on_caught, caught, judge_vip, check_vip,
  check_dns, was_reached, check_first, check_cluster, apply, has_failure, verify,
}

module _ {W : Type 0} (remote : Remote W) (platform : Platform) (clock : Clock W) where
  judge_skew-Moves : (skew : Option ℕ) → Moves Stays (judge_skew remote platform clock skew)
  unfolding judge_skew
  judge_skew-Moves none = still (pure tt) (λ s. refl)
  judge_skew-Moves (some skew) = Stays-checked _

  on_caught-Moves :
      (name : String) (warn : Bool) (o : Outcome (Unit {0}))
      → Moves Stays (on_caught remote platform clock name warn o)
  unfolding on_caught
  on_caught-Moves name warn (return done) = record { at = λ s h. h }
  on_caught-Moves name warn (raise (exception message)) = record { at = (Stays-checked _).at }
  on_caught-Moves name warn (raise interrupt) = record { at = λ s h. h }

  caught-Moves :
      (name : String) (warn : Bool) (m : Step W (Unit {0}))
      → Moves Stays m
      → Moves Stays (caught remote platform clock name warn m)
  unfolding caught
  caught-Moves name warn m k = record {
    at = λ s h. let (o, t) = m s in (on_caught-Moves name warn o).at t (k.at s h);
  }

  judge_vip-Moves :
      (vip : String) (deployed : Bool) (r : Reply)
      → Moves Stays (judge_vip remote platform clock vip deployed r)
  unfolding judge_vip
  judge_vip-Moves vip true r = Stays-checked _
  judge_vip-Moves vip false r = Stays-checked _

  vip-Moves :
      (first : Conn) (footprint : Footprint)
      → Moves Stays (check_vip remote platform clock first footprint)
  unfolding check_vip
  vip-Moves first footprint = record {
    at = λ s.
        (caught-Moves "VIP check" true _
            (run_then remote first _ none 30 _ (judge_vip-Moves s.cfg.network.vip _))).at
          s;
  }

  if_at :
      {A : Type 0} (b : Bool) (m n : Step W A)
      → Moves Stays m
      → Moves Stays n
      → (s : Session W) → Stays s (if b then m s else n s).1
  if_at true m n k l s = k.at s
  if_at false m n k l s = l.at s

  dns-Moves : (first : Conn) → Moves Stays (check_dns remote platform clock first)
  unfolding check_dns
  dns-Moves first = record {
    at = λ s.
        if_at (has_name s) _ (pure tt)
          (caught-Moves _ _ _ (run_then remote first _ none 30 _ λ r. Stays-checked _))
          (still (pure tt) (λ s. refl)) s;
  }

  first-Moves :
      (first : Conn) (footprint : Footprint)
      → Moves Stays (check_first remote platform clock first footprint)
  unfolding check_first
  first-Moves first footprint = record {
    at = λ s.
        if_at (was_reached remote platform clock first.node.name s.checks) _ _
          (Moves-bind (order remote)
            (if is_ha s then check_vip remote platform clock first footprint else pure tt) _
            (Moves-if (order remote) (is_ha s) _ _ (vip-Moves first footprint)
              (still (pure tt) (λ s. refl)))
            λ _. dns-Moves first)
          (Stays-checked _) s;
  }

  cluster-Moves :
      (conns : List Conn) (footprint : Footprint)
      → Moves Stays (check_cluster remote platform clock conns footprint)
  unfolding check_cluster
  cluster-Moves [] footprint = still (throw _) (λ s. refl)
  cluster-Moves (first ∷ conns) footprint = first-Moves first footprint

  after-Moves :
      (conns : List Conn) (footprint : Footprint) (offsets : Offsets)
      → Moves Stays (
          check_skew remote platform clock offsets
          >> check_cluster remote platform clock conns footprint)
  unfolding check_skew
  after-Moves conns footprint offsets =
      Moves-bind (order remote) (judge_skew remote platform clock (skew_of _)) _
        (judge_skew-Moves (skew_of _)) λ _. cluster-Moves conns footprint

  -- Where the checks of the preflight phase end without an exception and its verification passes,
  -- every node of the fleet ran a command as root, directly or through sudo, and its list of
  -- sockets showed nothing that listens on a required port but what the finished phases own.
  pub preflight-IsReady :
      (s t u : Session W)
      → apply remote platform clock s ≡ (return tt, t)
      → verify remote platform clock t ≡ (return true, u)
      → All (IsReady remote platform clock (footprint_of s)) s.fleet.conns
  unfolding apply verify has_failure
  preflight-IsReady s t u h passes =
      let (o, v) = check_nodes remote platform clock s.fleet.conns (footprint_of s) [] s in
      let (offsets, answered, h1) = and_then-eq-return o _ v h in
      let later = (after-Moves s.fleet.conns (footprint_of s) offsets).at v in
      elim (nodes_inv remote platform clock (footprint_of s) s.fleet.conns [] offsets s v
        (ap (λ o. (o, v)) answered)) [
          | inl ready ↦ ready
          | inr failed ↦
              let kept : Failed t = subst Failed (ap (λ o. o.1) h1) (later failed) in
              ground (arith, kept, passes)
        ]
