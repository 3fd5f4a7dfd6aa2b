-- ===== src/Etcd/Healthy.antt =====
-- What the health gate of akropolis/phases/etcd_phase.py has seen where it passes.
use akropolis.Base.{
  ◌≡◌, refl, ap, ℕ, eqb, String, Bool, true, false, not, ◌&&◌, string_eq, none, List, [], ◌∷◌, All,
  keep, arith, Bool-cases, inl, inr,
}
use akropolis.Base.Lines.{split_lines}
use akropolis.Config.{Node}
use akropolis.Effects.{Outcome, return, and_then-eq-return}
use akropolis.Session.{Conn, Session, add_check}
use akropolis.Session.Remote.{Remote, Reply}
use akropolis.Session.Waiting.{wait_for, occurs_in}
use akropolis.Session.Sent.{
  Exchange, Polled, exchange-eq-return, polled-eq-return, Exchange-to, Polled-answer,
}
use akropolis.Config.Address.{Platform}
use akropolis.Session.Pushing.{Encoding}
use akropolis.Etcd.{
  Templates, health_command, members_command, unhealthy_lines, started_members, is_nil, look_again,
  count_members, verify_from, verify,
}

keep-eq-nil :
    (p : String → Bool) (xs : List String)
    → keep (λ x. not (p x)) xs ≡ []
    → All (λ x. p x ≡ true) xs
keep-eq-nil p [] h = tt
keep-eq-nil p (x ∷ xs) h = elim (Bool-cases (p x)) [
  | inl holds ↦ (holds, keep-eq-nil p xs (rw holds at h))
  | inr fails ↦ ground arith
]

module _ {W : Type 0} (remote : Remote W) where
  -- The first node of the fleet was polled, then asked for the health of the endpoints, then for
  -- the members, and for nothing else. Every line about an endpoint says that it is healthy, and
  -- three members have started.
  pub record IsHealthy (s t : Session W) : Type 0 where
    pub first : Conn
    pub others : List Conn
    pub first_of : s.fleet.conns ≡ first ∷ others
    pub answering : W
    pub polled : Polled remote first (health_command s.cfg.nodes) none 90 5 true s.world answering
    pub health : Reply
    pub looked : W
    pub health_sent : Exchange remote first (health_command s.cfg.nodes) 30 health answering looked
    pub endpoints : All (λ line. occurs_in "is healthy" line ≡ true) (split_lines health.out)
    pub members : Reply
    pub members_sent : Exchange remote first (members_command s.cfg.nodes) 30 members looked t.world
    pub three : started_members members.out ≡ 3

module _ {W : Type 0} (remote : Remote W) (platform : Platform) (encoding : Encoding)
    (templates : Templates W) where
  nil_inv :
      (lines : List String) (detail : String) (found : Bool × String) (u t : Session W)
      → ◌≡◌ {A = Outcome (Bool × String) × Session W}
          (return (is_nil lines, detail), u)
          (return found, t)
      → found.0 ≡ true
      → lines ≡ []
  nil_inv [] detail found u t h e = refl
  nil_inv (line ∷ lines) detail found u t h e = ground arith

  three_inv :
      (healthy : Bool) (n : ℕ) (u t : Session W)
      → ◌≡◌ {A = Outcome Bool × Session W} (return (healthy && eqb n 3), u) (return true, t)
      → (healthy ≡ true) × (n ≡ 3) × (u.world ≡ t.world)
  three_inv true n u t h = (refl, ground arith, ap (λ o. o.1.world) h)
  three_inv false n u t h = ground arith

  look_inv :
      (conn : Conn) (nodes : List Node) (answered : Bool) (s t : Session W) (found : Bool × String)
      → look_again remote platform encoding templates conn nodes answered s ≡ (return found, t)
      → found.0 ≡ true
      → (answered ≡ true)
        × ((r : Reply) × Exchange remote conn (health_command nodes) 30 r s.world t.world
            × (unhealthy_lines r.out ≡ []))
  unfolding look_again
  look_inv conn nodes false s t found h e = ground arith
  look_inv conn nodes true s t found h e =
      let (r, (sent, h1)) = exchange-eq-return remote conn (health_command nodes) 30 _ s h in
      (
        refl,
        (
          r,
          Exchange-to remote (ap (λ o. o.1.world) h1) sent,
          nil_inv (unhealthy_lines r.out) _ found _ t h1 e,
        ),
      )

  count_inv :
      (conn : Conn) (nodes : List Node) (healthy : Bool) (s t : Session W)
      → count_members remote platform encoding templates conn nodes healthy s ≡ (return true, t)
      → (healthy ≡ true)
        × ((r : Reply) × Exchange remote conn (members_command nodes) 30 r s.world t.world
            × (started_members r.out ≡ 3))
  unfolding count_members add_check
  count_inv conn nodes healthy s t h =
      let (r, (sent, h1)) = exchange-eq-return remote conn (members_command nodes) 30 _ s h in
      let (good, three, same) = three_inv healthy (started_members r.out) _ t h1 in
      (good, (r, Exchange-to remote same sent, three))

  verify_inv :
      (conns : List Conn) (s t : Session W)
      → s.fleet.conns ≡ conns
      → verify_from remote platform encoding templates conns s.cfg.nodes s ≡ (return true, t)
      → IsHealthy remote s t
  unfolding verify_from add_check unhealthy_lines
  verify_inv [] s t e h = ground arith
  verify_inv (first ∷ conns) s t e h =
      let nodes = s.cfg.nodes in
      let (answered, (polled, h1)) =
        polled-eq-return remote first (health_command nodes) none 90 5 _ s h in
      let u = (wait_for remote first (health_command nodes) none 90 5 s).1 in
      let (p, v) = look_again remote platform encoding templates first nodes answered u in
      let (found, looked, h2) = and_then-eq-return p _ v h1 in
      let (good, (members, members_sent, three)) = count_inv first nodes found.0 _ t h2 in
      let (up, (health, health_sent, clean)) =
        look_inv first nodes answered u v found (ap (λ p. (p, v)) looked) good in
      record {
        first = first;
        others = conns;
        first_of = e;
        answering = u.world;
        polled = Polled-answer remote up polled;
        health = health;
        looked = v.world;
        health_sent = health_sent;
        endpoints = keep-eq-nil (occurs_in "is healthy") (split_lines health.out) clean;
        members = members;
        members_sent = members_sent;
        three = three;
      }

  -- Where the verification of the etcd phase returns true, the first node of the fleet was polled
  -- until the health command worked, then gave it with lines that all say healthy, and then gave
  -- the member list with three started members, with nothing else sent.
  pub verify-IsHealthy :
      (s t : Session W)
      → verify remote platform encoding templates s ≡ (return true, t)
      → IsHealthy remote s t
  unfolding verify
  verify-IsHealthy s t h = verify_inv s.fleet.conns s t refl h
