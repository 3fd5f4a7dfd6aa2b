-- ===== src/Patroni/Formed.antt =====
-- What the verification of akropolis/phases/patroni_phase.py has seen where it passes.
use akropolis.Base.{◌≡◌, ap, subst, true, ◌==◌, string_eq, eqb, leb, List, ◌∷◌}
use akropolis.Base.Text.{strip}
use akropolis.Config.Address.{Platform}
use akropolis.Effects.{return, and_then-eq-return}
use akropolis.Session.{Conn, Session, add_check}
use akropolis.Session.Remote.{Remote, Reply, is_ok}
use akropolis.Session.Pushing.{Encoding}
use akropolis.Session.Loops.{and-eq-true, return-and-true}
use akropolis.Session.Pinned.{Tokens}
use akropolis.Session.Sent.{Exchange, exchange-eq-return, Exchange-to}
use akropolis.Patroni.Leading.{leaders_among, leader_conn_inv}
use akropolis.Patroni.Commands.{
  list_cmd, role_exists_cmd, database_exists_cmd, leaders_of, replicas_of, running_of, is_formed,
}
use akropolis.Patroni.{Templates, leader_conn, has_database, verify_leader, verify}

module _ {W : Type 0} (remote : Remote W) (platform : Platform) (encoding : Encoding)
    (gen_password : Tokens W) (templates : Templates) where
  -- The first node of the fleet that is marked as the bootstrap leader was asked for the members,
  -- the role and the database, in this order, and nothing else was sent. It listed one leader, two
  -- replicas and three members that run, and found the role and the database.
  pub record IsFormed (s t : Session W) : Type 0 where
    pub leader : Conn
    pub others : List Conn
    pub leads : leaders_among s.fleet.conns ≡ leader ∷ others
    pub members : Reply
    pub role : Reply
    pub database : Reply
    pub after_list : W
    pub after_role : W
    pub listed : Exchange remote leader list_cmd 60 members s.world after_list
    pub asked_role : Exchange remote leader role_exists_cmd 60 role after_list after_role
    pub asked_database : Exchange remote leader database_exists_cmd 60 database after_role t.world
    pub works : is_ok members ≡ true
    pub one_leader : eqb (leaders_of members.out) 1 ≡ true
    pub two_replicas : eqb (replicas_of members.out) 2 ≡ true
    pub three_running : leb 3 (running_of members.out) ≡ true
    pub has_role : (strip role.out == "1") ≡ true
    pub has_db : (strip database.out == "1") ≡ true

  formed_inv :
      (r : Reply)
      → is_formed r ≡ true
      → (is_ok r ≡ true)
        × ((eqb (leaders_of r.out) 1 ≡ true)
            × ((eqb (replicas_of r.out) 2 ≡ true) × (leb 3 (running_of r.out) ≡ true)))
  unfolding is_formed
  formed_inv r h =
      let (works, h1) = and-eq-true (is_ok r) _ h in
      let (one, h2) = and-eq-true (eqb (leaders_of r.out) 1) _ h1 in
      (works, (one, and-eq-true (eqb (replicas_of r.out) 2) _ h2))

  database_inv :
      (role database : Reply)
      → has_database remote platform encoding gen_password templates role database ≡ true
      → ((strip role.out == "1") ≡ true) × ((strip database.out == "1") ≡ true)
  unfolding has_database
  database_inv role database h = and-eq-true (strip role.out == "1") _ h

  leader-IsFormed :
      (leader : Conn) (others : List Conn) (s t : Session W)
      → leaders_among s.fleet.conns ≡ leader ∷ others
      → verify_leader remote platform encoding gen_password templates leader s ≡ (return true, t)
      → IsFormed s t
  unfolding verify_leader add_check
  leader-IsFormed leader others s t leads h =
      let (members, (listed, h1)) = exchange-eq-return remote leader list_cmd 60 _ s h in
      let (role, (asked_role, h2)) = exchange-eq-return remote leader role_exists_cmd 60 _ _ h1 in
      let (database, (asked_database, h3)) =
        exchange-eq-return remote leader database_exists_cmd 60 _ _ h2 in
      let (formed, found) = return-and-true (is_formed members) _ _ t h3 in
      let (works, (one, (two, three))) = formed_inv members formed in
      let (has_role, has_db) = database_inv role database found in
      record {
        leader = leader;
        others = others;
        leads = leads;
        members = members;
        role = role;
        database = database;
        after_list = _;
        after_role = _;
        listed = listed;
        asked_role = asked_role;
        asked_database = Exchange-to remote (ap (λ o. o.1.world) h3) asked_database;
        works = works;
        one_leader = one;
        two_replicas = two;
        three_running = three;
        has_role = has_role;
        has_db = has_db;
      }

  -- Where the verification of the patroni phase returns true, the first node of the fleet that is
  -- marked as the bootstrap leader was asked for the members, the role and the database, in this
  -- order, with nothing else sent; its replies listed one leader, two replicas and three running
  -- members, and found the role and the database.
  pub patroni_verify-IsFormed :
      (s t : Session W)
      → verify remote platform encoding gen_password templates s ≡ (return true, t)
      → IsFormed s t
  unfolding verify
  patroni_verify-IsFormed s t h =
      let (o, u) = leader_conn s.fleet.conns s in
      let (leader, answered, h1) = and_then-eq-return o _ u h in
      let ((others, leads), same) =
        leader_conn_inv s.fleet.conns s u leader (ap (λ o. (o, u)) answered) in
      leader-IsFormed leader others s t leads (
        subst
          (λ u.
            verify_leader remote platform encoding gen_password templates leader u
            ≡ (return true, t))
          same h1)
