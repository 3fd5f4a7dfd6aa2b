-- ===== src/Patroni/Ordered.antt =====
-- The order in which akropolis/phases/patroni_phase.py starts the members of the cluster.
use akropolis.Base.{◌≡◌, Bool, true, none, some, List, ◌∷◌}
use akropolis.Value.{Value}
use akropolis.Config.Address.{Platform}
use akropolis.Effects.{return}
use akropolis.Session.{Conn, Session}
use akropolis.Session.Remote.{Remote, Reply}
use akropolis.Session.Pushing.{Encoding}
use akropolis.Session.Loops.{each, Chain}
use akropolis.Session.Pinned.{Tokens}
use akropolis.Session.Sent.{Exchange, Polled}
use akropolis.Patroni.Commands.{role_cmd, enable_patroni, primary_cmd, streaming_cmd}
use akropolis.Patroni.Leading.{leaders_among, others_among}
use akropolis.Patroni.{Templates, Secrets, Settings, create_role, secrets, settings, prepare}

module _ {W : Type 0} (remote : Remote W) (platform : Platform) (encoding : Encoding)
    (gen_password : Tokens W) (templates : Templates) where
  -- Patroni was started on the node, which then said that it is a replica, and then that it
  -- streams, with nothing in between.
  pub record Joined (conn : Conn) (s t : Session W) : Type 0 where
    pub reply : Reply
    pub started_at : W
    pub started : Exchange remote conn enable_patroni 30 reply s.world started_at
    pub replica_at : W
    pub replica : Polled remote conn role_cmd (some "replica") 300 5 true started_at replica_at
    pub streaming : Polled remote conn streaming_cmd none 180 5 true replica_at t.world

  -- Patroni was started on the node, which then answered with the status of the primary.
  pub record Leading (leader : Conn) (promoted : Bool) (s t : Session W) : Type 0 where
    pub reply : Reply
    pub started_at : W
    pub started : Exchange remote leader enable_patroni 30 reply s.world started_at
    pub primary : Polled remote leader primary_cmd (some "200") 300 5 promoted started_at t.world

  -- The members were brought up from `s` to `t`: the first node marked as the leader, then the
  -- nodes not marked in their order, and then the role and the database on the leader.
  pub record IsBrought (conns : List Conn) (secret : Value) (s t : Session W) : Type 0 where
    pub leader : Conn
    pub others : List Conn
    pub leads : leaders_among conns ≡ leader ∷ others
    pub first : Session W
    pub leading : Leading leader true s first
    pub last : Session W
    pub joined : Chain Joined (others_among conns) first last
    pub created :
        create_role remote platform encoding gen_password templates leader secret last
        ≡ (return tt, t)

  -- The run from `s` to `t`: the secrets, the settings and the preparation of every node, and then
  -- the members.
  pub record IsOrdered (s t : Session W) : Type 0 where
    pub chosen : Secrets
    pub drawn : Session W
    pub of_state :
        secrets remote platform encoding gen_password templates s ≡ (return chosen, drawn)
    pub values : Settings
    pub set_up : Session W
    pub configured :
        settings remote platform encoding gen_password templates chosen drawn
        ≡ (return values, set_up)
    pub prepared : Session W
    pub each_prepared :
        each
          (prepare remote platform encoding gen_password templates s.cfg.nodes values)
          s.fleet.conns
          set_up
        ≡ (return tt, prepared)
    pub brought : IsBrought s.fleet.conns chosen.authentik_db_password prepared t
