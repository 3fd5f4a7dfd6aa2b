-- ===== src/Patroni.antt =====
-- akropolis/phases/patroni_phase.py: PostgreSQL under Patroni, the leader first. The template and
-- the unit of systemd are parameters.
pub mod Commands
pub mod Leading
pub mod Ordered
pub mod Formed
pub mod Tests
use akropolis.Base.{
  ℕ, String, ◌<>◌, Bool, true, false, not, ◌&&◌, ◌==◌, string_eq, if◌then◌else◌, Option, none, some,
  List, [], ◌∷◌, keep,
}
use akropolis.Base.Lines.{join}
use akropolis.Base.Text.{split, strip, decimal}
use akropolis.Value.{
  Value, null, str, list, dict, end, Fields, field, nil, get, or_else, elements, truthy,
}
use akropolis.Config.{Node}
use akropolis.Config.Address.{Platform, str_of}
use akropolis.Config.Nodes.{bootstrap_leader}
use akropolis.Effects.{Outcome, return, pure, throw, ◌>>=◌, ◌>>◌}
use akropolis.Session.{Conn, Session, Step, plain, add_check}
use akropolis.Session.Remote.{Remote, Reply, is_ok, run, add_reply}
use akropolis.Session.Waiting.{wait_for}
use akropolis.Session.Pushing.{Encoding, push_file}
use akropolis.Session.Loops.{each}
use akropolis.Session.Pinned.{Tokens, pinned, as_text}
use akropolis.Phases.{Phase}
use akropolis.Patroni.Commands.{
  pg_install, patroni_install, role_cmd, enable_patroni, primary_cmd, streaming_cmd, list_cmd,
  role_exists_cmd, database_exists_cmd, create_database_cmd, create_role_cmd, leaders_of,
  replicas_of, running_of, is_formed, last_error,
}

-- The values that patroni-config.yml.j2 is rendered from, for one node.
pub record Settings : Type 0 where
  pub scope : String
  pub nodes_subnet : String
  pub extra_pg_hba : List Value
  pub postgres_password : Value
  pub replicator_password : Value
  pub rewind_password : Value

-- `config` renders patroni-config.yml.j2; `unit` is patroni.service.
pub record Templates : Type 0 where
  pub config : Node → List Node → Settings → String
  pub unit : String

-- `_secrets`
pub record Secrets : Type 0 where
  pub postgres_password : Value
  pub replicator_password : Value
  pub rewind_password : Value
  pub authentik_db_password : Value

first_three : List String → List String
first_three (a ∷ b ∷ c ∷ _) = a ∷ b ∷ c ∷ []
first_three parts = parts

characters : String → List Value
characters String.[] = []
characters (String.◌∷◌ c s) = str (String.◌∷◌ c String.[]) ∷ characters s

keys : Fields → List Value
keys end = []
keys (field k v fields) = str k ∷ keys fields

-- `list(v or [])`; none where it raises TypeError.
unfoldable pub list_of : Value → Option (List Value)
unfolding elements truthy characters keys
list_of (list vs) = some (elements vs)
list_of (str s) = some (characters s)
list_of (dict fields) = some (keys fields)
list_of v = if truthy v then none else some []

hba_of : Value → Option (List Value)
unfolding list_of get
hba_of (dict fields) = list_of (get (dict fields) "extra_pg_hba" (list nil))
hba_of v = none

-- `list((raw.get("postgres") or {}).get("extra_pg_hba", []) or [])`
unfoldable pub extra_pg_hba : Value → Option (List Value)
unfolding hba_of or_else get
extra_pg_hba raw = hba_of (or_else (get raw "postgres" null) (dict end))

abbrev pub followers : List Conn → List Conn
followers conns = keep (λ conn. not conn.node.bootstrap_leader) conns

module _ {W : Type 0} where
  -- `_subnet`
  unfoldable pub subnet : List Node → Step W String
  unfolding first_three join split
  subnet [] s = throw "list index out of range" s
  subnet (n ∷ ns) s = (return (join "." (first_three (split b'.' n.ip)) <> ".0/24"), s)

  -- `next(c for c in ctx.fleet if c.node.bootstrap_leader)`
  unfoldable pub leader_conn : List Conn → Step W Conn
  leader_conn [] s = throw "StopIteration" s
  leader_conn (conn ∷ conns) s =
      let rest = leader_conn conns s in
      if conn.node.bootstrap_leader then (return conn, s) else rest

  -- `if not good: raise RuntimeError(message)`
  unfoldable pub demand : Bool → String → Step W (Unit {0})
  demand true message = pure tt
  demand false message = throw message

module _ {W : Type 0} (remote : Remote W) (platform : Platform) (encoding : Encoding)
    (gen_password : Tokens W) (templates : Templates) where
  unfoldable pub secrets : Step W Secrets
  secrets = do
    postgres ← pinned gen_password "pg_superuser_password"
    replicator ← pinned gen_password "pg_replicator_password"
    rewind ← pinned gen_password "pg_rewind_password"
    authentik ← pinned gen_password "authentik_db_password"
    pure (record {
      postgres_password = postgres;
      replicator_password = replicator;
      rewind_password = rewind;
      authentik_db_password = authentik;
    })

  or_type_error : Option (List Value) → Step W (List Value)
  or_type_error none = throw "object is not iterable"
  or_type_error (some vs) = pure vs

  -- What the configuration of every node is rendered from.
  unfoldable pub settings : Secrets → Step W Settings
  unfolding or_type_error
  settings chosen s =
      (do
        hba ← or_type_error (extra_pg_hba s.cfg.raw)
        net ← subnet s.cfg.nodes
        pure (record {
          scope = str_of platform s.cfg.name <> "-postgres";
          nodes_subnet = net;
          extra_pg_hba = hba;
          postgres_password = chosen.postgres_password;
          replicator_password = chosen.replicator_password;
          rewind_password = chosen.rewind_password;
        }))
        s

  -- `ctx.record(node, name, r.ok, r.err.splitlines()[-1] if (not r.ok and r.err) else "")`
  add_last_error : Conn → String → Reply → Step W (Unit {0})
  add_last_error conn name r = add_check (plain conn.node.name name (is_ok r) (last_error r))

  -- The body of the first loop of `apply`: nothing is started.
  unfoldable pub prepare : List Node → Settings → Conn → Step W (Unit {0})
  unfolding add_last_error
  prepare nodes values conn = do
    installed ← run remote conn pg_install none 900
    add_last_error conn "postgresql 16 installed" installed
    venv ← run remote conn patroni_install none 900
    add_last_error conn "patroni venv + dirs" venv
    push_file remote encoding conn (templates.config conn.node nodes values)
        "/etc/patroni/config.yml" "0600" (some "postgres:postgres")
    push_file remote encoding conn templates.unit "/etc/systemd/system/patroni.service" "0644" none
    r ← run remote conn "systemctl daemon-reload" none 30
    add_reply conn "config + unit rendered" r

  -- Patroni is started on the leader, and whether it answers as the primary.
  unfoldable pub await_leader : Conn → Step W Bool
  await_leader conn = do
    r ← run remote conn enable_patroni none 30
    add_reply conn "patroni started (bootstrap leader)" r
    wait_for remote conn primary_cmd (some "200") 300 5

  unfoldable pub judge_promotion : Conn → Bool → Step W (Unit {0})
  judge_promotion conn promoted = do
    add_check (
        plain conn.node.name "promoted self to leader" promoted (
          if promoted
          then ""
          else "REST /primary never returned 200 within 300s — check journalctl -u patroni"))
    demand promoted (
        "bootstrap leader never promoted — stopping before starting replicas (see journalctl -u patroni on "
        <> (conn.node.name <> ")"))

  unfoldable pub start_leader : Conn → Step W (Unit {0})
  start_leader conn = await_leader conn >>= judge_promotion conn

  unfoldable pub await_state : Conn → Bool → Step W Bool
  await_state conn true = wait_for remote conn streaming_cmd none 180 5
  await_state conn false = pure false

  unfoldable pub judge_replica : Conn → Bool → Step W (Unit {0})
  judge_replica conn streaming = do
    add_check (
        plain conn.node.name "replica streaming" streaming
          (if streaming then "" else "never reached replica running/streaming"))
    demand streaming (conn.node.name <> " never became a healthy replica — stopping")

  -- The body of the loop over the replicas.
  unfoldable pub join_replica : Conn → Step W (Unit {0})
  join_replica conn = do
    r ← run remote conn enable_patroni none 30
    add_reply conn "patroni started (replica)" r
    replica ← wait_for remote conn role_cmd (some "replica") 300 5
    streaming ← await_state conn replica
    judge_replica conn streaming

  create_database : Conn → Bool → Reply → Step W Reply
  create_database conn true r = pure r
  create_database conn false r = run remote conn create_database_cmd none 60

  -- The role and the database, on the leader.
  unfoldable pub create_role : Conn → Value → Step W (Unit {0})
  unfolding create_database strip
  create_role conn secret = do
    password ← as_text secret
    r ← run remote conn (create_role_cmd password) none 60
    add_reply conn "authentik role" r
    found ← run remote conn database_exists_cmd none 30
    r2 ← create_database conn (strip found.out == "1") found
    add_reply conn "authentik database" r2

  -- From the leader on.
  unfoldable pub bring_up : List Conn → Value → Step W (Unit {0})
  bring_up conns secret = do
    leader ← leader_conn conns
    start_leader leader
    each join_replica (followers conns)
    create_role leader secret

  unfoldable pub apply : Step W (Unit {0})
  apply s =
      (do
        chosen ← secrets
        values ← settings chosen
        each (prepare s.cfg.nodes values) s.fleet.conns
        bring_up s.fleet.conns chosen.authentik_db_password)
        s

  -- The role and the database as the leader sees them.
  unfoldable pub has_database : Reply → Reply → Bool
  unfolding strip
  has_database role database = strip role.out == "1" && strip database.out == "1"

  unfoldable pub verify_leader : Conn → Step W Bool
  unfolding decimal
  verify_leader conn = do
    r ← run remote conn list_cmd none 60
    add_check (
        plain "cluster" "patronictl list: 1 Leader + 2 replicas, all running" (is_formed r) (
          "leaders="
          <> (decimal (leaders_of r.out)
              <> (" replicas="
                  <> (decimal (replicas_of r.out)
                      <> (" running-states=" <> decimal (running_of r.out)))))))
    role ← run remote conn role_exists_cmd none 60
    database ← run remote conn database_exists_cmd none 60
    let found = has_database role database
    add_check (
        plain "cluster" "authentik role + database exist" found (
          if found
          then ""
          else if not (role.err == "")
          then role.err
          else if not (database.err == "")
          then database.err
          else "role/db missing"))
    pure (is_formed r && found)

  unfoldable pub verify : Step W Bool
  verify s = (leader_conn s.fleet.conns >>= verify_leader) s

  leader_of : Option Node → Step W Node
  leader_of none = throw "StopIteration"
  leader_of (some n) = pure n

  start_order : Node → List Node → Step W String
  start_order leader (a ∷ b ∷ _) = pure (
      "START ORDER (gated, not fire-and-forget): "
      <> (leader.name
          <> (" first → wait until REST /primary answers 200 ('promoted self to leader') → "
              <> (a.name <> (" → wait streaming → " <> b.name)))))
  start_order leader _ = throw "list index out of range"

  unfoldable pub plan : Step W (List String)
  unfolding leader_of start_order
  plan s =
      (do
        leader ← leader_of (bootstrap_leader s.cfg.nodes)
        net ← subnet s.cfg.nodes
        order ← start_order leader (keep (λ n. not n.bootstrap_leader) s.cfg.nodes)
        pure (
            "install PostgreSQL 16 from pgdg on all nodes; stop+disable stock postgresql (Patroni owns the lifecycle)"
            ∷ "create Patroni venv at /opt/patroni (patroni[etcd3] + psycopg2-binary), dirs, unit file"
            ∷ ("render /etc/patroni/config.yml per node — scope '"
                <> (str_of platform s.cfg.name
                    <> ("-postgres', pg_hba for "
                        <> (net <> " + the 127.0.0.1/32 replication/rewind entries"))))
            ∷ "passwords for postgres/replicator/rewind/authentik generated once, pinned in state (NEVER printed)"
            ∷ order
            ∷ "create authentik role + database on the leader (idempotent)"
            ∷ "verify: patronictl list shows 1 Leader + 2 running replicas"
            ∷ []))
        s

  abbrev pub patroni : Phase W
  patroni = record {
    name = "patroni";
    read_only = false;
    optional = false;
    needs_confirm = pure true;
    plan = plan;
    apply = apply;
    verify = verify;
  }
