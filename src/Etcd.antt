-- ===== src/Etcd.antt =====
-- akropolis/phases/etcd_phase.py: the etcd cluster of the three nodes. Jinja, the random token and
-- the checksums are parameters.
pub mod Healthy
pub mod Tests
use akropolis.Base.{
  ℕ, eqb, length, String, ◌<>◌, Bool, true, false, not, ◌&&◌, ◌==◌, string_eq, if◌then◌else◌, none,
  List, [], ◌∷◌, map, keep,
}
use akropolis.Base.Lines.{split_lines, join}
use akropolis.Base.Text.{decimal, quoted}
use akropolis.Value.{Value, str}
use akropolis.Config.{Node}
use akropolis.Config.Address.{Platform, str_of, shown}
use akropolis.State.{get_or_generate}
use akropolis.Effects.{Outcome, return, raise, Action, pure, throw, and_then, ◌>>=◌, ◌>>◌}
use akropolis.Session.{Conn, Session, Step, plain, add_check}
use akropolis.Session.Remote.{Remote, is_ok, run, add_reply}
use akropolis.Session.Waiting.{wait_for, occurs_in}
use akropolis.Session.Pushing.{Encoding, push_file}
use akropolis.Session.Loops.{each}
use akropolis.Phases.{Phase}

-- `compose` renders etcd-compose.yml.j2 for a node; `token_hex` is `secrets.token_hex(4)`.
pub record Templates (W : Type 0) : Type 0 where
  pub compose : Node → List Node → (token : String) → String
  pub token_hex : W → String

endpoint : Node → String
endpoint n = "http://" <> (n.ip <> ":2379")

unfoldable pub health_command : List Node → String
unfolding endpoint join
health_command nodes =
    "docker exec etcd etcdctl --endpoints="
    <> (join "," (map endpoint nodes) <> " endpoint health 2>&1")

unfoldable pub members_command : List Node → String
unfolding endpoint join
members_command nodes =
    "docker exec etcd etcdctl --endpoints="
    <> (join "," (map endpoint nodes) <> " member list 2>&1")

-- `[ln for ln in out.splitlines() if "is healthy" not in ln]`
unfoldable pub unhealthy_lines : String → List String
unfolding split_lines
unhealthy_lines out = keep (λ line. not (occurs_in "is healthy" line)) (split_lines out)

unfoldable pub started_members : String → ℕ
unfolding split_lines
started_members out = length (keep (occurs_in "started") (split_lines out))

abbrev pub is_nil : List String → Bool
is_nil [] = true
is_nil (x ∷ xs) = false

module _ {W : Type 0} (remote : Remote W) (platform : Platform) (encoding : Encoding)
    (templates : Templates W) where
  -- `_token`
  unfoldable pub token : Step W Value
  token s =
      let fresh = str (str_of platform s.cfg.name <> ("-etcd-" <> templates.token_hex s.world)) in
      let (v, st) = get_or_generate "etcd_initial_cluster_token" fresh s.state in
      (return v, record s { state = st })

  unfoldable pub plan : Step W (List String)
  unfolding shown
  plan = token >>= λ v. pure (
      "create /opt/etcd/{data,config} (data chmod 700) on all nodes"
      ∷ ("render /opt/etcd/docker-compose.yml per node (image etcd v3.5.30, cluster token pinned in state: "
          <> (shown platform v <> ")"))
      ∷ "docker compose up -d on all 3 nodes back-to-back (down && up when the rendered file changed)"
      ∷ "verify: endpoint health OK on all 3 client URLs, member list has 3 members"
      ∷ [])

  compose_up : Conn → Bool → Step W (Unit {0})
  compose_up conn true =
      run remote conn "cd /opt/etcd && docker compose down && docker compose up -d" none 300
      >>= add_reply conn "compose down && up (config changed)"
  compose_up conn false =
      run remote conn "cd /opt/etcd && docker compose up -d" none 300
      >>= add_reply conn "compose up -d"

  -- The body of the loop in `apply`.
  unfoldable pub start_node : List Node → String → Conn → Step W (Unit {0})
  unfolding compose_up
  start_node nodes secret conn = do
    r ←
        run remote conn "mkdir -p /opt/etcd/data /opt/etcd/config && chmod 700 /opt/etcd/data" none
          30
    add_reply conn "directories" r
    changed ←
        push_file remote encoding conn (templates.compose conn.node nodes secret)
          "/opt/etcd/docker-compose.yml" "0644" none
    probe ←
        run remote conn "docker ps --filter status=running --format '{{.Names}}' | grep -qx etcd"
          none 30
    compose_up conn (changed && is_ok probe)

  unfoldable pub apply : Step W (Unit {0})
  apply s = (token >>= λ v. each (start_node s.cfg.nodes (str_of platform v)) s.fleet.conns) s

  -- The second look at the endpoints, after they have answered once.
  unfoldable pub look_again : Conn → List Node → Bool → Step W (Bool × String)
  look_again conn nodes false = pure (false, "")
  look_again conn nodes true = do
    r ← run remote conn (health_command nodes) none 30
    let unhealthy = unhealthy_lines r.out
    pure (
      is_nil unhealthy,
      if is_nil unhealthy then "all 3 endpoints healthy" else join "; " unhealthy,
    )

  unfoldable pub count_members : Conn → List Node → Bool → Step W Bool
  unfolding decimal
  count_members conn nodes healthy = do
    r ← run remote conn (members_command nodes) none 30
    let members = started_members r.out
    add_check (plain "cluster" "etcd members started" (eqb members 3) (decimal members <> "/3"))
    pure (healthy && eqb members 3)

  unfoldable pub verify_from : List Conn → List Node → Step W Bool
  verify_from [] nodes = throw "list index out of range"
  verify_from (first ∷ conns) nodes = do
    answered ← wait_for remote first (health_command nodes) none 90 5
    found ← look_again first nodes answered
    add_check (
        plain "cluster" "etcd endpoint health" found.0
          (if found.1 == "" then "timed out waiting" else found.1))
    count_members first nodes found.0

  unfoldable pub verify : Step W Bool
  verify s = verify_from s.fleet.conns s.cfg.nodes s

  abbrev pub etcd : Phase W
  etcd = record {
    name = "etcd";
    read_only = false;
    optional = false;
    needs_confirm = pure true;
    plan = plan;
    apply = apply;
    verify = verify;
  }
