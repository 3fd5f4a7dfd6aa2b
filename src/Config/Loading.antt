-- ===== src/Config/Loading.antt =====
-- `load` of akropolis/config.py, from the value that `yaml.safe_load` gives.
use akropolis.Base.{
  ℤ, pos, String, ◌<>◌, Bool, true, not, if◌then◌else◌, Option, none, some, List, [], ◌∷◌, ◌++◌,
  ltb_ℤ,
}
use text.Mathlib.Text.{starts_with}
use akropolis.Value.{Value, null, bool, int, str, dict, end, get, or_else, truthy, is_text}
use akropolis.Config.{Node, SshConfig, NetworkConfig, TlsConfig, SiteConfig}
use akropolis.Config.Address.{Platform, str_of}
use akropolis.Config.Nodes.{
  report, node_values, nodes_from, address_problems, with_leader, leader_problems, count_problems,
}
use akropolis.Config.Sections.{
  not_in, ssh_of, network_of, tls_of, ips, ssh_problems, vip_problems, tls_problems, tag_problems,
}
use akropolis.Config.Allowances.{monitor_problems, backup_problems}
use akropolis.Config.Problems.{
  Problem, config_not_found, version_missing, version_not_integer, version_too_old, version_too_new,
  name_required, environment_invalid, topology_invalid, Load, ok, config_error, ◌>>=◌,
}

-- `CONFIG_SCHEMA_VERSION`
abbrev pub config_schema_version : ℤ
config_schema_version = pos 3

-- The checks of `site.config_version` that come before all others.
unfoldable pub version_of : Value → Load ℤ
version_of null = config_error (version_missing ∷ [])
version_of (int z) =
    if ltb_ℤ z (pos 0)
    then config_error (version_not_integer (int z) ∷ [])
    else if ltb_ℤ z config_schema_version
    then config_error (version_too_old z ∷ [])
    else if ltb_ℤ config_schema_version z
    then config_error (version_too_new z ∷ [])
    else ok z
version_of v = config_error (version_not_integer v ∷ [])

-- `DEFAULT_AUTHENTIK_TAG[topology]`
unfoldable pub default_authentik_tag : Value → String
default_authentik_tag topology = if is_text topology "single" then "2026.8.1" else "2026.5.6"

-- An invalid topology is reported and read as "ha".
unfoldable pub topology_of : Bool → Value → Value
topology_of invalid topology = if invalid then str "ha" else topology

-- `state_raw if state_raw.is_absolute() else path.parent / state_raw`
unfoldable pub resolve : String → String → String
resolve directory path = if starts_with path "/" then path else directory <> ("/" <> path)

-- `VALID_ENVIRONMENTS` and `VALID_TOPOLOGIES`
abbrev pub environments : List String
environments = "lab" ∷ "production" ∷ []

abbrev pub topologies : List String
topologies = "ha" ∷ "single" ∷ []

unfoldable pub given_environment : Value → Value
unfolding get
given_environment raw = get raw "site.environment" (str "lab")

unfoldable pub given_topology : Value → Value
unfolding get
given_topology raw = get raw "site.topology" (str "ha")

-- The parts of a file of the right version, with all their problems in the order of the code.
pub record Parts : Type 0 where
  pub name : Value
  pub environment : Value
  pub topology : Value
  pub nodes : List Node
  pub ssh : SshConfig
  pub network : NetworkConfig
  pub tls : TlsConfig
  pub problems : List Problem

module _ (platform : Platform) where
  unfoldable pub assemble :
      (raw : Value) (bad_environment bad_topology : Bool) (values : List Value) (nodes : List Node)
      (ssh : SshConfig) (of_ssh : List Problem) (network : NetworkConfig) (of_tls : List Problem)
      → Parts
  assemble raw bad_environment bad_topology values nodes ssh of_ssh network of_tls =
      let name = get raw "site.name" null in
      let topology = topology_of bad_topology (given_topology raw) in
      record {
        name = name;
        environment = given_environment raw;
        topology = topology;
        nodes = with_leader nodes;
        ssh = ssh;
        network = network;
        tls = tls_of raw;
        problems =
            report (not (truthy name)) name_required
            ++ (report bad_environment (environment_invalid (given_environment raw))
                ++ (report bad_topology (topology_invalid (given_topology raw))
                    ++ (count_problems topology values
                        ++ (address_problems platform 0 [] nodes
                            ++ (leader_problems nodes
                                ++ (of_ssh
                                    ++ ((if is_text topology "ha"
                                          then vip_problems platform network.vip nodes
                                          else [])
                                        ++ (of_tls
                                            ++ (tag_problems (get raw "authentik.tag" null)
                                                ++ (monitor_problems platform raw (ips nodes)
                                                    ++ backup_problems platform raw topology
                                                        (ips nodes)))))))))));
      }

  unfoldable pub parts_of : Value → Load Parts
  parts_of raw = do
    bad_environment ← not_in (given_environment raw) environments
    bad_topology ← not_in (given_topology raw) topologies
    let topology = topology_of bad_topology (given_topology raw)
    values ← node_values (get raw "nodes" null)
    nodes ← nodes_from platform 0 values
    ssh ← ssh_of raw
    of_ssh ← ssh_problems platform ssh
    network ← network_of platform raw
    of_tls ← tls_problems platform (given_environment raw) topology (tls_of raw)
    ok (assemble raw bad_environment bad_topology values nodes ssh of_ssh network of_tls)

  unfoldable pub site_of : String → Value → ℤ → Parts → SiteConfig
  site_of directory raw version p = record {
    name = p.name;
    environment = p.environment;
    topology = p.topology;
    nodes = p.nodes;
    ssh = p.ssh;
    network = p.network;
    tls = p.tls;
    state_file = resolve directory (
        platform.expanduser (
          str_of platform (
            get raw "provision.state_file"
              (str (".state/" <> (str_of platform p.name <> ".json"))))));
    config_version = version;
    refuse_existing = truthy (get raw "provision.refuse_existing" (bool true));
    authentik_tag =
        str_of platform (get raw "authentik.tag" (str (default_authentik_tag p.topology)));
    raw = raw;
  }

  -- `if problems: raise ConfigError(problems)`
  unfoldable pub accept : {A : Type 0} → List Problem → A → Load A
  accept [] a = ok a
  accept (p ∷ ps) a = config_error (p ∷ ps)

  -- `load(path)`: `content` is none where the file does not exist.
  unfoldable pub load : (directory path : String) → Option Value → Load SiteConfig
  load directory path none = config_error (config_not_found path ∷ [])
  load directory path (some content) = do
    let raw = or_else content (dict end)
    version ← version_of (get raw "site.config_version" null)
    parts ← parts_of raw
    accept parts.problems (site_of directory raw version parts)
