-- ===== src/Config/Tests.antt =====
-- Runs of akropolis/config.py's `load`, and its theorems at concrete files.
use akropolis.Base.{◌≡◌, refl, String, true, false, pos, some, [], ◌∷◌, string_eq}
use akropolis.Base.Dict
use akropolis.Base.Dict.{Dict}
use akropolis.Config.Resolution.{
  iterate, pinned, ips_from, backup_ips_from_raw, optional_bool, backup_localhost_from_raw,
  pinned_localhost, resolved_backup_localhost, resolved_backup_ips, resolved_apart,
}
use akropolis.Value.{bool, Value, null, int, str, list, dict, cons, nil, field, end}
use akropolis.Config.{SiteConfig}
use akropolis.Config.Address.{Platform}
use akropolis.Config.Problems.{Load, ok, config_error, node_count, node_ip_duplicate, tag_unquoted}
use akropolis.Config.Loading.{config_schema_version, load}
use akropolis.Base.Text.{strip, split, decimal, int_of_text, shell_quote, lower_is}
use akropolis.Value.{
  elements, from_elements, lookup_field, truthy, walk, get, or_else, one_of, hashable, to_int,
}
use akropolis.Config.Address.{octets, is_ip, is_valid_ip_or_cidr, str_of, same_24}
use akropolis.Config.Nodes.{
  node_values, expected_node_count, nodes_from, node_at, address_problems, promote_first,
  with_leader, leader_problems, count_problems, bootstrap_leader,
}
use akropolis.Config.Sections.{
  not_in, get_key, ssh_of, network_of, tls_of, other_subnet, path_problems, key_problems,
  ssh_problems, subnet_problems, vip_problems, import_problems, acme_problems, import_pair_problems,
  provider_problems, tls_problems, tag_problems,
}
use akropolis.Config.Allowances.{entries, entry_problems, monitor_problems, backup_problems}
use akropolis.Config.Loading.{
  config_schema_version, version_of, default_authentik_tag, topology_of, resolve, given_environment,
  given_topology, assemble, parts_of, site_of, accept,
}
use akropolis.Config.Valid.{load_null_tag}

abbrev platform : Platform
platform = record {
  is_ipv6 = λ s. false;
  is_network = λ s. false;
  exists = λ s. true;
  expanduser = λ s. s;
  repr_of = λ v. "";
}

abbrev lab : Value → Value
lab tag = dict (
    field "site"
      (dict (
        field "name" (str "lab")
          (field "config_version" (int (pos 3)) (field "topology" (str "single") end))))
      (field "nodes"
        (list (cons (dict (field "name" (str "n1") (field "ip" (str "10.0.0.5") end))) nil))
        (field "ssh" (dict (field "auth" (str "agent") end))
          (field "authentik" (dict (field "tag" tag end)) end))))

run : Value → Load SiteConfig
unfolding load string_eq strip split decimal int_of_text shell_quote lower_is elements from_elements
    lookup_field truthy walk get or_else one_of hashable to_int octets is_ip is_valid_ip_or_cidr
    str_of same_24 node_values expected_node_count nodes_from node_at address_problems promote_first
    with_leader leader_problems count_problems bootstrap_leader not_in get_key ssh_of network_of
    tls_of other_subnet path_problems key_problems ssh_problems subnet_problems vip_problems
    import_problems acme_problems import_pair_problems provider_problems tls_problems tag_problems
    entries entry_problems monitor_problems backup_problems version_of default_authentik_tag
    topology_of resolve given_environment given_topology assemble parts_of site_of accept
run content = load platform "/site" "/site/lab.yaml" (some content)

abbrev pub site : String → Value → SiteConfig
site image tag = record {
  name = str "lab";
  environment = str "lab";
  topology = str "single";
  nodes = record { name = "n1"; ip = "10.0.0.5"; bootstrap_leader = true } ∷ [];
  ssh = record {
    user = str "root";
    become = false;
    auth = str "agent";
    key_file = null;
    port = pos 22;
  };
  network = record {
    vip = "";
    interface = str "ens18";
    expected_mtu = pos 1400;
    vrrp_router_id = pos 51;
    check_l2_adjacency = true;
  };
  tls = record {
    provider = str "self_signed";
    hostname = str "";
    acme = dict end;
    import_cert = dict end;
  };
  state_file = "/site/.state/lab.json";
  config_version = pos 3;
  refuse_existing = true;
  authentik_tag = image;
  raw = lab tag;
}

loads_null : run (lab null) ≡ ok (site "None" null)
unfolding run
loads_null = refl

-- Two nodes of one address where one node is expected, and a tag that YAML read as a number.
crowded : Value
crowded = dict (
    field "site"
      (dict (
        field "name" (str "lab")
          (field "config_version" (int (pos 3)) (field "topology" (str "single") end))))
      (field "nodes"
        (list (
          cons (dict (field "ip" (str "10.0.0.5") end))
            (cons (dict (field "ip" (str "10.0.0.5") end)) nil)))
        (field "ssh" (dict (field "auth" (str "agent") end))
          (field "authentik" (dict (field "tag" (int (pos 2)) end)) end))))

refuses :
    run crowded
    ≡ config_error (
        node_count (str "single") 1 2
        ∷ node_ip_duplicate 1 "node-2" "10.0.0.5"
        ∷ tag_unquoted (int (pos 2))
        ∷ [])
unfolding run crowded
refuses = refl

load_null_tag_example : ◌≡◌ {A = String} "None" "None"
unfolding run get
load_null_tag_example =
    load_null_tag platform "/site" "/site/lab.yaml" (lab null) (site "None" null) loads_null
      (λ tag. refl)

-- An earlier run pinned the loopback answer, and the file says nothing.
abbrev answered : Dict Value
answered = ("backup_localhost", bool true) ∷ []

resolved_apart_example : resolved_backup_ips platform (lab null) answered ≡ ok []
unfolding resolved_backup_localhost backup_ips_from_raw ips_from iterate get_key get walk split
    lookup_field or_else truthy elements entries backup_localhost_from_raw optional_bool
    pinned_localhost pinned Dict.get_or Dict.lookup string_eq
resolved_apart_example = resolved_apart platform (lab null) answered refl
