-- ===== src/Config/Sections.antt =====
-- The ssh, network, tls and authentik parts of `load` (akropolis/config.py).
use akropolis.Base.{
  ℕ, pos, String, Bool, true, false, not, ◌&&◌, string_eq, if◌then◌else◌, contains, Option, some,
  List, [], ◌∷◌, ◌++◌,
}
use akropolis.Value.{
  Value, null, bool, int, str, dict, end, get, or_else, truthy, is_text, one_of, hashable, to_int,
}
use akropolis.Config.{Node, SshConfig, NetworkConfig, TlsConfig}
use akropolis.Config.Address.{Platform, is_ip, octets, same_24, str_of}
use akropolis.Config.Nodes.{report}
use akropolis.Config.Problems.{
  Problem, ssh_auth_invalid, key_file_not_set, key_file_absent, vip_other_subnet, vip_invalid,
  vip_collides, provider_invalid, none_in_production, hostname_required, acme_directory_required,
  acme_email_required, import_required, import_absent, tag_unquoted, Load, ok, crash, ◌>>=◌,
  or_crash,
}

-- `v not in names`, which raises TypeError for a list or a dict.
unfoldable pub not_in : Value → List String → Load Bool
unfolding hashable one_of
not_in v names = if hashable v then ok (not (one_of v names)) else crash

-- `d.get(key)` for a dict; AttributeError for anything else.
unfoldable pub get_key : Value → String → Load Value
unfolding get
get_key (dict fs) key = ok (get (dict fs) key null)
get_key v key = crash

unfoldable pub ssh_of : Value → Load SshConfig
unfolding get truthy to_int
ssh_of raw = do
  port ← or_crash (to_int (get raw "ssh.port" (int (pos 22))))
  ok (record {
    user = get raw "ssh.user" (str "root");
    become = truthy (get raw "ssh.become" (bool false));
    auth = get raw "ssh.auth" (str "key");
    key_file = get raw "ssh.key_file" null;
    port = port;
  })

unfoldable pub network_of : Platform → Value → Load NetworkConfig
unfolding get truthy to_int str_of
network_of platform raw = do
  expected_mtu ← or_crash (to_int (get raw "network.expected_mtu" (int (pos 1400))))
  vrrp_router_id ← or_crash (to_int (get raw "network.vrrp.router_id" (int (pos 51))))
  ok (record {
    vip = str_of platform (get raw "network.vip" (str ""));
    interface = get raw "network.interface" (str "ens18");
    expected_mtu = expected_mtu;
    vrrp_router_id = vrrp_router_id;
    check_l2_adjacency = truthy (get raw "network.check_l2_adjacency" (bool true));
  })

unfoldable pub tls_of : Value → TlsConfig
unfolding get or_else
tls_of raw = record {
  provider = get raw "tls.provider" (str "self_signed");
  hostname = get raw "tls.hostname" (str "");
  acme = or_else (get raw "tls.acme" (dict end)) (dict end);
  import_cert = or_else (get raw "tls.import" (dict end)) (dict end);
}

-- The addresses of the nodes: `seen_ips`.
abbrev pub ips : List Node → List String
ips [] = []
ips (n ∷ ns) = n.ip ∷ ips ns

-- Only two IPv4 addresses are compared.
unfoldable pub other_subnet : Option (List ℕ) → Option (List ℕ) → Bool
unfolding same_24
other_subnet (some a) (some b) = not (same_24 a b)
other_subnet _ _ = false

module _ (platform : Platform) where
  -- A path that is set: `Path(os.path.expanduser(p)).exists()` wants a text.
  unfoldable pub path_problems : (String → Problem) → Value → Load (List Problem)
  path_problems absent (str p) =
      ok (report (not (platform.exists (platform.expanduser p))) (absent p))
  path_problems absent v = crash

  unfoldable pub key_problems : SshConfig → Load (List Problem)
  key_problems ssh =
      if is_text ssh.auth "key"
      then (if truthy ssh.key_file
          then path_problems key_file_absent ssh.key_file
          else ok (key_file_not_set ∷ []))
      else ok []

  unfoldable pub ssh_problems : SshConfig → Load (List Problem)
  ssh_problems ssh = do
    invalid ← not_in ssh.auth ("key" ∷ "agent" ∷ "password" ∷ [])
    of_key ← key_problems ssh
    ok (report invalid (ssh_auth_invalid ssh.auth) ++ of_key)

  -- The loop over the nodes under a valid VIP.
  unfoldable pub subnet_problems : String → List Node → List Problem
  subnet_problems vip [] = []
  subnet_problems vip (n ∷ ns) =
      report (other_subnet (octets vip) (octets n.ip)) (vip_other_subnet vip n.name n.ip)
      ++ subnet_problems vip ns

  unfoldable pub vip_problems : String → List Node → List Problem
  vip_problems vip nodes =
      (if is_ip platform vip then subnet_problems vip nodes else vip_invalid vip ∷ [])
      ++ report (contains (ips nodes) vip) (vip_collides vip)

  unfoldable pub import_problems : TlsConfig → String → Load (List Problem)
  import_problems tls key = do
    p ← get_key tls.import_cert key
    if truthy p then path_problems (import_absent key) p else ok (import_required key ∷ [])

  unfoldable pub acme_problems : TlsConfig → Load (List Problem)
  acme_problems tls = do
    directory_url ← get_key tls.acme "directory_url"
    email ← get_key tls.acme "email"
    ok (
        report (not (truthy directory_url)) acme_directory_required
        ++ report (not (truthy email)) acme_email_required)

  unfoldable pub import_pair_problems : TlsConfig → Load (List Problem)
  import_pair_problems tls = do
    fullchain ← import_problems tls "fullchain"
    privkey ← import_problems tls "privkey"
    ok (fullchain ++ privkey)

  unfoldable pub provider_problems : TlsConfig → Load (List Problem)
  provider_problems tls =
      if is_text tls.provider "acme"
      then acme_problems tls
      else if is_text tls.provider "import"
      then import_pair_problems tls
      else ok []

  unfoldable pub tls_problems : Value → Value → TlsConfig → Load (List Problem)
  tls_problems environment topology tls = do
    invalid ← not_in tls.provider ("none" ∷ "self_signed" ∷ "acme" ∷ "import" ∷ [])
    of_provider ← provider_problems tls
    let hostname_optional = is_text topology "single" && is_text tls.provider "self_signed"
    let named = one_of tls.provider ("self_signed" ∷ "acme" ∷ "import" ∷ [])
    ok (
        report invalid (provider_invalid tls.provider)
        ++ (report (is_text tls.provider "none" && is_text environment "production")
              none_in_production
            ++ (report (named && (not (truthy tls.hostname) && not hostname_optional))
                  (hostname_required tls.provider)
                ++ of_provider)))

-- A tag that YAML read as a number, a date or anything but a text.
unfoldable pub tag_problems : Value → List Problem
tag_problems null = []
tag_problems (str s) = []
tag_problems v = tag_unquoted v ∷ []
