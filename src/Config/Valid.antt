-- ===== src/Config/Valid.antt =====
-- What `load` of akropolis/config.py promises of the configuration that it returns.
use akropolis.Base.{
  ◌≡◌, refl, subst, ℤ, String, true, false, string_eq, contains, some, List, [], ◌∷◌, length, All,
}
use akropolis.Value.{Value, str, get, is_text, one_of, null, or_else, dict, end, truthy}
use akropolis.Config.{Node, SshConfig, NetworkConfig, TlsConfig, SiteConfig}
use akropolis.Config.Address.{Platform, is_ip, str_of}
use akropolis.Config.Nodes.{leaders, expected_node_count}
use akropolis.Config.Sections.{ips}
use akropolis.Config.Problems.{Problem, ok, >>=-eq-ok, ok-injective}
use akropolis.Config.Loading.{
  Parts, default_authentik_tag, parts_of, version_of, load, site_of, accept,
}
use akropolis.Config.Allowed.{
  TagSound, tag_sound, MonitorSound, monitor_sound, BackupSound, backup_sound,
}
use akropolis.Config.Sound.{Fresh, Adjacent, TlsSound, tls_sound, SshSound, ssh_sound}

module _ (platform : Platform) where
  -- The parts of a site that runs can rely on.
  pub record IsValid (raw name environment topology : Value) (nodes : List Node) (ssh : SshConfig)
      (network : NetworkConfig) (tls : TlsConfig) : Type 0 where
    pub name_given : truthy name ≡ true
    pub environment_known : one_of environment ("lab" ∷ "production" ∷ []) ≡ true
    pub topology_known : one_of topology ("ha" ∷ "single" ∷ []) ≡ true
    pub node_count : length nodes ≡ expected_node_count topology
    pub addresses_valid : All (λ n. is_ip platform n.ip ≡ true) nodes
    pub addresses_differ : Fresh [] nodes
    pub one_leader : length (leaders nodes) ≡ 1
    pub vip_free :
        is_text topology "ha" ≡ true
        → (is_ip platform network.vip ≡ true)
          × (contains (ips nodes) network.vip ≡ false)
          × Adjacent platform network.vip nodes
    pub ssh_sound : SshSound platform ssh
    pub tls_sound : TlsSound platform environment topology tls
    pub tag_sound : TagSound (get raw "authentik.tag" null)
    pub monitor_sound : MonitorSound platform raw (ips nodes)
    pub backup_sound : BackupSound platform raw topology (ips nodes)

  abbrev pub IsValidSite : SiteConfig → Type 0
  IsValidSite c = IsValid c.raw c.name c.environment c.topology c.nodes c.ssh c.network c.tls

  abbrev ValidParts : Value → Parts → Type 0
  ValidParts raw p =
      p.problems ≡ [] → IsValid raw p.name p.environment p.topology p.nodes p.ssh p.network p.tls

  accept-eq-ok :
      {A : Type 0} (problems : List Problem) (a b : A)
      → accept platform problems a ≡ ok b
      → (problems ≡ []) × (a ≡ b)
  unfolding accept
  accept-eq-ok [] a b h = (refl, ok-injective h)
  accept-eq-ok (p ∷ ps) a b h = cc

  -- What a successful load went through.
  load-eq-ok :
      (directory path : String) (content : Value) (c : SiteConfig)
      → load platform directory path (some content) ≡ ok c
      → let raw = or_else content (dict end) in
        (version : ℤ) × (parts : Parts) × (version_of (get raw "site.config_version" null)
          ≡ ok version)
        × (parts_of platform raw ≡ ok parts)
        × (parts.problems ≡ [])
        × (site_of platform directory raw version parts ≡ c)
  unfolding load
  load-eq-ok directory path content c h =
      let raw = or_else content (dict end) in
      let (version, is_version, h₁) =
        >>=-eq-ok (version_of (get raw "site.config_version" null)) _ h in
      let (parts, are_parts, h₂) = >>=-eq-ok (parts_of platform raw) _ h₁ in
      let (clean, same) = accept-eq-ok parts.problems _ c h₂ in
      (version, parts, is_version, are_parts, clean, same)

  -- Where a configuration loads whose image tag is given as null, the site's image tag is the text
  -- None.
  pub load_null_tag :
      (directory path : String) (content : Value) (c : SiteConfig)
      → load platform directory path (some content) ≡ ok c
      → ((tag : String) → get (or_else content (dict end)) "authentik.tag" (str tag) ≡ null)
      → c.authentik_tag ≡ "None"
  unfolding site_of str_of
  load_null_tag directory path content c h null_tag =
      let (version, parts, is_version, are_parts, clean, same) =
        load-eq-ok directory path content c h in
      subst (λ d. d.authentik_tag ≡ "None") same
        (rw (null_tag (default_authentik_tag parts.topology)))
