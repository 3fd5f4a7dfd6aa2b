-- ===== src/Config/Sound.antt =====
-- A configuration that `load` accepts is well formed.
use akropolis.Base.{
  ℕ, ◌+◌, ◌≡◌, refl, ◌⊎◌, inl, inr, ◌≢◌, String, Bool, true, false, not, ◌&&◌, string_eq,
  if◌then◌else◌, contains, some, List, [], ◌∷◌, ◌++◌, length, All, append-eq-nil, arith, Bool-cases,
}
use mathlib.Core.List.{cons≢nil}
use akropolis.Value.{Value, str, truthy, is_text, one_of}
use akropolis.Config.{Node, SshConfig, TlsConfig}
use akropolis.Config.Address.{Platform, is_ip, octets, same_24}
use akropolis.Config.Nodes.{report, address_problems, leaders, with_leader, leader_problems}
use akropolis.Config.Sections.{
  not_in, get_key, path_problems, key_problems, acme_problems, provider_problems, ips, ssh_problems,
  vip_problems, tls_problems, subnet_problems, other_subnet,
}
use akropolis.Config.Problems.{Problem, vip_invalid, key_file_absent, ok, >>=-eq-ok, ok-injective}

pub report-eq-nil : (b : Bool) (p : Problem) → report b p ≡ [] → b ≡ false
report-eq-nil b p h = ground arith

pub report-append :
    (b : Bool) (p : Problem) (ps : List Problem) → (report b p ++ ps) ≡ [] → (b ≡ false) × (ps ≡ [])
report-append b p ps h = ground arith

pub not-false : (b : Bool) → not b ≡ false → b ≡ true
not-false b h = ground arith

-- One node leads: none or several are promoted to one, or reported.
pub leader_count :
    (nodes : List Node)
    → leader_problems nodes ≡ []
    → nodes ≢ []
    → length (leaders (with_leader nodes)) ≡ 1
unfolding leader_problems with_leader
leader_count [] h some_node = absurd (some_node refl)
leader_count (n ∷ ns) h some_node = ground arith

-- No address is listed twice, and each is valid.
abbrev pub Fresh : List String → List Node → Type 0
Fresh seen [] = Unit
Fresh seen (n ∷ ns) = (contains seen n.ip ≡ false) × Fresh (n.ip ∷ seen) ns

module _ (platform : Platform) where
  pub addresses-Fresh :
      (i : ℕ) (seen : List String) (nodes : List Node)
      → address_problems platform i seen nodes ≡ []
      → All (λ n. is_ip platform n.ip ≡ true) nodes × Fresh seen nodes
  unfolding address_problems
  addresses-Fresh i seen [] h = (tt, tt)
  addresses-Fresh i seen (n ∷ ns) h =
      let (valid, rest) = report-append (not (is_ip platform n.ip)) _ _ h in
      let (new, more) = report-append (contains seen n.ip) _ _ rest in
      let (all_valid, all_new) = addresses-Fresh (i + 1) (n.ip ∷ seen) ns more in
      ((not-false (is_ip platform n.ip) valid, all_valid), (new, all_new))

  -- Under a VIP that is IPv4, each node that is IPv4 lies in its /24.
  abbrev pub Adjacent : String → List Node → Type 0
  Adjacent vip [] = Unit
  Adjacent vip (n ∷ ns) =
      ((a b : List ℕ) → octets vip ≡ some a → octets n.ip ≡ some b → same_24 a b ≡ true)
      × Adjacent vip ns

  subnet_sound :
      (vip : String) (nodes : List Node)
      → subnet_problems platform vip nodes ≡ []
      → Adjacent vip nodes
  unfolding subnet_problems other_subnet
  subnet_sound vip [] h = tt
  subnet_sound vip (n ∷ ns) h =
      let (near, rest) = report-append (other_subnet (octets vip) (octets n.ip)) _ _ h in
      (λ a b of_vip of_node. ground arith, subnet_sound vip ns rest)

  pub vip_sound :
      (vip : String) (nodes : List Node)
      → vip_problems platform vip nodes ≡ []
      → (is_ip platform vip ≡ true) × (contains (ips nodes) vip ≡ false) × Adjacent vip nodes
  unfolding vip_problems
  vip_sound vip nodes h =
      let (found, apart) = append-eq-nil (cond_vip vip nodes) _ h in
      elim (Bool-cases (is_ip platform vip)) [
        | inl valid ↦ (valid, report-eq-nil _ _ apart, subnet_sound vip nodes (rw valid at found))
        | inr invalid ↦ absurd (cons≢nil (rw invalid at found))
      ]
    where
      cond_vip : String → List Node → List Problem
      cond_vip v ns = if is_ip platform v then subnet_problems platform v ns else vip_invalid v ∷ []

  -- The provider is known, is not "none" in production, has a hostname where one is wanted, and
  -- an "acme" provider has its directory and its address.
  pub record TlsSound (environment topology : Value) (tls : TlsConfig) : Type 0 where
    pub known : one_of tls.provider ("none" ∷ "self_signed" ∷ "acme" ∷ "import" ∷ []) ≡ true
    pub secure : (is_text tls.provider "none" && is_text environment "production") ≡ false
    pub named :
        one_of tls.provider ("self_signed" ∷ "acme" ∷ "import" ∷ []) ≡ true
        → (truthy tls.hostname ≡ true)
          ⊎ ((is_text topology "single" && is_text tls.provider "self_signed") ≡ true)
    pub acme_complete :
        is_text tls.provider "acme" ≡ true
        → (directory_url email : Value) × (get_key tls.acme "directory_url" ≡ ok directory_url)
          × (get_key tls.acme "email" ≡ ok email)
          × (truthy directory_url ≡ true)
          × (truthy email ≡ true)

  pub known_of :
      (v : Value) (names : List String) → not_in v names ≡ ok false → one_of v names ≡ true
  unfolding not_in
  known_of v names h = ground arith

  acme_sound :
      (tls : TlsConfig)
      → provider_problems platform tls ≡ ok []
      → is_text tls.provider "acme" ≡ true
      → (directory_url email : Value) × (get_key tls.acme "directory_url" ≡ ok directory_url)
        × (get_key tls.acme "email" ≡ ok email)
        × (truthy directory_url ≡ true)
        × (truthy email ≡ true)
  unfolding provider_problems acme_problems
  acme_sound tls h is_acme =
      let found : acme_problems platform tls ≡ ok [] = rw is_acme at h in
      let (directory_url, got_url, rest) = >>=-eq-ok (get_key tls.acme "directory_url") _ found in
      let (email, got_email, final) = >>=-eq-ok (get_key tls.acme "email") _ rest in
      let (has_url, others) = report-append (not (truthy directory_url)) _ _ (ok-injective final) in
      (
        directory_url,
        email,
        got_url,
        got_email,
        not-false _ has_url,
        not-false _ (report-eq-nil _ _ others),
      )

  pub tls_sound :
      (environment topology : Value) (tls : TlsConfig)
      → tls_problems platform environment topology tls ≡ ok []
      → TlsSound environment topology tls
  unfolding tls_problems
  tls_sound environment topology tls h =
      let (invalid, is_invalid, rest) =
        >>=-eq-ok (not_in tls.provider ("none" ∷ "self_signed" ∷ "acme" ∷ "import" ∷ [])) _ h in
      let (of_provider, provided, final) = >>=-eq-ok (provider_problems platform tls) _ rest in
      let (valid, rest₁) = report-append invalid _ _ (ok-injective final) in
      let (secure, rest₂) =
        report-append (is_text tls.provider "none" && is_text environment "production") _ _ rest₁ in
      let (named, none_left) = report-append _ _ of_provider rest₂ in
      record {
        known = known_of _ _ (rw valid at is_invalid);
        secure = secure;
        named = λ wanted. ground arith;
        acme_complete = acme_sound tls (rw none_left at provided);
      }

  -- Key authentication has a key file that exists.
  pub record SshSound (ssh : SshConfig) : Type 0 where
    pub known : one_of ssh.auth ("key" ∷ "agent" ∷ "password" ∷ []) ≡ true
    pub key_exists :
        is_text ssh.auth "key" ≡ true
        → (path : String) × (ssh.key_file ≡ str path)
          × (platform.exists (platform.expanduser path) ≡ true)

  path_sound :
      (absent : String → Problem) (v : Value)
      → path_problems platform absent v ≡ ok []
      → (path : String) × (v ≡ str path) × (platform.exists (platform.expanduser path) ≡ true)
  unfolding path_problems
  path_sound absent (str p) h = (p, refl, not-false _ (report-eq-nil _ (absent p) (ok-injective h)))
  path_sound absent _ h = cc

  pub ssh_sound : (ssh : SshConfig) → ssh_problems platform ssh ≡ ok [] → SshSound ssh
  unfolding ssh_problems key_problems
  ssh_sound ssh h =
      let (invalid, is_invalid, rest) =
        >>=-eq-ok (not_in ssh.auth ("key" ∷ "agent" ∷ "password" ∷ [])) _ h in
      let (of_key, key_checked, final) = >>=-eq-ok (key_problems platform ssh) _ rest in
      let (valid, none_left) = report-append invalid _ _ (ok-injective final) in
      let checked = rw none_left at key_checked in
      record {
        known = known_of _ _ (rw valid at is_invalid);
        key_exists = λ is_key. elim (Bool-cases (truthy ssh.key_file)) [
          | inl is_set ↦ path_sound key_file_absent ssh.key_file (rw (is_key, is_set) at checked)
          | inr not_set ↦ absurd (cons≢nil (ok-injective (rw (is_key, not_set) at checked)))
        ];
      }
