-- ===== src/Config.antt =====
-- akropolis/config.py: the site configuration as typed objects.
pub mod Address
pub mod Problems
pub mod Sections
pub mod Nodes
pub mod Allowances
pub mod Loading
pub mod Sound
pub mod Allowed
pub mod Valid
pub mod Resolution
pub mod Tests
use akropolis.Base.{
  ℕ, ℤ, pos, String, Bool, true, false, Option, none, some, List, [], ◌∷◌, if◌then◌else◌, keep,
}
use akropolis.Value.{Value}
use akropolis.Effects.{Outcome, return, raise, exception}

pub record Node : Type 0 where
  pub name : String
  pub ip : String
  pub bootstrap_leader : Bool

-- The fields are what the file gives, of any type, where the code converts nothing.
pub record SshConfig : Type 0 where
  pub user : Value
  pub become : Bool
  pub auth : Value
  pub key_file : Value
  pub port : ℤ

pub record NetworkConfig : Type 0 where
  pub vip : String
  pub interface : Value
  pub expected_mtu : ℤ
  pub vrrp_router_id : ℤ
  pub check_l2_adjacency : Bool

pub record TlsConfig : Type 0 where
  pub provider : Value
  pub hostname : Value
  pub acme : Value
  pub import_cert : Value

pub record SiteConfig : Type 0 where
  pub name : Value
  pub environment : Value
  pub topology : Value
  pub nodes : List Node
  pub ssh : SshConfig
  pub network : NetworkConfig
  pub tls : TlsConfig
  pub state_file : String
  pub config_version : ℤ
  pub refuse_existing : Bool
  pub authentik_tag : String
  pub raw : Value
