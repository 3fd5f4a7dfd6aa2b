-- ===== src/Config/Problems.antt =====
-- The problems that `load` of akropolis/config.py reports, one constructor for each message, with
-- what the message quotes, and the outcome of a load.
use akropolis.Base.{ℕ, ℤ, String, List, Option, none, some, ◌≡◌, refl}
use akropolis.Value.{Value}

pub data Problem : Type 0 where
  config_not_found : (path : String) → Problem
  version_missing : Problem
  version_not_integer : Value → Problem
  version_too_old version_too_new : ℤ → Problem
  name_required : Problem
  environment_invalid topology_invalid : Value → Problem
  node_count : (topology : Value) (expected got : ℕ) → Problem
  node_ip_invalid node_ip_duplicate : (index : ℕ) (name ip : String) → Problem
  several_leaders : Problem
  ssh_auth_invalid : Value → Problem
  key_file_not_set : Problem
  key_file_absent : String → Problem
  vip_other_subnet : (vip node ip : String) → Problem
  vip_invalid vip_collides : String → Problem
  provider_invalid : Value → Problem
  none_in_production : Problem
  hostname_required : Value → Problem
  acme_directory_required acme_email_required : Problem
  import_required : (key : String) → Problem
  import_absent : (key path : String) → Problem
  tag_unquoted : Value → Problem
  monitor_ip_replaced monitor_not_list backup_not_list : Problem
  monitor_ip_invalid monitor_ip_collides backup_ip_invalid backup_ip_collides : String → Problem
  backup_ips_ha : Problem
  backup_localhost_not_bool backup_localhost_ha backup_exclusive : Problem

-- `config_error` is a ConfigError with its problems. `crash` is any other exception, from a value
-- of a type that the code does not expect.
pub data Load {ℓ} (A : Type ℓ) : Type ℓ where
  ok : A → Load A
  config_error : List Problem → Load A
  crash : Load A

infixl 5 ◌>>=◌
abbrev pub ◌>>=◌ {ℓ κ} : {A : Type ℓ} {B : Type κ} → Load A → (A → Load B) → Load B
ok a >>= f = f a
config_error ps >>= f = config_error ps
crash >>= f = crash

-- `x`, or a crash where there is none.
abbrev pub or_crash {ℓ} : {A : Type ℓ} → Option A → Load A
or_crash none = crash
or_crash (some a) = ok a

-- A load that went through went through its first half.
pub >>=-eq-ok {ℓ κ} :
    {A : Type ℓ} {B : Type κ} (first : Load A) (rest : A → Load B) {result : B}
    → (first >>= rest) ≡ ok result
    → (value : A) × (first ≡ ok value) × (rest value ≡ ok result)
>>=-eq-ok crash rest e = cc
>>=-eq-ok (config_error problems) rest e = cc
>>=-eq-ok (ok value) rest e = (value, refl, e)

pub ok-injective {ℓ} : {A : Type ℓ} {a b : A} → ok a ≡ ok b → a ≡ b
ok-injective h = cc
