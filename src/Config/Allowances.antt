-- ===== src/Config/Allowances.antt =====
-- The monitor and backup parts of akropolis/config.py: their checks in `load`, and the resolution
-- of their addresses against what an earlier run pinned.
use akropolis.Base.{
  String, Bool, true, false, not, ◌&&◌, ◌==◌, string_eq, if◌then◌else◌, contains, any, List, [],
  ◌∷◌, ◌++◌,
}
use akropolis.Base.Text.{strip}
use akropolis.Value.{Value, null, bool, list, nil, elements, get, or_else, truthy, is_text}
use akropolis.Config.Address.{Platform, is_valid_ip_or_cidr, str_of}
use akropolis.Config.Nodes.{report}
use akropolis.Config.Problems.{
  Problem, monitor_ip_replaced, monitor_not_list, backup_not_list, monitor_ip_invalid,
  monitor_ip_collides, backup_ip_invalid, backup_ip_collides, backup_ips_ha,
  backup_localhost_not_bool, backup_localhost_ha, backup_exclusive,
}

-- `v is not None`
abbrev pub is_set : Value → Bool
is_set null = false
is_set v = true

module _ (platform : Platform) where
  -- `str(v).strip()` of each entry.
  unfoldable pub entries : List Value → List String
  unfolding str_of strip
  entries [] = []
  entries (v ∷ vs) = strip (str_of platform v) ∷ entries vs

  -- The loop over the entries of `monitor.ips` or `backup.ips`.
  unfoldable pub entry_problems :
      (invalid collides : String → Problem) → List String → List String → List Problem
  unfolding is_valid_ip_or_cidr
  entry_problems invalid collides seen [] = []
  entry_problems invalid collides seen (e ∷ es) =
      (if e == ""
        then []
        else if not (is_valid_ip_or_cidr platform e)
        then invalid e ∷ []
        else if contains seen e
        then collides e ∷ []
        else [])
      ++ entry_problems invalid collides seen es

  unfoldable pub monitor_ips_problems : Value → List String → List Problem
  unfolding elements entries entry_problems
  monitor_ips_problems (list vs) seen =
      entry_problems monitor_ip_invalid monitor_ip_collides seen (entries (elements vs))
  monitor_ips_problems v seen = monitor_not_list ∷ []

  unfoldable pub monitor_problems : Value → List String → List Problem
  unfolding get or_else monitor_ips_problems
  monitor_problems raw seen =
      report (is_set (get raw "monitor.ip" null)) monitor_ip_replaced
      ++ monitor_ips_problems (or_else (get raw "monitor.ips" (list nil)) (list nil)) seen

  unfoldable pub backup_ips_problems : Value → Value → List String → List Problem
  unfolding truthy elements entries entry_problems
  backup_ips_problems topology (list vs) seen =
      if truthy (list vs) && not (is_text topology "single")
      then backup_ips_ha ∷ []
      else entry_problems backup_ip_invalid backup_ip_collides seen (entries (elements vs))
  backup_ips_problems topology v seen = backup_not_list ∷ []

  -- `isinstance(v, list) and any(str(e).strip() for e in v)`
  unfoldable pub some_entry : Value → Bool
  unfolding elements entries
  some_entry (list vs) = any (λ e. not (e == "")) (entries (elements vs))
  some_entry v = false

  unfoldable pub backup_localhost_problems : Value → Value → Value → List Problem
  unfolding some_entry
  backup_localhost_problems topology backup_ips null = []
  backup_localhost_problems topology backup_ips (bool false) = []
  backup_localhost_problems topology backup_ips (bool true) =
      if not (is_text topology "single")
      then backup_localhost_ha ∷ []
      else report (some_entry backup_ips) backup_exclusive
  backup_localhost_problems topology backup_ips v = backup_localhost_not_bool ∷ []

  unfoldable pub backup_problems : Value → Value → List String → List Problem
  unfolding get or_else backup_ips_problems backup_localhost_problems
  backup_problems raw topology seen =
      let backup_ips = or_else (get raw "backup.ips" (list nil)) (list nil) in
      backup_ips_problems topology backup_ips seen
      ++ backup_localhost_problems topology backup_ips (get raw "backup.localhost" null)
