-- ===== src/Config/Allowed.antt =====
-- What the monitor and backup checks of `load` in akropolis/config.py let pass.
use akropolis.Base.{
  ◌≡◌, refl, ◌⊎◌, inl, inr, String, true, false, not, ◌&&◌, ◌==◌, string_eq, contains, List, [],
  ◌∷◌, All, append-eq-nil, Bool-cases, arith,
}
use akropolis.Value.{
  Value, Items, null, bool, int, float, str, other, list, dict, nil, elements, get, or_else, truthy,
  is_text,
}
use akropolis.Config.Address.{Platform, is_valid_ip_or_cidr}
use akropolis.Config.Sections.{tag_problems}
use akropolis.Config.Sound.{report-append}
use akropolis.Config.Problems.{
  Problem, monitor_ip_invalid, monitor_ip_collides, backup_ip_invalid, backup_ip_collides,
}
use akropolis.Config.Allowances.{
  is_set, entries, entry_problems, monitor_ips_problems, monitor_problems, backup_ips_problems,
  some_entry, backup_localhost_problems, backup_problems,
}

-- An image tag is absent, null or a text.
abbrev pub TagSound : Value → Type 0
TagSound v = (v ≡ null) ⊎ ((text : String) × (v ≡ str text))

pub tag_sound : (v : Value) → tag_problems v ≡ [] → TagSound v
unfolding tag_problems
tag_sound null h = inl refl
tag_sound (str text) h = inr (text, refl)
tag_sound (bool b) h = ground arith
tag_sound (int z) h = ground arith
tag_sound (float whole is_zero shown) h = ground arith
tag_sound (other text) h = ground arith
tag_sound (list items) h = ground arith
tag_sound (dict fields) h = ground arith

module _ (platform : Platform) where
  -- An entry is empty, or an address or a network that is no node's address.
  abbrev pub EntrySound : List String → String → Type 0
  EntrySound seen e =
      (e ≡ "") ⊎ ((is_valid_ip_or_cidr platform e ≡ true) × (contains seen e ≡ false))

  entry_sound :
      (invalid collides : String → Problem) (seen es : List String)
      → entry_problems platform invalid collides seen es ≡ []
      → All (EntrySound seen) es
  unfolding entry_problems
  entry_sound invalid collides seen [] h = tt
  entry_sound invalid collides seen (e ∷ es) h =
      let (this, rest) = append-eq-nil _ (entry_problems platform invalid collides seen es) h in
      (
        elim (Bool-cases (e == "")) [
          | inl empty ↦ inl (ground (arith, empty))
          | inr given ↦ elim (Bool-cases (is_valid_ip_or_cidr platform e)) [
            | inr bad ↦ ground (arith, rw bad at (rw given at this))
            | inl valid ↦ elim (Bool-cases (contains seen e)) [
              | inl taken ↦ ground (arith, rw taken at (rw valid at (rw given at this)))
              | inr free ↦ inr (valid, free)
            ]
          ]
        ],
        entry_sound invalid collides seen es rest,
      )

  -- A list of which every entry is sound.
  abbrev pub ListSound : List String → Value → Type 0
  ListSound seen v =
      (items : Items) × ((v ≡ list items)
        × All (EntrySound seen) (entries platform (elements items)))

  -- The monitor's addresses are a list of sound entries, and its old key is not used.
  pub record MonitorSound (raw : Value) (seen : List String) : Type 0 where
    pub not_replaced : is_set (get raw "monitor.ip" null) ≡ false
    pub ips_sound : ListSound seen (or_else (get raw "monitor.ips" (list nil)) (list nil))

  -- The answer about backups from the node itself is absent, or no, or yes on a single node with
  -- no other address.
  abbrev pub LocalhostSound : Value → Value → Value → Type 0
  LocalhostSound topology ips given =
      (given ≡ null)
      ⊎ ((given ≡ bool false)
          ⊎ ((given ≡ bool true)
              × ((is_text topology "single" ≡ true) × (some_entry platform ips ≡ false))))

  -- The backup's addresses are a list of sound entries, which only a single node has.
  pub record BackupSound (raw topology : Value) (seen : List String) : Type 0 where
    pub ips_sound : ListSound seen (or_else (get raw "backup.ips" (list nil)) (list nil))
    pub single_only :
        truthy (or_else (get raw "backup.ips" (list nil)) (list nil)) ≡ true
        → is_text topology "single" ≡ true
    pub localhost_sound :
        LocalhostSound topology
          (or_else (get raw "backup.ips" (list nil)) (list nil))
          (get raw "backup.localhost" null)

  monitor_list :
      (v : Value) (seen : List String)
      → monitor_ips_problems platform v seen ≡ []
      → ListSound seen v
  unfolding monitor_ips_problems
  monitor_list (list vs) seen h =
      (vs, (refl, entry_sound monitor_ip_invalid monitor_ip_collides seen _ h))
  monitor_list null seen h = ground arith
  monitor_list (bool b) seen h = ground arith
  monitor_list (int z) seen h = ground arith
  monitor_list (float whole is_zero shown) seen h = ground arith
  monitor_list (str text) seen h = ground arith
  monitor_list (other text) seen h = ground arith
  monitor_list (dict fields) seen h = ground arith

  pub monitor_sound :
      (raw : Value) (seen : List String)
      → monitor_problems platform raw seen ≡ []
      → MonitorSound raw seen
  unfolding monitor_problems
  monitor_sound raw seen h =
      let (unset, rest) = report-append _ _ _ h in
      record { not_replaced = unset; ips_sound = monitor_list _ seen rest }

  backup_list :
      (topology v : Value) (seen : List String)
      → backup_ips_problems platform topology v seen ≡ []
      → ListSound seen v × (truthy v ≡ true → is_text topology "single" ≡ true)
  unfolding backup_ips_problems
  backup_list topology (list vs) seen h =
      elim (Bool-cases (truthy (list vs) && not (is_text topology "single"))) [
        | inl bad ↦ ground (arith, rw bad at h)
        | inr fine ↦ (
          (vs, (refl, entry_sound backup_ip_invalid backup_ip_collides seen _ (rw fine at h))),
          λ some. ground (arith, fine, some),
        )
      ]
  backup_list topology null seen h = ground arith
  backup_list topology (bool b) seen h = ground arith
  backup_list topology (int z) seen h = ground arith
  backup_list topology (float whole is_zero shown) seen h = ground arith
  backup_list topology (str text) seen h = ground arith
  backup_list topology (other text) seen h = ground arith
  backup_list topology (dict fields) seen h = ground arith

  localhost_sound :
      (topology ips given : Value)
      → backup_localhost_problems platform topology ips given ≡ []
      → LocalhostSound topology ips given
  unfolding backup_localhost_problems
  localhost_sound topology ips null h = inl refl
  localhost_sound topology ips (bool false) h = inr (inl refl)
  localhost_sound topology ips (bool true) h = elim (Bool-cases (is_text topology "single")) [
    | inr several ↦ ground (arith, rw several at h)
    | inl single ↦ elim (Bool-cases (some_entry platform ips)) [
      | inl both ↦ ground (arith, rw both at (rw single at h))
      | inr alone ↦ inr (inr (refl, (single, alone)))
    ]
  ]
  localhost_sound topology ips (int z) h = ground arith
  localhost_sound topology ips (float whole is_zero shown) h = ground arith
  localhost_sound topology ips (str text) h = ground arith
  localhost_sound topology ips (other text) h = ground arith
  localhost_sound topology ips (list items) h = ground arith
  localhost_sound topology ips (dict fields) h = ground arith

  pub backup_sound :
      (raw topology : Value) (seen : List String)
      → backup_problems platform raw topology seen ≡ []
      → BackupSound raw topology seen
  unfolding backup_problems
  backup_sound raw topology seen h =
      let (of_ips, of_localhost) = append-eq-nil _ _ h in
      let (listed, single) = backup_list topology _ seen of_ips in
      record {
        ips_sound = listed;
        single_only = single;
        localhost_sound = localhost_sound topology _ _ of_localhost;
      }
