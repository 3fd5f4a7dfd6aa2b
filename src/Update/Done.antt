-- ===== src/Update/Done.antt =====
-- That `self_update` of akropolis/update.py does update, where GitHub and the system work.
use akropolis.Base.{
  ◌≡◌, refl, ap, subst, eq→true, ◌∙◌, sym, ℕ, String, true, false, ◌==◌, string_eq, none, some,
}
use akropolis.Value.{Value, str, truthy}
use akropolis.Effects.{Outcome, return, Action, and_then, ◌>>=◌}
use akropolis.Update.Version.{is_newer}
use akropolis.Update.{
  Mode, Program, Machine, Syscall, stat, mkstemp, write, chmod, replace, got, Services,
  fetch_release, with_latest, is_null, tag_of, check_timeout_seconds,
}
use akropolis.Update.Install.{
  binary_asset, asset_url, expected_sum, executable, fresh_file, call, clean_up, fill_and_replace,
  try_replace, install, install_listed, install_checked, fetched, download_text, with_download,
  download_both, update_from, is_zipapp, update_program, self_update,
}

module _ {B W : Type 0} (services : Services B W) where
  -- What GitHub offers to the version `current` on this machine: a newer release, with both assets
  -- and the right checksum.
  pub record Offer (current : String) (old : Program B) (s : Machine B W) : Type 0 where
    pub release : Value
    pub latest : String
    pub binary : String
    pub sums : String
    pub bytes : B
    pub sums_bytes : B
    pub sums_text : String
    pub running : s.exe ≡ some old
    pub zipapp : is_zipapp services old ≡ true
    pub fetched_release : (services.fetch check_timeout_seconds s.world).0 ≡ release
    pub there : is_null release ≡ false
    pub tagged : tag_of release ≡ return latest
    pub named : (latest == "") ≡ false
    pub newer : is_newer latest current ≡ true
    pub binary_url : asset_url binary_asset release ≡ return (str binary)
    pub sums_url : asset_url "SHA256SUMS" release ≡ return (str sums)
    pub binary_named : (binary == "") ≡ false
    pub sums_named : (sums == "") ≡ false
    pub binary_there : (w : W) → (services.download binary w).0 ≡ got bytes
    pub sums_there : (w : W) → (services.download sums w).0 ≡ got sums_bytes
    pub decoded : services.decode sums_bytes ≡ return sums_text
    pub listed : expected_sum sums_text ≡ some (services.sha256 bytes)

  -- The code is 0, and the program is the release's.
  pub record IsUpdated (old : Program B) (bytes : B) (result : Outcome ℕ × Machine B W)
      : Type 0 where
    pub code : result.0 ≡ return 0
    pub program : result.1.exe ≡ some (record { content = some bytes; mode = executable old.mode })
    pub no_rest : result.1.tmp ≡ none

  module _ (works : (c : Syscall) (w : W) → (services.system c w).0 ≡ return tt) where
    call_works :
        (c : Syscall) (effect : Machine B W → Machine B W) (s : Machine B W)
        → call services c effect s
          ≡ (return tt, effect (record s { world = (services.system c s.world).1 }))
    unfolding call
    call_works c effect s = rw (works c s.world) refl

    step :
        {A : Type 0} (c : Syscall) (effect : Machine B W → Machine B W)
        (f : Unit {0} → Action (Machine B W) A) (s : Machine B W)
        → (call services c effect >>= f) s
          ≡ f tt (effect (record s { world = (services.system c s.world).1 }))
    step c effect f s = ap (λ o. and_then o.0 f o.1) (call_works c effect s)

    fill_works :
        (bytes : B) (mode : Mode) (s : Machine B W)
        → (w : W) × (fill_and_replace services bytes mode s ≡ (
          return tt,
          record s {
            exe = some (record { content = some bytes; mode = mode });
            tmp = none;
            world = w;
          },
        ))
    unfolding fill_and_replace
    fill_works bytes mode s = (_, step write _ _ s ∙ step chmod _ _ _ ∙ call_works replace _ _)

    install_works :
        (bytes : B) (old : Program B) (s : Machine B W)
        → IsUpdated old bytes (install services bytes old s)
    unfolding install try_replace clean_up
    install_works bytes old s =
        let begun = record s {
          tmp = some fresh_file;
          world = (services.system mkstemp (services.system stat s.world).1).1;
        } in
        let (w, filled) = fill_works bytes (executable old.mode) begun in
        let path =
          step stat _ _ s
          ∙ step mkstemp _ _ _
          ∙ ap
              (λ o.
                let (r, t) = clean_up services o.0 o.1 in
                and_then {B = ℕ} r (λ _ m. (return 0, m)) t)
              filled in
        record {
          code = ap (λ o. o.0) path;
          program = ap (λ o. o.1.exe) path;
          no_rest = ap (λ o. o.1.tmp) path;
        }

    checked_works :
        (bytes : B) (text : String) (old : Program B) (s : Machine B W)
        → expected_sum text ≡ some (services.sha256 bytes)
        → IsUpdated old bytes (install_checked services bytes text old s)
    unfolding install_checked install_listed
    checked_works bytes text old s listed = rw listed (
        rw (eq→true (services.sha256 bytes) (services.sha256 bytes) refl)
          (install_works bytes old s))

    module _ (current : String) (old : Program B) (s : Machine B W)
        (offer : Offer current old s) where
      both_works :
          (t : Machine B W)
          → IsUpdated old offer.bytes
              (download_both services (str offer.binary) (str offer.sums) old t)
      unfolding download_both with_download download_text fetched
      both_works t = rw (offer.binary_there t.world) (
          rw (offer.sums_there (services.download offer.binary t.world).1)
            (rw offer.decoded (checked_works offer.bytes offer.sums_text old _ offer.listed)))

      from_works :
          (t : Machine B W)
          → IsUpdated old offer.bytes
              (update_from services current old offer.release offer.latest t)
      unfolding update_from truthy
      from_works t = rw offer.newer (
          rw offer.binary_url
            (rw offer.sums_url (rw offer.binary_named (rw offer.sums_named (both_works t)))))

      latest_works :
          (t : Machine B W)
          → IsUpdated old offer.bytes
              (with_latest services 1 (update_from services current old) offer.release t)
      unfolding with_latest
      latest_works t = rw offer.there (rw offer.tagged (rw offer.named (from_works t)))

    -- Where GitHub offers a newer release with both assets and the right checksum, and every call
    -- of the operating system works, `self_update` exits with 0, the running binary is the
    -- download, and no temporary file is left.
    pub self_update-IsUpdated :
        (current : String) (old : Program B) (s : Machine B W) (offer : Offer current old s)
        → IsUpdated old offer.bytes (self_update services current s)
    unfolding self_update update_program fetch_release
    self_update-IsUpdated current old s offer =
        let w = (services.fetch check_timeout_seconds s.world).1 in
        subst (λ file. IsUpdated old offer.bytes (update_program services current file s))
          (sym offer.running)
          (rw offer.zipapp
            (rw offer.fetched_release (latest_works current old s offer (record s { world = w }))))
