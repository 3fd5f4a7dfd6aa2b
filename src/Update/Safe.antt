-- ===== src/Update/Safe.antt =====
-- What `self_update` of akropolis/update.py can have done to the running binary, however it ends.
use akropolis.Base.{
  ◌≡◌, refl, sym, ◌∙◌, ap, subst, ◌⊎◌, inl, inr, ℕ, String, true, not, ◌||◌, ◌==◌, string_eq,
  Option, none, some, Bool-cases, arith,
}
use akropolis.Value.{Value, null, bool, int, float, str, other, list, dict, truthy}
use akropolis.Effects.{Outcome, return, raise, Action, and_then, ◌>>=◌}
use akropolis.Update.Version.{is_newer}
use akropolis.Update.{
  Program, Machine, Download, got, url_error, other_error, Services, give, fetch_release,
  with_latest, is_null, tag_of, check_timeout_seconds,
}
use akropolis.Update.Install.{
  binary_asset, asset_url, expected_sum, executable, install_listed, install_checked, fetched,
  text_of, download_text, is_zipapp, update_program, with_download, download_both, update_from,
  self_update,
}
use akropolis.Update.Replacing.{Replaced, install-Replaced}

module _ {B W : Type 0} (services : Services B W) where
  text_of_inv : (v : Value) (text : String) → text_of v ≡ some text → v ≡ str text
  text_of_inv null text h = ground arith
  text_of_inv (bool b) text h = ground arith
  text_of_inv (int z) text h = ground arith
  text_of_inv (float whole is_zero shown) text h = ground arith
  text_of_inv (str given) text h = ap str (ground (arith, h))
  text_of_inv (other given) text h = ground arith
  text_of_inv (list items) text h = ground arith
  text_of_inv (dict fields) text h = ground arith

  -- The update of the version `current` that began in the machine `s`: what the latest release is,
  -- and what was downloaded of it, one after the other.
  module _ (current : String) (old : Program B) (s : Machine B W) where
    -- The release that the network gave is newer than the running version.
    pub record Newer (release : Value) (asked : W) : Type 0 where
      pub fetched : services.fetch check_timeout_seconds s.world ≡ (release, asked)
      pub latest : String
      pub tagged : tag_of release ≡ return latest
      pub newer : is_newer latest current ≡ true

    -- The two files that the release names were downloaded, the program and then the sums.
    pub record Downloaded (release : Value) (asked : W) (bytes : B) (sums : String) : Type 0 where
      pub binary_url : String
      pub sums_url : String
      pub binary_named : asset_url binary_asset release ≡ return (str binary_url)
      pub sums_named : asset_url "SHA256SUMS" release ≡ return (str sums_url)
      pub first : W
      pub second : W
      pub sums_bytes : B
      pub got_binary : services.download binary_url asked ≡ (got bytes, first)
      pub got_sums : services.download sums_url first ≡ (got sums_bytes, second)
      pub decoded : services.decode sums_bytes ≡ return sums

    -- The new program: the bytes of the newer release whose checksum the release lists.
    pub record Upgraded (t : Machine B W) : Type 0 where
      pub release : Value
      pub asked : W
      pub latest : Newer release asked
      pub bytes : B
      pub sums : String
      pub downloaded : Downloaded release asked bytes sums
      pub listed : expected_sum sums ≡ some (services.sha256 bytes)
      pub in_place : t.exe ≡ some (record { content = some bytes; mode = executable old.mode })

    abbrev pub Result : Machine B W → Type 0
    Result t = (t.exe ≡ some old) ⊎ Upgraded t

    returned :
        {A : Type 0} (o : Outcome A) (f : A → Action (Machine B W) ℕ) (t : Machine B W)
        → t.exe ≡ some old
        → ((a : A) → o ≡ return a → Result (f a t).1)
        → Result (and_then o f t).1
    returned (return a) f t was go = go a refl
    returned (raise e) f t was go = inl was

    give_then :
        {A : Type 0} (o : Outcome A) (f : A → Action (Machine B W) ℕ) (t : Machine B W)
        → t.exe ≡ some old
        → ((a : A) → o ≡ return a → Result (f a t).1)
        → Result ((give services o >>= f) t).1
    give_then o f t was go = returned o f t was go

    placed_Result :
        (release : Value) (asked : W) (sums : String) (bytes : B) (t u : Machine B W)
        → Newer release asked
        → Downloaded release asked bytes sums
        → t.exe ≡ some old
        → expected_sum sums ≡ some (services.sha256 bytes)
        → Replaced services bytes (executable old.mode) t u
        → Result u
    placed_Result release asked sums bytes t u latest files was listed (inl kept) = inl (kept ∙ was)
    placed_Result release asked sums bytes t u latest files was listed (inr placed) = inr (record {
      release = release;
      asked = asked;
      latest = latest;
      bytes = bytes;
      sums = sums;
      downloaded = files;
      listed = listed;
      in_place = placed;
    })

    listed_Result :
        (release : Value) (asked : W) (sums : String) (expected : Option String) (bytes : B)
        (t : Machine B W)
        → Newer release asked
        → Downloaded release asked bytes sums
        → t.exe ≡ some old
        → expected_sum sums ≡ expected
        → Result (install_listed services expected bytes old t).1
    unfolding install_listed
    listed_Result release asked sums none bytes t latest files was e = inl was
    listed_Result release asked sums (some expected) bytes t latest files was e =
        elim (Bool-cases (services.sha256 bytes == expected)) [
          | inl same ↦ rw same (
              placed_Result release asked sums bytes t _ latest files was (ground (arith, e, same))
                (install-Replaced services bytes old t))
          | inr differs ↦ rw differs (inl was)
        ]

    checked_Result :
        (release : Value) (asked : W) (sums : String) (bytes : B) (t : Machine B W)
        → Newer release asked
        → Downloaded release asked bytes sums
        → t.exe ≡ some old
        → Result (install_checked services bytes sums old t).1
    unfolding install_checked
    checked_Result release asked sums bytes t latest files was =
        listed_Result release asked sums (expected_sum sums) bytes t latest files was refl

    fetched-Result :
        (d : Download B) (go : B → Action (Machine B W) ℕ) (t : Machine B W)
        → t.exe ≡ some old
        → ((bytes : B) → d ≡ got bytes → Result (go bytes t).1)
        → Result (fetched services d go t).1
    unfolding fetched
    fetched-Result (got bytes) go t was k = k bytes refl
    fetched-Result url_error go t was k = inl was
    fetched-Result (other_error e) go t was k = inl was

    text_Result :
        (url : Option String) (go : B → Action (Machine B W) ℕ) (t : Machine B W)
        → t.exe ≡ some old
        → ((text : String) (bytes : B) (u : Machine B W)
            → url ≡ some text
            → services.download text t.world ≡ (got bytes, u.world)
            → u.exe ≡ some old
            → Result (go bytes u).1)
        → Result (download_text services url go t).1
    unfolding download_text
    text_Result none go t was k = inl was
    text_Result (some url) go t was k =
        let (d, w) = services.download url t.world in
        fetched-Result d go (record t { world = w }) was
          λ bytes e. k url bytes (record t { world = w }) refl (ap (λ d. (d, w)) e) was

    download_Result :
        (url : Value) (go : B → Action (Machine B W) ℕ) (t : Machine B W)
        → t.exe ≡ some old
        → ((text : String) (bytes : B) (u : Machine B W)
            → url ≡ str text
            → services.download text t.world ≡ (got bytes, u.world)
            → u.exe ≡ some old
            → Result (go bytes u).1)
        → Result (with_download services url go t).1
    unfolding with_download
    download_Result url go t was k =
        text_Result (text_of url) go t was λ text bytes u e. k text bytes u (text_of_inv url text e)

    both_Result :
        (release : Value) (binary sums : Value) (t : Machine B W)
        → Newer release t.world
        → asset_url binary_asset release ≡ return binary
        → asset_url "SHA256SUMS" release ≡ return sums
        → t.exe ≡ some old
        → Result (download_both services binary sums old t).1
    unfolding download_both
    both_Result release binary sums t latest binary_named sums_named was =
        download_Result binary _ t was λ binary_url bytes u binary_text got_binary there.
          download_Result sums _ u there λ sums_url sums_bytes v sums_text got_sums still.
            give_then (services.decode sums_bytes) _ v still λ text decoded.
              checked_Result release t.world text bytes v latest
                (record {
                  binary_url = binary_url;
                  sums_url = sums_url;
                  binary_named = binary_named ∙ ap return binary_text;
                  sums_named = sums_named ∙ ap return sums_text;
                  first = u.world;
                  second = v.world;
                  sums_bytes = sums_bytes;
                  got_binary = got_binary;
                  got_sums = got_sums;
                  decoded = decoded;
                })
                still

    update_Result :
        (release : Value) (latest : String) (t : Machine B W)
        → services.fetch check_timeout_seconds s.world ≡ (release, t.world)
        → tag_of release ≡ return latest
        → t.exe ≡ some old
        → Result (update_from services current old release latest t).1
    unfolding update_from
    update_Result release latest t fetched tagged was =
        elim (Bool-cases (is_newer latest current)) [
          | inr older ↦ rw older (inl was)
          | inl newer ↦ rw newer (
              give_then (asset_url binary_asset release) _ t was λ binary binary_named.
                give_then (asset_url "SHA256SUMS" release) _ t was λ sums sums_named.
                  elim (Bool-cases (not (truthy binary) || not (truthy sums))) [
                    | inl missing ↦ rw missing (inl was)
                    | inr both ↦ rw both (
                        both_Result release binary sums t
                          (record {
                            fetched = fetched;
                            latest = latest;
                            tagged = tagged;
                            newer = newer;
                          })
                          binary_named sums_named was)
                  ])
        ]

    latest_Result :
        (release : Value) (t : Machine B W)
        → services.fetch check_timeout_seconds s.world ≡ (release, t.world)
        → t.exe ≡ some old
        → Result (with_latest services 1 (update_from services current old) release t).1
    unfolding with_latest
    latest_Result release t fetched was = elim (Bool-cases (is_null release)) [
      | inl absent ↦ rw absent (inl was)
      | inr there ↦ rw there (
          give_then (tag_of release) _ t was λ latest tagged. elim (Bool-cases (latest == "")) [
            | inl empty ↦ rw empty (inl was)
            | inr filled ↦ rw filled (update_Result release latest t fetched tagged was)
          ])
    ]

  program_Result :
      (current : String) (old : Program B) (s : Machine B W)
      → s.exe ≡ some old
      → Result current old s (update_program services current (some old) s).1
  unfolding update_program fetch_release
  program_Result current old s was = elim (Bool-cases (is_zipapp services old)) [
    | inr differs ↦ rw differs (inl was)
    | inl zipapp ↦
        let (release, w) = services.fetch check_timeout_seconds s.world in
        rw zipapp (latest_Result current old s release (record s { world = w }) refl was)
  ]

  -- However `self_update` ends, by an exit code or by an exception at any call, the running binary
  -- is the one that was there; or the release that was fetched is newer than the running version,
  -- the file it names as the binary was downloaded and then the one it names as SHA256SUMS, and
  -- the binary is that whole download, made executable, with the checksum that those sums list.
  pub self_update-Result :
      (current : String) (old : Program B) (s : Machine B W)
      → s.exe ≡ some old
      → Result current old s (self_update services current s).1
  unfolding self_update
  self_update-Result current old s was =
      subst (λ file. Result current old s (update_program services current file s).1) (sym was)
        (program_Result current old s was)
