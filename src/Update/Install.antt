-- ===== src/Update/Install.antt =====
-- `self_update` of akropolis/update.py.
use akropolis.Base.{
  ℕ, String, Bool, true, false, not, ◌||◌, ◌==◌, string_eq, if◌then◌else◌, Option, none, some, List,
  [], ◌∷◌,
}
use akropolis.Base.Lines.{split_lines}
use akropolis.Base.Text.{words}
use akropolis.Value.{Value, null, str, list, dict, end, hashable, lookup_field, elements, truthy}
use akropolis.Effects.{
  Outcome, return, raise, exception, interrupt, Action, pure, throw, and_then, ◌>>=◌, ◌>>◌,
}
use akropolis.Update.Version.{is_newer}
use akropolis.Update.{
  Mode, Program, Machine, Syscall, stat, mkstemp, write, chmod, replace, unlink, Download, got,
  url_error, other_error, Services, give, fetch_release, with_latest,
}

-- `BINARY_ASSET`
abbrev pub binary_asset : String
binary_asset = "akro"

-- The elements that a loop over the value gives where each is to be a dict; none where it raises.
unfoldable pub dicts_of : Value → Option (List Value)
unfolding elements
dicts_of (list vs) = some (elements vs)
dicts_of (dict end) = some []
dicts_of (str Prim.Native.String.[]) = some []
dicts_of _ = none

field_or_null : Option Value → Value
field_or_null none = null
field_or_null (some v) = v

-- The value under `name` of the dict that the comprehension makes, after `found`.
unfoldable pub url_among : (name : String) → (found : Value) → List Value → Outcome Value
unfolding lookup_field field_or_null hashable
url_among name found [] = return found
url_among name found (dict fields ∷ more) =
    let key = field_or_null (lookup_field "name" fields) in
    let url = field_or_null (lookup_field "browser_download_url" fields) in
    if not (hashable key)
    then raise (exception "unhashable type")
    else url_among name (elim key [ str s ↦ if s == name then url else found | _ ↦ found ]) more
url_among name found (_ ∷ more) = raise (exception "object has no attribute 'get'")

listed_assets : Option Value → Option (List Value)
unfolding dicts_of
listed_assets none = some []
listed_assets (some v) = dicts_of v

-- `assets.get(name)`
unfoldable pub asset_url : String → Value → Outcome Value
unfolding url_among listed_assets lookup_field
asset_url name (dict fields) = elim (listed_assets (lookup_field "assets" fields)) [
  | none ↦ raise (exception "object is not iterable")
  | some assets ↦ url_among name null assets
]
asset_url name _ = raise (exception "object has no attribute 'get'")

sum_of_line : List String → Option String
sum_of_line (sum ∷ name ∷ []) = if name == binary_asset then some sum else none
sum_of_line _ = none

sum_in : List String → Option String
unfolding sum_of_line words
sum_in [] = none
sum_in (line ∷ lines) = elim (sum_of_line (words line)) [
  | some sum ↦ some sum
  | none ↦ sum_in lines
]

-- The first line of two words of which the second is the asset.
unfoldable pub expected_sum : String → Option String
unfolding sum_in split_lines
expected_sum text = sum_in (split_lines text)

-- `mode | S_IXUSR | S_IXGRP | S_IXOTH`
abbrev pub executable : Mode → Mode
executable m = record m { owner_runs = true; group_runs = true; others_run = true }

-- `mkstemp` makes an empty file that the owner can read and write.
abbrev pub fresh_file : {B : Type 0} → Program B
fresh_file = record {
  content = none;
  mode = record { bits = 384; owner_runs = false; group_runs = false; others_run = false };
}

-- The URL, where it is a text.
abbrev pub text_of : Value → Option String
text_of (str s) = some s
text_of _ = none

module _ {B W : Type 0} (services : Services B W) where
  -- A call that changes the files as `effect` says where it returns.
  unfoldable pub call : Syscall → (Machine B W → Machine B W) → Action (Machine B W) (Unit {0})
  call c effect m =
      let (r, w) = services.system c m.world in
      and_then r (λ _ t. (return tt, effect t)) (record m { world = w })

  abbrev pub set_tmp : Option (Program B) → Machine B W → Machine B W
  set_tmp file m = record m { tmp = file }

  -- `os.replace(tmp_path, exe_path)`
  abbrev pub put_in_place : Machine B W → Machine B W
  put_in_place m = record m { exe = m.tmp; tmp = none }

  -- `except Exception`: the temporary file goes, and the exception on its way.
  unfoldable pub clean_up : Outcome (Unit {0}) → Action (Machine B W) (Unit {0})
  clean_up (return _) m = (return tt, m)
  clean_up (raise (exception e)) m =
      (call unlink (set_tmp none) >> (λ s. (raise (exception e), s))) m
  clean_up (raise interrupt) m = (raise interrupt, m)

  -- The body of the `try`.
  unfoldable pub fill_and_replace : B → Mode → Action (Machine B W) (Unit {0})
  fill_and_replace bytes mode = do
    call write (set_tmp (some (record { content = some bytes; mode = (fresh_file {B = B}).mode })))
    call chmod (set_tmp (some (record { content = some bytes; mode = mode })))
    call replace put_in_place

  -- The `try` with its handler.
  unfoldable pub try_replace : B → Mode → Action (Machine B W) (Unit {0})
  try_replace bytes mode m = let (r, t) = fill_and_replace bytes mode m in clean_up r t

  -- From `exe_path.stat()` on.
  unfoldable pub install : B → Program B → Action (Machine B W) ℕ
  install bytes old = call stat (λ m. m) >>= λ _. call mkstemp (set_tmp (some fresh_file)) >>= λ _.
      try_replace bytes (executable old.mode) >>= λ _. pure 0

  -- The checksum gate.
  unfoldable pub install_listed : Option String → B → Program B → Action (Machine B W) ℕ
  install_listed none bytes old = pure 1
  install_listed (some expected) bytes old =
      if services.sha256 bytes == expected then install bytes old else pure 1

  unfoldable pub install_checked : B → String → Program B → Action (Machine B W) ℕ
  install_checked bytes sums old = install_listed (expected_sum sums) bytes old

  unfoldable pub fetched : Download B → (B → Action (Machine B W) ℕ) → Action (Machine B W) ℕ
  fetched (got bytes) go = go bytes
  fetched url_error go = pure 1
  fetched (other_error e) go = λ m. (raise e, m)

  unfoldable pub download_text :
      Option String → (B → Action (Machine B W) ℕ) → Action (Machine B W) ℕ
  unfolding fetched
  download_text (some url) go m =
      let (d, w) = services.download url m.world in fetched d go (record m { world = w })
  download_text none go m = throw "unknown url type" m

  -- `_download(url)` inside the `try`; a URL that is no text is refused by urllib.
  unfoldable pub with_download : Value → (B → Action (Machine B W) ℕ) → Action (Machine B W) ℕ
  unfolding download_text
  with_download url go = download_text (text_of url) go

  unfoldable pub download_both : (binary sums : Value) → Program B → Action (Machine B W) ℕ
  download_both binary sums old = with_download binary λ bytes. with_download sums λ sums_bytes.
      give services (services.decode sums_bytes) >>= λ text. install_checked bytes text old

  -- From the version on.
  unfoldable pub update_from :
      (current : String) → Program B → Value → String → Action (Machine B W) ℕ
  update_from current old release latest =
      if not (is_newer latest current)
      then pure 0
      else (give services (asset_url binary_asset release) >>= λ binary.
          give services (asset_url "SHA256SUMS" release) >>= λ sums.
          if not (truthy binary) || not (truthy sums)
          then pure 1
          else download_both binary sums old)

  unfoldable pub is_zipapp : Program B → Bool
  is_zipapp p = elim p.content [ none ↦ false | some bytes ↦ services.is_zipfile bytes ]

  unfoldable pub update_program : String → Option (Program B) → Action (Machine B W) ℕ
  unfolding is_zipapp
  update_program current none = pure 1
  update_program current (some old) =
      if is_zipapp old
      then (fetch_release services >>= with_latest services 1 (update_from current old))
      else pure 1

  -- `self_update`
  unfoldable pub self_update : String → Action (Machine B W) ℕ
  unfolding update_program
  self_update current m = update_program current m.exe m
