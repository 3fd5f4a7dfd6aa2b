-- ===== src/Update/Tests.antt =====
-- Runs of akropolis/update.py, and its theorems there. The world is the time in seconds.
use akropolis.Base.{
  ◌↔◌, ◌≡◌, refl, ℕ, ◌+◌, String, true, false, ◌==◌, string_eq, if◌then◌else◌, Option, none, some,
}
use akropolis.Base.Text.{split, int_of_text, strip, words}
use akropolis.Base.Lines.{split_lines}
use akropolis.Value.{
  Value, str, list, dict, nil, cons, end, field, lookup_field, elements, truthy, hashable,
}
use akropolis.Effects.{return}
use akropolis.Update.Version.{version_tuple, greater, newer_tuple, is_newer}
use akropolis.Update.Precedence.{IsAbove, is_newer-IsAbove}
use akropolis.Update.{
  Cache, Mode, Program, Machine, got, Services, without_v, tag_of, or_known, notice, found_tag,
  write_cache, fetch_release, refresh, check_for_update, with_latest, tell, check_update_now,
}
use akropolis.Update.Throttle.{check_for_update_quiet, check_update_now_agrees}
use akropolis.Update.Install.{
  dicts_of, url_among, asset_url, expected_sum, call, clean_up, fill_and_replace, try_replace,
  install, install_listed, install_checked, fetched, download_text, with_download, download_both,
  update_from, is_zipapp, update_program, self_update,
}
use akropolis.Update.Safe.{Result, self_update-Result}
use akropolis.Update.Done.{Offer, IsUpdated, self_update-IsUpdated}

program : Unit {0}
unfolding string_eq split int_of_text strip words split_lines lookup_field elements truthy hashable
    version_tuple greater newer_tuple is_newer without_v tag_of or_known notice found_tag
    write_cache fetch_release refresh check_for_update with_latest tell check_update_now dicts_of
    url_among asset_url expected_sum call clean_up fill_and_replace try_replace install
    install_listed install_checked fetched download_text with_download download_both update_from
    is_zipapp update_program self_update
program = tt

numbers :
    (is_newer "2.10.0" "2.9.1" ≡ true)
    × ((is_newer "2.9" "2.9.0" ≡ false) × (is_newer "x" "1" ≡ false))
unfolding program
numbers = (refl, (refl, refl))

is_newer-IsAbove_example : (is_newer "2.10.1" "2.9.1" ≡ true) ↔ IsAbove "2.10.1" "2.9.1"
is_newer-IsAbove_example = is_newer-IsAbove "2.10.1" "2.9.1"

abbrev asset : String → String → Value
asset name url = dict (field "name" (str name) (field "browser_download_url" (str url) end))

abbrev release : Value
release = dict (
    field "tag_name" (str "v3.0.0") (
      field "assets"
        (list (cons (asset "akro" "https://a") (cons (asset "SHA256SUMS" "https://s") nil))) end))

abbrev github : Services String ℕ
github = record {
  fetch = λ timeout w. (release, w + 1);
  time = λ w. w;
  cache_writes = λ w. true;
  download = λ url w. (got (if url == "https://a" then "binary" else "abc  akro\n"), w + 1);
  decode = λ bytes. return bytes;
  sha256 = λ bytes. "abc";
  is_zipfile = λ bytes. true;
  system = λ c w. (return tt, w);
}

abbrev old_mode : Mode
old_mode = record { bits = 420; owner_runs = false; group_runs = false; others_run = false }

abbrev old_program : Program String
old_program = record { content = some "old"; mode = old_mode }

abbrev machine : ℕ → Option Cache → Machine String ℕ
machine now cache = record { cache = cache; exe = some old_program; tmp = none; world = now }

abbrev day : ℕ
day = 100000

abbrev known : Option Cache
known = some (record { last_checked = day; latest = some "3.0.0" })

check_for_update_quiet_example :
    check_for_update github "2.8.0" (machine (day + 60) known)
    ≡ (return (some "3.0.0"), machine (day + 60) known)
unfolding program
check_for_update_quiet_example =
    check_for_update_quiet github "2.8.0" (machine day none) (machine (day + 1) known)
      (machine (day + 60) known) (some "3.0.0") refl refl refl refl refl

abbrev told : Option Cache
told = some (record { last_checked = day + 1; latest = some "3.0.0" })

check_update_now_agrees_example :
    check_for_update github "3.0.0" (machine (day + 60) told)
    ≡ (return none, machine (day + 60) told)
unfolding program
check_update_now_agrees_example =
    check_update_now_agrees github "3.0.0" 0 (machine day none) (machine (day + 1) told)
      (machine (day + 60) told) refl refl refl refl refl

self_update-Result_example :
    Result github "2.8.0" old_program
      (machine day none)
      (self_update github "2.8.0" (machine day none)).1
self_update-Result_example = self_update-Result github "2.8.0" old_program (machine day none) refl

offered : Offer github "2.8.0" old_program (machine day none)
unfolding program
offered = record {
  release = release;
  latest = "3.0.0";
  binary = "https://a";
  sums = "https://s";
  bytes = "binary";
  sums_bytes = "abc  akro\n";
  sums_text = "abc  akro\n";
  running = refl;
  zipapp = refl;
  fetched_release = refl;
  there = refl;
  tagged = refl;
  named = refl;
  newer = refl;
  binary_url = refl;
  sums_url = refl;
  binary_named = refl;
  sums_named = refl;
  binary_there = λ w. refl;
  sums_there = λ w. refl;
  decoded = refl;
  listed = refl;
}

self_update-IsUpdated_example :
    IsUpdated github old_program offered.bytes (self_update github "2.8.0" (machine day none))
self_update-IsUpdated_example =
    self_update-IsUpdated github (λ c w. refl) "2.8.0" old_program (machine day none) offered
