-- ===== src/State/Tests.antt =====
-- The laws of akropolis/state.py at concrete states.
use akropolis.Base.{◌≡◌, refl, ◌⊎◌, none, some, [], ◌∷◌, string_eq}
use akropolis.Base.Dict
use akropolis.Value.{str}
use akropolis.Effects.{raise, exception}
use akropolis.State.Saving.{whole, StateFile, save_steps, run_steps, save_disk}
use akropolis.State.{
  State, init, save, refusal, mark_entry, mark_phase, get_or_generate, fresh_data,
}
use akropolis.State.Laws.{
  init-Saved, save-Saved, save_crash, get_or_generate_pins, lookup-mark_entry,
}

abbrev fresh : State
fresh = record {
  site_name = "lab";
  document = fresh_data "lab";
  disk = record { path = ".state/lab.json"; file = none; tmp = none; siblings = [] };
}

-- A failed attempt, then a successful one: the error is gone.
marked_twice :
    (mark_phase "t1" "etcd" "done" []
      (mark_phase "t0" "etcd" "failed" (("error", "x") ∷ []) fresh)).document.phases
    ≡ ("etcd", ("status", "done") ∷ ("updated_at", "t1") ∷ []) ∷ []
unfolding mark_phase mark_entry save Dict.insert Dict.erase Dict.update Dict.get_or Dict.lookup
    string_eq
marked_twice = refl

init-Saved_example :
    init "other" (save fresh).disk
    ≡ raise (exception (refusal ".state/lab.json" (some "lab") "other"))
unfolding string_eq save save_disk run_steps save_steps
init-Saved_example = init-Saved (save fresh) "other" "lab" (save-Saved fresh) refl

save_crash_example :
    let d = run_steps 2 (save_steps (fresh_data "lab")) fresh.disk in
    (d.file ≡ none) ⊎ ((f : StateFile) × (d.file ≡ some f) × (f.content ≡ whole (fresh_data "lab")))
save_crash_example = save_crash fresh 2

get_or_generate_pins_example :
    let (v, t) = get_or_generate "pg_pass" (str "a") fresh in
    (get_or_generate "pg_pass" (str "b") t ≡ (v, t))
    × (Dict.lookup "pg_pass" t.document.generated ≡ some v)
get_or_generate_pins_example = get_or_generate_pins "pg_pass" (str "a") (str "b") fresh

lookup-mark_entry_example :
    Dict.lookup "error" (mark_entry "t1" "done" [] (("error", "x") ∷ [])) ≡ none
unfolding Dict.lookup string_eq
lookup-mark_entry_example = lookup-mark_entry "error" "t1" "done" [] (("error", "x") ∷ []) refl
