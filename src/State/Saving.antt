-- ===== src/State/Saving.antt =====
-- The state file and its temporary sibling, and the steps of `State.save` (akropolis/state.py).
use akropolis.Base.{String, Bool, true, false, ℕ, zero, suc, Option, none, some, List, [], ◌∷◌}
use akropolis.Base.Dict.{Dict}
use akropolis.Value.{Value}

-- The document: `phases` maps a name to its entry, `generated` a key to its pinned value.
pub record Data : Type 0 where
  pub site : Option String
  pub phases : Dict (Dict String)
  pub generated : Dict Value

-- What a file holds: a document, or a part of one, which `json.load` refuses.
pub data Content : Type 0 where
  whole : Data → Content
  torn : Content

pub record StateFile : Type 0 where
  pub content : Content
  pub owner_only : Bool

-- `path` is the file's name. `siblings` are the other files of the directory.
pub record Disk : Type 0 where
  pub path : String
  pub file : Option StateFile
  pub tmp : Option StateFile
  pub siblings : Dict StateFile

-- `open(tmp, "w")`: empty, and readable as the umask says.
open_tmp : Disk → Disk
open_tmp d = record d { tmp = some (record { content = torn; owner_only = false }) }

-- `json.dump(self.data, f)`, closed.
dump : Data → Disk → Disk
dump data_out d = record d { tmp = some (record { content = whole data_out; owner_only = false }) }

-- `tmp.replace(self.path)`
replace : Disk → Disk
replace d = record d { file = d.tmp; tmp = none }

restrict : Option StateFile → Option StateFile
restrict none = none
restrict (some f) = some (record f { owner_only = true })

-- `self.path.chmod(0o600)`
chmod : Disk → Disk
unfolding restrict
chmod d = record d { file = restrict d.file }

-- The steps of `save` in order.
unfoldable pub save_steps : Data → List (Disk → Disk)
unfolding open_tmp dump replace chmod
save_steps data_out = open_tmp ∷ dump data_out ∷ replace ∷ chmod ∷ []

-- The first `n` steps: all that has happened when the process dies there.
unfoldable pub run_steps : ℕ → List (Disk → Disk) → Disk → Disk
run_steps zero steps d = d
run_steps (suc n) [] d = d
run_steps (suc n) (step ∷ steps) d = run_steps n steps (step d)

unfoldable pub save_disk : Data → Disk → Disk
unfolding run_steps save_steps
save_disk data_out d = run_steps 4 (save_steps data_out) d
