-- ===== src/State.antt =====
-- akropolis/state.py: the per-site record of phases and of the values generated once.
pub mod Saving
pub mod Laws
pub mod Tests
use akropolis.Base.{
  String, ◌<>◌, Bool, true, false, ◌==◌, string_eq, if◌then◌else◌, Option, none, some, [], ◌∷◌,
}
use akropolis.Base.Dict
use akropolis.Base.Dict.{Dict}
use akropolis.Base.Text.{quoted}
use akropolis.Value.{Value}
use akropolis.Effects.{Outcome, return, raise, exception}
use akropolis.State.Saving.{Data, Content, whole, torn, Disk, StateFile, save_disk}

-- The object: its data and the directory of its file.
pub record State : Type 0 where
  pub site_name : String
  pub document : Data
  pub disk : Disk

abbrev pub Entry : Type 0
Entry = Dict String

abbrev pub fresh_data : String → Data
fresh_data site = record { site = some site; phases = []; generated = [] }

-- `self.document.get("site") != site_name`
same_site : Option String → String → Bool
same_site none name = false
same_site (some site) name = site == name

shown_site : Option String → String
shown_site none = "None"
shown_site (some site) = quoted site

pub refusal : String → Option String → String → String
unfolding shown_site
refusal path site name =
    "State file "
    <> (path
        <> (" belongs to site "
            <> (shown_site site
                <> (", not " <> (quoted name <> ". Refusing to mix state between sites.")))))

open_content : Content → String → Disk → Outcome State
unfolding same_site refusal
open_content torn name d = raise (exception "json.decoder.JSONDecodeError")
open_content (whole data_in) name d =
    if same_site data_in.site name
    then return (record { site_name = name; document = data_in; disk = d })
    else raise (exception (refusal d.path data_in.site name))

-- `State(path, site_name)`
unfoldable pub init : String → Disk → Outcome State
unfolding open_content
init name d = elim d.file [
  | none ↦ return (record { site_name = name; document = fresh_data name; disk = d })
  | some f ↦ open_content f.content name d
]

-- `save`
unfoldable pub save : State → State
save s = record s { disk = save_disk s.document s.disk }

abbrev pub status_of : Option Entry → String
status_of none = "pending"
status_of (some entry) = Dict.get_or "status" "pending" entry

-- `phase_status`
unfoldable pub phase_status : String → State → String
phase_status name s = status_of (Dict.lookup name s.document.phases)

-- The entry that `mark_phase` leaves, from the entry before.
unfoldable pub mark_entry : String → String → Dict String → Entry → Entry
mark_entry now status detail entry =
    Dict.update
      (Dict.insert "updated_at" now (Dict.insert "status" status (Dict.erase "error" entry))) detail

-- `mark_phase`. `now` is what `time.strftime` gives; an absent `detail` is an empty one.
unfoldable pub mark_phase : String → String → String → Dict String → State → State
unfolding save
mark_phase now name status detail s =
    let entry = mark_entry now status detail (Dict.get_or name [] s.document.phases) in
    save (record s {
      document = record s.document { phases = Dict.insert name entry s.document.phases };
    })

-- `get_or_generate`. `fresh` is what the generator returns, if it is called.
unfoldable pub get_or_generate : String → Value → State → Value × State
unfolding save
get_or_generate key fresh s = elim (Dict.lookup key s.document.generated) [
  | some v ↦ (v, s)
  | none ↦ (
    fresh,
    save (record s {
      document = record s.document { generated = Dict.insert key fresh s.document.generated };
    }),
  )
]
