-- ===== src/State/Laws.antt =====
-- Laws of akropolis/state.py.
use akropolis.Base.{
  String, ◌≡◌, refl, ◌≢◌, ◌⊎◌, true, inl, inr, ℕ, zero, suc, none, some, [], arith, ◌==◌, string_eq,
  if◌then◌else◌,
}
use akropolis.Base.Dict
use akropolis.Base.Dict.{
  Dict, lookup, lookup-insert, lookup-insert_self, lookup-insert_ne, lookup-erase, lookup-update_ne,
}
use text.Mathlib.TextEquality.{eq_iff}
use akropolis.Value.{Value}
use akropolis.Effects.{return, raise, exception}
use akropolis.State.Saving.{whole, StateFile, save_disk, save_steps, run_steps}
use akropolis.State.{
  State, Entry, init, save, same_site, refusal, phase_status, mark_entry, mark_phase,
  get_or_generate,
}

-- The file holds the document, readable by its owner only, and no temporary file is left.
pub record Saved (s : State) : Type 0 where
  pub written : s.disk.file ≡ some (record { content = whole s.document; owner_only = true })
  pub clean : s.disk.tmp ≡ none

pub save-Saved : (s : State) → Saved (save s)
unfolding save save_disk
save-Saved s = record { written = refl; clean = refl }

-- A state file as `save` leaves it is read back as it was where it names the site, and is refused
-- with both names where it names another.
pub init-Saved :
    (s : State) (name site : String)
    → Saved s
    → s.document.site ≡ some site
    → init name s.disk ≡ (
        if site == name
        then return (record s { site_name = name })
        else raise (exception (refusal s.disk.path (some site) name)))
unfolding init same_site
init-Saved s name site saved e = ground arith

-- A process that dies after any number of the steps of `save` leaves the state file as it was, or
-- a file that holds the whole new document.
pub save_crash :
    (s : State) (n : ℕ)
    → let d = run_steps n (save_steps s.document) s.disk in
      (d.file ≡ s.disk.file)
      ⊎ ((f : StateFile) × (d.file ≡ some f) × (f.content ≡ whole s.document))
unfolding save_steps run_steps
save_crash s zero = inl refl
save_crash s (suc zero) = inl refl
save_crash s (suc (suc zero)) = inl refl
save_crash s (suc (suc (suc zero))) = inr (_, refl, refl)
save_crash s (suc (suc (suc (suc zero)))) = inr (_, refl, refl)
save_crash s (suc (suc (suc (suc (suc n))))) = inr (_, refl, refl)

-- A value that `get_or_generate` gave is stored, and a later call with another generator gives the
-- same value and changes nothing.
pub get_or_generate_pins :
    (key : String) (fresh later : Value) (s : State)
    → let (v, t) = get_or_generate key fresh s in
      (get_or_generate key later t ≡ (v, t)) × (lookup key t.document.generated ≡ some v)
unfolding get_or_generate
get_or_generate_pins key fresh later s =
    ground (arith, lookup-insert_self key fresh s.document.generated)

-- The entry of a phase after a mark, key by key, for a key that the detail does not set: the time,
-- the status, no error, and otherwise what was there.
pub lookup-mark_entry :
    (k now status : String) (detail entry : Entry)
    → lookup k detail ≡ none
    → lookup k (mark_entry now status detail entry) ≡ (
        if k == "updated_at"
        then some now
        else if k == "status"
        then some status
        else if k == "error"
        then none
        else lookup k entry)
unfolding mark_entry
lookup-mark_entry k now status detail entry h =
    rw (lookup-update_ne k _ detail h, lookup-insert, lookup-insert, lookup-erase)

status_ne_updated_at : ◌≢◌ {A = String} "status" "updated_at"
status_ne_updated_at = ground (arith, eq_iff "status" "updated_at")

pub phase_status-mark_phase :
    (now name status : String) (detail : Entry) (s : State)
    → lookup "status" detail ≡ none
    → phase_status name (mark_phase now name status detail s) ≡ status
unfolding phase_status mark_phase Dict.get_or
phase_status-mark_phase now name status detail s h = rw lookup-insert_self (
    ground (
      arith,
      lookup-mark_entry "status" now status detail (Dict.get_or name [] s.document.phases),
      status_ne_updated_at,
    ))

pub phase_status-mark_phase_ne :
    (now name status other : String) (detail : Entry) (s : State)
    → other ≢ name
    → phase_status other (mark_phase now name status detail s) ≡ phase_status other s
unfolding phase_status mark_phase
phase_status-mark_phase_ne now name status other detail s h =
    rw (lookup-insert_ne other name _ s.document.phases h)

pub mark_phase-Saved :
    (now name status : String) (detail : Entry) (s : State)
    → Saved (mark_phase now name status detail s)
unfolding mark_phase
mark_phase-Saved now name status detail s = save-Saved _
