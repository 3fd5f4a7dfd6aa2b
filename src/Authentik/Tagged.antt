-- ===== src/Authentik/Tagged.antt =====
-- The image tag that akropolis/phases/authentik_phase.py compares with is the one it pinned last.
use text.Mathlib.TextEquality.{eq_iff}
use akropolis.Base.{
  String, ◌≡◌, refl, sym, ◌∙◌, ap, ◌≢◌, inl, inr, Bool-cases, none, some, List, [], ◌∷◌, All, arith,
  ◌==◌, string_eq,
}
use akropolis.Base.Dict
use akropolis.Base.Dict.{lookup, lookup-insert_self, get_or-insert}
use akropolis.State.{State, Entry, mark_entry, mark_phase}
use akropolis.State.Laws.{lookup-mark_entry}
use akropolis.Authentik.{previous_tag, pin_applied_tag, warning_for, tag_change_warning}

-- A call of `mark_phase`.
pub record Mark : Type 0 where
  pub now : String
  pub name : String
  pub status : String
  pub detail : Entry

abbrev pub mark_all : List Mark → State → State
mark_all [] s = s
mark_all (m ∷ marks) s = mark_all marks (mark_phase m.now m.name m.status m.detail s)

abbrev pub LeavesTag : Mark → Type 0
LeavesTag m = lookup "authentik_tag" m.detail ≡ none

tag_ne_updated_at : ◌≢◌ {A = String} "authentik_tag" "updated_at"
tag_ne_updated_at = ground (arith, eq_iff "authentik_tag" "updated_at")

tag_ne_status : ◌≢◌ {A = String} "authentik_tag" "status"
tag_ne_status = ground (arith, eq_iff "authentik_tag" "status")

tag_ne_error : ◌≢◌ {A = String} "authentik_tag" "error"
tag_ne_error = ground (arith, eq_iff "authentik_tag" "error")

lookup_tag :
    (now status : String) (detail entry : Entry)
    → lookup "authentik_tag" detail ≡ none
    → lookup "authentik_tag" (mark_entry now status detail entry) ≡ lookup "authentik_tag" entry
lookup_tag now status detail entry h = ground (
  arith,
  lookup-mark_entry "authentik_tag" now status detail entry h,
  tag_ne_updated_at,
  tag_ne_status,
  tag_ne_error,
)

previous_tag-mark_phase :
    (p : String) (m : Mark) (s : State)
    → LeavesTag m
    → previous_tag p (mark_phase m.now m.name m.status m.detail s) ≡ previous_tag p s
unfolding previous_tag mark_phase
previous_tag-mark_phase p m s h =
    let entry = mark_entry m.now m.status m.detail (Dict.get_or m.name [] s.document.phases) in
    ap (lookup "authentik_tag") (get_or-insert p m.name entry [] s.document.phases)
    ∙ elim (Bool-cases (p == m.name)) [
      | inl same ↦
          let e : p ≡ m.name = ground (arith, same) in
          rw same (
            lookup_tag m.now m.status m.detail _ h
            ∙ ap (λ n. lookup "authentik_tag" (Dict.get_or n [] s.document.phases)) (sym e))
      | inr other ↦ rw other refl
    ]

pinned_entry :
    (now tag : String) (entry : Entry)
    → lookup "authentik_tag" (mark_entry now "applying" (("authentik_tag", tag) ∷ []) entry)
      ≡ some tag
unfolding mark_entry Dict.update
pinned_entry now tag entry = lookup-insert_self "authentik_tag" tag _

previous_tag-pin_applied_tag :
    (now p tag : String) (s : State) → previous_tag p (pin_applied_tag now p tag s) ≡ some tag
unfolding previous_tag pin_applied_tag mark_phase
previous_tag-pin_applied_tag now p tag s =
    let before = Dict.get_or p [] s.document.phases in
    let entry = mark_entry now "applying" (("authentik_tag", tag) ∷ []) before in
    ap (lookup "authentik_tag") (get_or-insert p p entry [] s.document.phases)
    ∙ ground (arith, pinned_entry now tag before)

previous_tag-mark_all :
    (p : String) (marks : List Mark) (s : State)
    → All LeavesTag marks
    → previous_tag p (mark_all marks s) ≡ previous_tag p s
previous_tag-mark_all p [] s h = refl
previous_tag-mark_all p (m ∷ marks) s (leaves, rest) =
    previous_tag-mark_all p marks (mark_phase m.now m.name m.status m.detail s) rest
    ∙ previous_tag-mark_phase p m s leaves

-- The tag that `pin_applied_tag` wrote for a phase is the one that `previous_tag` reads after any
-- further marks, of this phase or of others, whose details set no tag; and the warning about a new
-- tag is the one for that tag.
pub previous_tag_pinned :
    (now p tag new_tag : String) (marks : List Mark) (s : State)
    → All LeavesTag marks
    → let t = mark_all marks (pin_applied_tag now p tag s) in
      (previous_tag p t ≡ some tag)
      × (tag_change_warning p new_tag t ≡ warning_for (some tag) new_tag)
unfolding tag_change_warning
previous_tag_pinned now p tag new_tag marks s h =
    let e =
      previous_tag-mark_all p marks (pin_applied_tag now p tag s) h
      ∙ previous_tag-pin_applied_tag now p tag s in
    (e, ap (λ old. warning_for old new_tag) e)
