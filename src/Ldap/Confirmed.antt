-- ===== src/Ldap/Confirmed.antt =====
-- What the operator's answers let akropolis/phases/ldap_reconcile.py change.
use akropolis.Base.{
  ◌≡◌, refl, sym, ◌∙◌, ap, subst, String, Bool, true, ◌||◌, if◌then◌else◌, Option, List, [], ◌∷◌,
  Bool-cases, inl, inr, arith,
}
use akropolis.Effects.{Outcome, return, raise, pure, ◌>>=◌, and_then, and_then-eq-return}
use akropolis.Effects.Moves.{Moves, IsPreorder, Moves-bind}
use akropolis.Session.{Conn, Session, input, take_answer}
use akropolis.Session.Remote.{Remote}
use akropolis.Phases.Runner.{says_yes}
use akropolis.Ldap.Scripts.{Row}
use akropolis.Ldap.{
  Report, Json, confirm_rows, repair_confirmed, no_rows, no_names, is_unknown, drifted_rows,
  reconcile,
}

outcome_rows : Outcome (List Row) → List Row
outcome_rows (return rows) = rows
outcome_rows (raise e) = []

-- The rows of which the line says yes.
abbrev pub picked : (String → Bool) → List Row → List String → List Row
picked agrees [] lines = []
picked agrees (row ∷ rows) [] = []
picked agrees (row ∷ rows) (line ∷ lines) =
    let rest = picked agrees rows lines in if agrees line then row ∷ rest else rest

module _ {W : Type 0} (remote : Remote W) (json : Json) where
  -- Nothing but the answers is touched.
  abbrev pub Untouched : Session W → Session W → Type 0
  Untouched s t = (t.world ≡ s.world) × (t.state ≡ s.state)

  pub order : IsPreorder {S = Session W} Untouched
  order = record { reflexive = λ s. (refl, refl); transitive = λ s t u h k. (k.0 ∙ h.0, k.1 ∙ h.1) }

  take-Moves : (lines : List String) → Moves Untouched (take_answer {W = W} lines)
  unfolding take_answer
  take-Moves [] = record { at = λ s. (refl, refl) }
  take-Moves (line ∷ lines) = record { at = λ s. (refl, refl) }

  input-Moves : Moves Untouched (input {W = W})
  unfolding input
  input-Moves = record { at = λ s. (take-Moves s.answers).at s }

  pub confirm-Moves : (rows : List Row) → Moves Untouched (confirm_rows remote json rows)
  unfolding confirm_rows
  confirm-Moves [] = record { at = λ s. (refl, refl) }
  confirm-Moves (row ∷ rows) = Moves-bind order input _ input-Moves λ line.
      Moves-bind order (confirm_rows remote json rows) _ (confirm-Moves rows)
        λ confirmed. record { at = λ s. (refl, refl) }

  pub confirm_inv :
      (rows confirmed : List Row) (lines : List String) (s t : Session W)
      → s.answers ≡ lines
      → confirm_rows remote json rows s ≡ (return confirmed, t)
      → confirmed ≡ picked (says_yes remote) rows lines
  unfolding confirm_rows input take_answer outcome_rows
  confirm_inv [] confirmed lines s t typed h = ground (arith, h)
  confirm_inv (row ∷ rows) confirmed [] s t typed h = ground (arith, rw typed at h)
  confirm_inv (row ∷ rows) confirmed (line ∷ lines) s t typed h =
      let next = record s { answers = lines } in
      let h1 : (confirm_rows remote json rows >>= λ others.
      pure (if says_yes remote line then row ∷ others else others))
            next
          ≡ (return confirmed, t) =
        rw typed at h in
      let (o, u) = confirm_rows remote json rows next in
      let (others, answered, h2) = and_then-eq-return o _ u h1 in
      let rest = confirm_inv rows others lines next u refl (ap (λ o. (o, u)) answered) in
      ap outcome_rows (sym (ap (λ o. o.0) h2))
      ∙ ap (λ rows. if says_yes remote line then row ∷ rows else rows) rest

  then_nothing :
      (conn : Conn) (source : Option String) (o : Outcome (List Row)) (s : Session W)
      → ((confirmed : List Row) → o ≡ return confirmed → no_rows confirmed ≡ true)
      → Untouched s (and_then o (repair_confirmed remote json conn source) s).1
  unfolding repair_confirmed
  then_nothing conn source (return confirmed) s k = rw (k confirmed refl) (refl, refl)
  then_nothing conn source (raise e) s k = (refl, refl)

  -- Where the operator's lines agree to none of the rows that differ, what follows the report
  -- sends nothing to a node and leaves the state file's data as it was, however it ends.
  pub reconcile_unconfirmed :
      (conn : Conn) (source : Option String) (report : Report) (s : Session W)
      → no_rows (picked (says_yes remote) (drifted_rows report.rows) s.answers) ≡ true
      → Untouched s (reconcile remote json conn source report s).1
  unfolding reconcile
  reconcile_unconfirmed conn source report s nothing =
      let rows = drifted_rows report.rows in
      elim (Bool-cases
        (is_unknown source report.sources_checked || no_names report.sources_checked)) [
          | inl unknown ↦ rw unknown (refl, refl)
          | inr known ↦ elim (Bool-cases (no_rows rows)) [
            | inl same ↦ rw known (rw same (refl, refl))
            | inr drift ↦
                let (o, u) = confirm_rows remote json rows s in
                let asked = (confirm-Moves rows).at s in
                let after = then_nothing conn source o u λ confirmed e.
                  subst (λ c. no_rows c ≡ true)
                    (sym (confirm_inv rows confirmed s.answers s u refl (ap (λ o. (o, u)) e)))
                    nothing in
                rw known (
                  rw drift (
                    order.transitive s u (and_then o (repair_confirmed remote json conn source) u).1
                      asked after))
          ]
        ]
