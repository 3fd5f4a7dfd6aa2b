-- ===== src/Clean/Guard.antt =====
-- What stands between `akro clean` (akropolis/cli.py, akropolis/phases/clean_phase.py) and a site.
use akropolis.Base.{
  ◌≡◌, refl, sym, ◌∙◌, ap, subst, ℕ, String, Bool, true, false, List, [], ◌∷◌, if◌then◌else◌,
  Bool-cases, inl, inr, arith,
}
use akropolis.Effects.{Outcome, return, and_then-eq-return, ◌>>=◌}
use akropolis.Session.{Session, Step, input, take_answer, add_note}
use akropolis.Session.Remote.{Remote}
use akropolis.Session.Frame.{SameSite}
use akropolis.Cli.Commands.{close, closing}
use akropolis.Session.Loops.{Chain}
use akropolis.Clean.{apply, gone_of}
use akropolis.Clean.Bare.{IsTorn, Bare, Archived, apply-IsTorn, verify-Bare, verify-Moves}
use akropolis.Clean.Command.{
  announce, is_protected, is_named, tear, on_line, on_sudo, sign_in, cmd_clean,
}

module _ {W : Type 0} (remote : Remote W) (stamp : W → String) where
  -- The teardown from `s` to `t`: every step of the table on every node in turn, then the state,
  -- then every trace of the table on every node in turn, and then the end of the connections.
  pub record Cleaned (s t : Session W) : Type 0 where
    pub torn : Session W
    pub steps : IsTorn remote stamp s torn
    pub checked : Session W
    pub bare : Chain (Bare remote stamp (gone_of torn)) s.fleet.conns torn checked
    pub closed : t ≡ close checked
    pub local : Archived remote stamp s.state.disk.file steps.stepped.state t.state
    pub nodes : t.fleet.conns ≡ s.fleet.conns

  -- The whole command from `s` to `t`: the logins and the check of sudo, then the operator's next
  -- line, which names the site, and then the teardown, from a session that differs from that of
  -- the line by the note, the phase and the line alone.
  pub record IsClean (s t : Session W) : Type 0 where
    pub signed : Session W
    pub able : sign_in remote stamp s ≡ (return true, signed)
    pub line : String
    pub lines : List String
    pub typed : signed.answers ≡ line ∷ lines
    pub agreed : is_named signed line ≡ true
    pub begun : Session W
    pub nothing_sent : begun.world ≡ signed.world
    pub same_site : SameSite signed begun
    pub cleaned : Cleaned begun t

  code_inv :
      (ok : Bool) (u t : Session W)
      → ◌≡◌ {A = Outcome ℕ × Session W} (return (if ok then 0 else 1), u) (return 0, t)
      → (ok ≡ true) × (t ≡ u)
  code_inv true u t h = (refl, ap (λ o. o.1) (sym h))
  code_inv false u t h = ground arith

  closing_inv :
      (m : Step W Bool) (s t : Session W)
      → closing m s ≡ (return 0, t)
      → (u : Session W) × ((m s ≡ (return true, u)) × (t ≡ close u))
  unfolding closing
  closing_inv m s t h =
      let (o, u) = m s in
      let (ok, answered, h1) = and_then-eq-return o _ (close u) h in
      let (good, closed) = code_inv ok (close u) t h1 in
      (u, (ap (λ o. (o, u)) (answered ∙ ap return good), closed))

  tear_inv : (s t : Session W) → tear remote stamp s ≡ (return true, t) → Cleaned s (close t)
  unfolding tear close
  tear_inv s t h =
      let (o, u) = apply remote stamp s in
      let (done, answered, h1) = and_then-eq-return o _ u h in
      let torn = apply-IsTorn remote stamp s u (ap (λ o. (o, u)) answered) in
      let kept = subst (SameSite u) (ap (λ o. o.1) h1) ((verify-Moves remote stamp).at u) in
      record {
        torn = u;
        steps = torn;
        checked = t;
        bare =
            subst (λ conns. Chain (Bare remote stamp (gone_of u)) conns u t) torn.same_nodes
              (verify-Bare remote stamp u t h1);
        closed = refl;
        local =
            subst (Archived remote stamp s.state.disk.file torn.stepped.state) (sym kept.1.0)
              torn.local;
        nodes = kept.1.1 ∙ torn.same_nodes;
      }

  on_line_inv :
      (line : String) (s t : Session W)
      → on_line remote stamp line s ≡ (return 0, t)
      → (is_named s line ≡ true) × Cleaned s t
  unfolding on_line
  on_line_inv line s t h = elim (Bool-cases (is_named s line)) [
    | inl named ↦
        let (u, (torn, closed)) = closing_inv (tear remote stamp) s t (rw named at h) in
        (named, subst (Cleaned s) (sym closed) (tear_inv s u torn))
    | inr other ↦ ground (arith, rw other at h)
  ]

  typed_inv :
      (answers : List String) (s t : Session W)
      → s.answers ≡ answers
      → (announce >>= λ _. take_answer answers >>= on_line remote stamp) s ≡ (return 0, t)
      → (line : String) × ((lines : List String) × ((s.answers ≡ line ∷ lines)
            × ((is_named s line ≡ true)
                × ((u : Session W) × ((u.world ≡ s.world) × (SameSite s u × Cleaned u t))))))
  unfolding announce add_note take_answer is_named
  typed_inv [] s t e h = ground arith
  typed_inv (line ∷ lines) s t e h =
      let (named, cleaned) = on_line_inv line _ t h in
      (line, (lines, (e, (named, (_, (refl, ((refl, (refl, refl)), cleaned)))))))

  on_sudo_inv :
      (able : Bool) (r s t : Session W)
      → sign_in remote stamp r ≡ (return able, s)
      → on_sudo remote stamp able s ≡ (return 0, t)
      → IsClean r t
  unfolding on_sudo announce add_note input
  on_sudo_inv true r s t signed h =
      let (line, (lines, (typed, (named, (u, (nothing, (same, cleaned))))))) =
        typed_inv s.answers s t refl h in
      record {
        signed = s;
        able = signed;
        line = line;
        lines = lines;
        typed = typed;
        agreed = named;
        begun = u;
        nothing_sent = nothing;
        same_site = same;
        cleaned = cleaned;
      }
  on_sudo_inv false r s t signed h = ground arith

  -- Where `akro clean` exits with 0, the site is not protected as a production site, the logins
  -- and the check of sudo succeeded, and the operator's next line is the site's name; from there,
  -- with nothing sent in between, every step of the table was sent to every node in turn, with no
  -- firewall reset that failed; then the state file, if there was one, was put away; and then
  -- every trace of the table was found gone from every node in turn by a command that exited with
  -- 0.
  pub cmd_clean-IsClean :
      (i_know : Bool) (s t : Session W)
      → cmd_clean remote stamp i_know s ≡ (return 0, t)
      → (is_protected i_know s ≡ false) × IsClean s t
  unfolding cmd_clean
  cmd_clean-IsClean i_know s t h = elim (Bool-cases (is_protected i_know s)) [
    | inl protected ↦ ground (arith, rw protected at h)
    | inr free ↦
        let (o, u) = sign_in remote stamp s in
        let (able, signed, h1) = and_then-eq-return o (on_sudo remote stamp) u (rw free at h) in
        (free, on_sudo_inv able s u t (ap (λ o. (o, u)) signed) h1)
  ]

  declined :
      (line : String) (lines : List String) (s : Session W)
      → s.answers ≡ line ∷ lines
      → is_named s line ≡ false
      → let (code, t) = on_sudo remote stamp true s in
        (code ≡ return 1) × ((t.world ≡ s.world) × (t.state ≡ s.state))
  unfolding on_sudo announce add_note input take_answer on_line close is_named
  declined line lines s typed other = rw typed (rw other (refl, (refl, refl)))

  -- Where the sudo check of `akro clean` passes on a site that is not protected, and the next line
  -- of the operator is not the site's name, the command exits with 1, and the world and the state
  -- are as the sudo check left them.
  pub cmd_clean_declined :
      (i_know : Bool) (line : String) (lines : List String) (s u : Session W)
      → is_protected i_know s ≡ false
      → sign_in remote stamp s ≡ (return true, u)
      → u.answers ≡ line ∷ lines
      → is_named u line ≡ false
      → let (code, t) = cmd_clean remote stamp i_know s in
        (code ≡ return 1) × ((t.world ≡ u.world) × (t.state ≡ u.state))
  unfolding cmd_clean
  cmd_clean_declined i_know line lines s u free signed typed other =
      rw free (rw signed (declined line lines u typed other))
