-- ===== src/Clean/Command.antt =====
-- `cmd_clean` of akropolis/cli.py, from the point where the configuration is read.
use akropolis.Base.{ℕ, String, Bool, true, false, not, ◌&&◌, if◌then◌else◌}
use akropolis.Base.Text.{strip}
use akropolis.Value.{is_text}
use akropolis.Effects.{return, ◌>>=◌}
use akropolis.Session.{Session, Step, input, add_note}
use akropolis.Session.Remote.{Remote}
use akropolis.Cli.Login.{login, preauth}
use akropolis.Cli.Commands.{close, closing}
use akropolis.Clean.{apply, verify}

module _ {W : Type 0} where
  -- `fleet.current_phase = phase.name`, and the note.
  unfoldable pub announce : Step W (Unit {0})
  announce s =
      add_note "phase: clean" (record s { fleet = record s.fleet { current_phase = "clean" } })

  -- `cfg.environment == "production" and not args.i_know_this_is_production`
  unfoldable pub is_protected : Bool → Session W → Bool
  is_protected i_know s = is_text s.cfg.environment "production" && not i_know

  -- Whether the line is the name of the site.
  unfoldable pub is_named : Session W → String → Bool
  is_named s line = is_text s.cfg.name (strip line)

module _ {W : Type 0} (remote : Remote W) (stamp : W → String) where
  -- The body of `try: ... finally`.
  unfoldable pub tear : Step W Bool
  tear = apply remote stamp >>= λ _. verify remote stamp

  unfoldable pub on_line : String → Step W ℕ
  on_line line s = (if is_named s line then closing tear else (λ s. (return 1, close s))) s

  -- What follows the logins and the check of sudo.
  unfoldable pub on_sudo : Bool → Step W ℕ
  on_sudo true s = (announce >>= λ _. input >>= on_line) s
  on_sudo false s = (return 2, close s)

  -- The logins and `_preauth_sudo`.
  unfoldable pub sign_in : Step W Bool
  sign_in = login >>= λ password. preauth remote password

  unfoldable pub cmd_clean : Bool → Step W ℕ
  cmd_clean i_know s = if is_protected i_know s then (return 2, s) else (sign_in >>= on_sudo) s
