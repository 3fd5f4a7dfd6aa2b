-- ===== src/Cli/Commands.antt =====
-- `cmd_provision`, `_lifecycle_cmd` and `cmd_shutdown`/`cmd_start` of akropolis/cli.py, from the
-- point where the configuration and the state are read.
use akropolis.Base.{
  ℕ, String, Bool, true, false, not, ◌==◌, string_eq, contains, if◌then◌else◌, List, [], ◌∷◌, any,
  keep,
}
use akropolis.Effects.{return, and_then, ◌>>=◌}
use akropolis.Session.{Session, Step}
use akropolis.Session.Remote.{Remote}
use akropolis.Phases.{Phase}
use akropolis.Phases.Runner.{mark, run_phases}
use akropolis.Lifecycle.Shutdown.{shutdown}
use akropolis.Lifecycle.Start.{start}
use akropolis.Cli.Login.{login, preauth}

abbrev pub is_empty : List String → Bool
is_empty [] = true
is_empty (x ∷ xs) = false

module _ {W : Type 0} where
  -- `Fleet.close`
  unfoldable pub close : Session W → Session W
  close s = record s { fleet = record s.fleet { connected = [] } }

  -- `try: ... finally: fleet.close()`, and the exit code.
  unfoldable pub closing : Step W Bool → Step W ℕ
  closing m s = let (r, t) = m s in and_then r (λ ok u. (return (if ok then 0 else 1), u)) (close t)

  -- `[p for p in pipeline if p.name in args.only]`
  unfoldable pub selected : List String → List (Phase W) → List (Phase W)
  selected only pipeline = keep (λ p. contains only p.name) pipeline

  -- Whether `missing` is not empty.
  unfoldable pub has_missing : List String → List (Phase W) → Bool
  has_missing only pipeline = any (λ name. not (any (λ p. p.name == name) pipeline)) only

module _ {W : Type 0} (remote : Remote W) where
  -- `--replay`: each name is marked pending.
  unfoldable pub mark_pending : List String → Session W → Session W
  mark_pending [] s = s
  mark_pending (name ∷ names) s = mark_pending names (mark remote name "pending" [] s)

  -- The phases of the run: all, or those that `--only` names.
  unfoldable pub run_selected : List (Phase W) → List String → Step W ℕ
  run_selected pipeline only s =
      if is_empty only
      then closing (run_phases remote pipeline false) s
      else (if has_missing only (selected only pipeline)
          then (return 2, s)
          else closing (run_phases remote (selected only pipeline) true) s)

  -- What follows `_preauth_sudo` in `cmd_provision`.
  unfoldable pub proceed : List (Phase W) → (replay only : List String) → (able : Bool) → Step W ℕ
  proceed pipeline replay only true s = run_selected pipeline only (mark_pending replay s)
  proceed pipeline replay only false s = (return 2, close s)

  -- `cmd_provision`, of the pipeline that `pipeline_for` gives.
  unfoldable pub provision : List (Phase W) → (replay only : List String) → Step W ℕ
  provision pipeline replay only =
      login >>= λ password. preauth remote password >>= λ able. proceed pipeline replay only able

  -- `_lifecycle_cmd`
  unfoldable pub lifecycle : Phase W → Step W ℕ
  lifecycle phase = login >>= λ password. preauth remote password >>= λ able.
      if able then closing (run_phases remote (phase ∷ []) true) else (λ s. (return 2, close s))

  -- `cmd_shutdown` and `cmd_start`
  abbrev pub cmd_shutdown : Step W ℕ
  cmd_shutdown = lifecycle (shutdown remote)

  abbrev pub cmd_start : Step W ℕ
  cmd_start = lifecycle (start remote)
