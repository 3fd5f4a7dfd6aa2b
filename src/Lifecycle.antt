-- ===== src/Lifecycle.antt =====
-- akropolis/phases/authentik_lifecycle.py: `akro shutdown` and `akro start`. Each phase has a child.
pub mod Shutdown
pub mod Start
pub mod Gate
pub mod Frame
pub mod Stopped
pub mod Consumed
pub mod Tests
use akropolis.Base.{
  String, ◌<>◌, Bool, true, false, not, ◌&&◌, ◌||◌, if◌then◌else◌, Option, none, some, List, [],
  ◌∷◌,
}
use akropolis.Value.{is_text}
use akropolis.Session.{Session}

-- `RUNNING`
abbrev pub running : String
running =
    "docker ps --filter status=running --format '{{.Names}}' | grep -qE '^authentik-(server|worker)-1$'"

module _ {W : Type 0} where
  -- `ctx.cfg.topology == "ha"`
  unfoldable pub is_ha : Session W → Bool
  is_ha s = is_text s.cfg.topology "ha"

  -- `_scope`
  unfoldable pub scope : Session W → String
  unfolding is_ha
  scope s = if is_ha s then "" else " server worker"
