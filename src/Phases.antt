-- ===== src/Phases.antt =====
-- akropolis/phases/base.py: the phase framework and the runner.
pub mod Runner
pub mod Order
pub mod Frame
pub mod Settled
pub mod Stopped
pub mod Tests
use akropolis.Base.{String, Bool, List, Option, none, some, [], ◌∷◌}
use akropolis.Effects.{Outcome}
use akropolis.Session.{Session, Step}

-- A phase: its class attributes and its methods.
pub record Phase (W : Type 0) : Type 0 where
  pub name : String
  pub read_only : Bool
  pub optional : Bool
  pub needs_confirm : Step W Bool
  pub plan : Step W (List String)
  pub apply : Step W (Unit {0})
  pub verify : Step W Bool
