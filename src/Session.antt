-- ===== src/Session.antt =====
-- What a command works on: akropolis/sshexec.py (`NodeConn`, `Fleet`) and the `PhaseContext` of
-- akropolis/phases/base.py, with the operator's answers and the outside world.
pub mod Remote
pub mod Waiting
pub mod Pushing
pub mod Placed
pub mod Loops
pub mod Sent
pub mod Pinned
pub mod Uploading
pub mod Uploaded
pub mod Frame
pub mod Clock
pub mod Polling
pub mod Samples
pub mod Tests
use akropolis.Base.{
  ℕ, ℤ, pos, negsuc, zero, suc, String, ◌<>◌, Bool, true, false, not, ◌&&◌, ◌||◌, ◌==◌, string_eq,
  if◌then◌else◌, Option, none, some, List, [], ◌∷◌, ◌++◌, eqb,
}
use akropolis.Config.{Node, SshConfig, SiteConfig}
use akropolis.State.{State}
use akropolis.Effects.{Outcome, return, raise, exception, Raised, Action, pure, throw, ◌>>=◌, ◌>>◌}

-- One named check result inside a phase.
pub record Check : Type 0 where
  pub node : String
  pub name : String
  pub ok : Bool
  pub detail : String
  pub warn : Bool

-- A `NodeConn`: `slot` is its place in the fleet.
pub record Conn : Type 0 where
  pub slot : ℕ
  pub node : Node
  pub cfg : SshConfig
  pub password : Option String
  pub sudo_password : Option String

-- What the transcript has been given, in order and before redaction.
pub data Entry : Type 0 where
  note : String → Entry
  command : (node phase cmd : String) (rc : ℤ) (out err : String) → Entry

-- `connected` holds the slots whose `_client` is not None.
pub record Fleet : Type 0 where
  pub conns : List Conn
  pub connected : List ℕ
  pub current_phase : String
  pub transcript : List Entry

pub record Session (W : Type 0) : Type 0 where
  pub cfg : SiteConfig
  pub state : State
  pub fleet : Fleet
  pub checks : List Check
  pub answers : List String
  pub world : W

abbrev pub Step : Type 0 → Type 0 → Type 0
Step W A = Action (Session W) A

abbrev pub plain : String → String → Bool → String → Check
plain node name ok detail = record {
  node = node;
  name = name;
  ok = ok;
  detail = detail;
  warn = false;
}

module _ {W : Type 0} where
  -- `ctx.record(...)`
  unfoldable pub add_check : Check → Step W (Unit {0})
  add_check c s = (return tt, record s { checks = s.checks ++ (c ∷ []) })

  -- `transcript.note(text)`
  unfoldable pub add_note : String → Step W (Unit {0})
  add_note text s = (
    return tt,
    record s { fleet = record s.fleet { transcript = s.fleet.transcript ++ (note text ∷ []) } },
  )

  unfoldable pub take_answer : List String → Step W String
  take_answer [] s = throw "EOF when reading a line" s
  take_answer (line ∷ lines) s = (return line, record s { answers = lines })

  -- `input(prompt)`: the next line, or EOFError.
  unfoldable pub input : Step W String
  unfolding take_answer
  input s = take_answer s.answers s
