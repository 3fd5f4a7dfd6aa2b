-- ===== src/Cli.antt =====
-- akropolis/cli.py: how a command logs in, runs its phases and gives its exit code.
pub mod Login
pub mod Commands
pub mod Rows
pub mod Authorised
pub mod Choice
pub mod Tests
