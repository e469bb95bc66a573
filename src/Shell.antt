-- ===== src/Shell.antt =====
-- The command line shell of Unix_Command_Line_Shell.
pub mod Tokens
pub mod Cmd
pub mod Commando
pub mod Session
pub mod Memory
mod Tests
