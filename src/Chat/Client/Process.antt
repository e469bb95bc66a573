-- ===== src/Chat/Client/Process.antt =====
-- bl-client.c: whole runs of `main`, from its arguments to its return.
pub mod Whole
pub mod Ending
mod Tests
use completed_projects.Common.{ℕ, Bool, Option, none, some, List, [], ◌∷◌, ◌≡◌}
use completed_projects.Common.CString.{Bytes}
use completed_projects.Chat.Blather.{Mesg, Join, Client}
use completed_projects.Chat.Os.{Os, Trace, ok}
use completed_projects.Chat.Simpio.{Stack, zero_simpio}
use completed_projects.Chat.Simpio.Mode.{
  Tty, simpio_noncanonical_terminal_mode, simpio_reset_terminal_mode,
}
use completed_projects.Chat.Client.Request.{usage, request, prepare}
use completed_projects.Chat.Client.Joining.{
  printed_usage, no_server, joined, client_main, set_up_terminal,
}
use completed_projects.Chat.Client.Threads.{
  UserThread, at_top, reading, user_returned, user_stopped, ServerThread, listening,
  server_returned, server_stopped, Threads, both_created, Reach,
}

-- `pthread_join` comes back.
abbrev pub UserEnded : UserThread → Type 0
UserEnded user_returned = Unit {0}
UserEnded user_stopped = Unit {0}
UserEnded _ = ⊥

abbrev pub ServerEnded : ServerThread → Type 0
ServerEnded server_returned = Unit {0}
ServerEnded server_stopped = Unit {0}
ServerEnded _ = ⊥

-- A run of `main` that returns: the terminal afterwards, and what was written to the server if the
-- client has joined. What is typed and what the server sends come from outside.
pub data Exits (os : Os) (stack : Stack) (pid : ℕ) (args : List Bytes) (tty : Tty) (input : Bytes)
    (arriving : List Mesg) : Tty → Option (List Mesg) → Type 0 where
  shows_usage :
      {t : Trace}
      → prepare pid args ≡ some usage
      → client_main os usage [] ≡ ok printed_usage t
      → Exits os stack pid args tty input arriving tty none
  finds_no_server :
      {server : Bytes} {join : Join} {t : Trace}
      → prepare pid args ≡ some (request server join)
      → client_main os (request server join) [] ≡ ok no_server t
      → Exits os stack pid args tty input arriving tty none
  leaves :
      {given username server : Bytes} {join : Join} {t : Trace} {c : Client} {th : Threads}
      → args ≡ given ∷ username ∷ []
      → prepare pid args ≡ some (request server join)
      → client_main os (request server join) [] ≡ ok (joined c) t
      → Reach stack username (both_created (set_up_terminal zero_simpio username) input arriving) th
      → UserEnded th.user
      → ServerEnded th.server
      → Exits os stack pid args tty input arriving
          (simpio_reset_terminal_mode (simpio_noncanonical_terminal_mode tty))
          (some th.written)
