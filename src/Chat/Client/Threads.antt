-- ===== src/Chat/Client/Threads.antt =====
-- bl-client.c: the two threads of the client over one terminal, interleaved. A call of `iprintf`,
-- `simpio_get_char`, `write` or `read` is one step, with what the thread does around it. A cancelled
-- thread may run on for a while before it stops.
pub mod Terminal
pub mod UserSteps
pub mod Interleaving
pub mod Cancelling
use completed_projects.Common.{
  ℕ, Bool, true, false, ◌||◌, none, some, List, [], ◌∷◌, ◌++◌, ◌≡◌, ◌≢◌, if◌then◌else◌,
}
use completed_projects.Common.CString.{Bytes}
use completed_projects.Chat.Blather.{Mesg}
use completed_projects.Chat.Simpio.{Simpio, Stack, simpio_reset, simpio_get_char, iprintf}
use completed_projects.Chat.Client.{user_mesg, depart_mesg, is_shutdown, show_mesg}

-- Where the user thread stands: at the head of its loop, in the loop that reads a line, returned or
-- cancelled.
pub data UserThread : Type 0 where
  at_top reading user_returned user_stopped : UserThread

pub data ServerThread : Type 0 where
  listening server_returned server_stopped : ServerThread

-- What the threads share: the terminal, the bytes of standard input and the messages of the server
-- that have not been read, what was written to the server, and the requests to cancel.
pub record Threads : Type 0 where
  pub term : Simpio
  pub input : Bytes
  pub arriving : List Mesg
  pub written : List Mesg
  pub user : UserThread
  pub server : ServerThread
  pub cancel_user : Bool
  pub cancel_server : Bool

-- `pthread_create` of both.
abbrev pub both_created : Simpio → Bytes → List Mesg → Threads
both_created s input arriving = record {
  term = s;
  input = input;
  arriving = arriving;
  written = [];
  user = at_top;
  server = listening;
  cancel_user = false;
  cancel_server = false;
}

-- `simpio_get_char` on what is left of the input.
abbrev pub get_char : Threads → Bytes → Threads
get_char t [] = record t { term = simpio_get_char t.term none; input = [] }
get_char t (c ∷ cs) = record t { term = simpio_get_char t.term (some c); input = cs }

module _ (stack : Stack) (username : Bytes) where
  unfoldable pub user_act : Threads → UserThread → Threads
  user_act t at_top =
      if t.term.end_of_input
      then record t {
        written = t.written ++ depart_mesg username ∷ [];
        cancel_server = true;
        user = user_returned;
      }
      else record t { term = iprintf stack (simpio_reset t.term) []; user = reading }
  user_act t reading =
      if t.term.line_ready
      then record t { written = t.written ++ user_mesg username t.term.buf ∷ []; user = at_top }
      else if t.term.end_of_input
      then record t { user = at_top }
      else get_char t t.input
  user_act t _ = t

  -- `read` of a message; with none there, the thread waits.
  unfoldable pub server_act : Threads → List Mesg → Threads
  server_act t [] = t
  server_act t (m ∷ ms) =
      let shown = record t { term = show_mesg stack t.term m; arriving = ms } in
      if is_shutdown m.kind
      then record shown { cancel_user = true; server = server_returned }
      else shown

  pub data Step (t : Threads) : Threads → Type 0 where
    user_runs : Step t (user_act t t.user)
    server_runs : t.server ≡ listening → Step t (server_act t t.arriving)
    user_stops :
        t.cancel_user ≡ true → t.user ≢ user_returned → Step t (record t { user = user_stopped })
    server_stops :
        t.cancel_server ≡ true
        → t.server ≢ server_returned
        → Step t (record t { server = server_stopped })

  pub data Reach (s : Threads) : Threads → Type 0 where
    here : Reach s s
    next : {t u : Threads} → Reach s t → Step t u → Reach s u
