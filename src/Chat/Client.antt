-- ===== src/Chat/Client.antt =====
-- Unix_Chat_Service/bl-client.c: the two threads of the chat client, each by itself, and the request
-- to join. The user thread reads the bytes of standard input; behind the last one `fgetc` gives EOF.
pub mod Conversation
pub mod Notices
pub mod Request
pub mod Joining
pub mod Process
pub mod Threads
mod Tests
use completed_projects.Common.{
  ℕ, zero, suc, ◌+◌, Bool, true, false, not, ◌||◌, Option, none, some, List, [], ◌∷◌, ◌++◌,
  if◌then◌else◌,
}
use completed_projects.Common.CString.{Bytes, c_str, codes, strncpy}
use completed_projects.Chat.Blather.{
  max_line, max_name, Mesg, MesgKind, bl_mesg, bl_joined, bl_departed, bl_shutdown, zero_mesg,
}
use completed_projects.Chat.Simpio.{Simpio, simpio_reset, simpio_get_char, Stack, iprintf}

-- `while (!line_ready && !end_of_input) simpio_get_char(simpio)`, entered with both flags down; with
-- what is left of the input.
unfoldable pub read_line : Simpio → Bytes → Simpio × Bytes
read_line s [] = (simpio_get_char s none, [])
read_line s (c ∷ cs) =
    let s' = simpio_get_char s (some c) in
    let rest = read_line s' cs in if s'.line_ready || s'.end_of_input then (s', cs) else rest

-- The message for a line in the buffer.
unfoldable pub user_mesg : Bytes → Bytes → Mesg
user_mesg username buf = record {
  kind = bl_mesg;
  name = strncpy max_name zero_mesg.name username;
  body = strncpy max_line zero_mesg.body buf;
}

unfoldable pub depart_mesg : Bytes → Mesg
depart_mesg username = record {
  kind = bl_departed;
  name = strncpy max_name zero_mesg.name username;
  body = zero_mesg.body;
}

-- What the thread has written to the server when it ends, and the editor's last state.
pub data Session : Type 0 where
  left : List Mesg → Simpio → Session
  unfinished : Session

abbrev pub wrote : Mesg → Session → Session
wrote m (left ms s) = left (m ∷ ms) s
wrote m unfinished = unfinished

abbrev pub user_line : Bytes → Simpio → Session → Session
user_line username s rest = if s.line_ready then wrote (user_mesg username s.buf) rest else rest

unfoldable pub user_to_server : Stack → ℕ → Bytes → Simpio → Bytes → Session
user_to_server stack zero username s input = unfinished
user_to_server stack (suc fuel) username s input =
    let (s', rest) = read_line (iprintf stack (simpio_reset s) []) input in
    let next = user_to_server stack fuel username s' rest in
    if s.end_of_input then left (depart_mesg username ∷ []) s else user_line username s' next

-- The text that `server_to_user` prints for a message; `none` is a message that it passes over. A name
-- with no NUL in its array goes on into the body.
unfoldable pub notice : Mesg → MesgKind → Option Bytes
notice m bl_mesg =
    some (codes "[" ++ (c_str (m.name ++ m.body) ++ (codes "] : " ++ (c_str m.body ++ codes "\n"))))
notice m bl_joined = some (codes "-- " ++ (c_str (m.name ++ m.body) ++ codes " JOINED --\n"))
notice m bl_departed = some (codes "-- " ++ (c_str (m.name ++ m.body) ++ codes " DEPARTED --\n"))
notice m bl_shutdown = some (codes "!!! server is shutting down !!!\n")
notice m _ = none

abbrev pub is_shutdown : MesgKind → Bool
is_shutdown bl_shutdown = true
is_shutdown _ = false

abbrev pub show_notice : Stack → Simpio → Option Bytes → Simpio
show_notice stack s none = s
show_notice stack s (some text) = iprintf stack s text

-- What the server thread does for one message: the new line is behind the last.
unfoldable pub show_mesg : Stack → Simpio → Mesg → Simpio
show_mesg stack s m =
    let shown = show_notice stack s (notice m m.kind) in
    if is_shutdown m.kind then record shown { out = shown.out ++ codes "\n" } else shown

-- The server thread over the messages that arrive: the terminal, and whether it has ended.
unfoldable pub server_to_user : Stack → Simpio → List Mesg → Simpio × Bool
server_to_user stack s [] = (s, false)
server_to_user stack s (m ∷ ms) =
    let shown = show_mesg stack s m in
    let rest = server_to_user stack shown ms in if is_shutdown m.kind then (shown, true) else rest
