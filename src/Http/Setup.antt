-- ===== src/Http/Setup.antt =====
-- C_Server/src/server.c: `main`, from the log files to the end of the accepting loop.
pub mod Serving
pub mod Running
use completed_projects.Common.{
  ltb, ◌>>=◌, ℕ, zero, suc, ◌+◌, ℤ, pos, negsuc, minus_one, eqb_ℤ, is_negative, ◌%◌, ◌-◌, true,
  false, Option, none, some, List, [], ◌∷◌, ◌++◌, if◌then◌else◌,
}
use completed_projects.Common.CString.{Bytes, codes}
use completed_projects.Http.Data.{ConfigData}
use completed_projects.Http.Handler.{populate_config, within}

-- The calls of the system that `main` makes. `log` is a line on standard error.
pub data Call : Type 0 where
  open_file : Bytes → Call
  perror : Bytes → Call
  log : Bytes → Call
  dup : ℤ → Call
  dup2 : ℤ → ℤ → Call
  socket : Call
  bind : ℤ → ℤ → Call
  listen : ℤ → ℤ → Call
  accept : ℤ → Call
  pthread_create : ℤ → Call
  fflush : ℤ → Call
  close : ℤ → Call

-- The calls made so far, each with its answer.
abbrev pub Trace : Type 0
Trace = List (Call × ℤ)

-- What the system answers to a call, with what went before it.
abbrev pub System : Type 0
System = Trace → Call → ℤ

-- The trace with one more call.
unfoldable pub made : System → Call → Trace → Trace
made os c t = t ++ (c, os t c) ∷ []

abbrev pub access_log : Bytes
access_log = codes "logs/access.log"

abbrev pub error_log : Bytes
error_log = codes "logs/error.log"

abbrev pub stdout_fd : ℤ
stdout_fd = pos 1

abbrev pub stderr_fd : ℤ
stderr_fd = pos 2

-- The 16 bits of a port.
abbrev pub uint16 : ℤ → ℤ
uint16 (pos n) = pos (n % 65536)
uint16 (negsuc n) = pos (65535 - n % 65536)

-- The socket, bound to the port of the configuration; failures are only reported.
unfoldable pub open_socket : System → ℤ → Trace → ℤ × Trace
open_socket os port t =
    let s = os t socket in
    let t = made os socket t in
    let t =
      if is_negative s then made os (perror (codes "Could not create socket because ")) t else t in
    let b = os t (bind s (uint16 port)) in
    let t = made os (bind s (uint16 port)) t in
    let t =
      if is_negative b then made os (perror (codes "Could not bind to socket because ")) t else t in
    (s, made os (listen s (pos 12)) t)

-- The body of the accepting loop.
unfoldable pub accept_one : System → ℤ → Trace → Trace
accept_one os s t =
    let new_socket = os t (accept s) in
    let t = made os (accept s) t in
    let t =
      if is_negative new_socket
      then made os (perror (codes "Accept connection")) t
      else made os (log (codes "got a connection\n")) t in
    let r = os t (pthread_create new_socket) in
    let t = made os (pthread_create new_socket) t in
    if eqb_ℤ r (pos 0) then t else made os (perror (codes "Unable to create pthread because ")) t

-- The largest value of an `int`.
abbrev pub int_max : ℕ
int_max = 2147483647

-- The accepting loop, with the limit and the number of connections, an `int`: `none` is a count beyond
-- the largest one, where C promises nothing. With no fuel, `none`.
unfoldable pub serve : System → ℤ → ℤ → ℕ → ℕ → Trace → Option Trace
serve os max s zero n t = none
serve os max s (suc fuel) n t =
    let rest = serve os max s fuel (n + 1) (accept_one os s t) in
    if within n max then if ltb n int_max then rest else none else some t

-- What follows the loop, with the descriptors of the logs, of the console and of the socket.
unfoldable pub restore : System → ℤ → ℤ → ℤ → ℤ → ℤ → Trace → Trace
restore os access error stdout_dup stderr_dup s t =
    let t = made os (fflush stdout_fd) t in
    let t = made os (close access) t in
    let t = made os (fflush stderr_fd) t in
    let t = made os (close error) t in
    let t = made os (dup2 stdout_dup stdout_fd) t in
    let t = made os (dup2 stderr_dup stderr_fd) t in
    let t = made os (close stdout_dup) t in
    let t = made os (close stderr_dup) t in made os (close s) t

-- What `main` does once the output goes to the logs, on the text of the configuration file.
unfoldable pub run_server :
    System → ConfigData → Bytes → ℕ → ℤ → ℤ → ℤ → ℤ → Trace → Option (ℤ × Trace)
run_server os c file fuel access error stdout_dup stderr_dup t = do
  config ← populate_config c file
  let (s, bound) = open_socket os config.port t
  served ← serve os config.max_connections s fuel 0 bound
  some (pos 1, restore os access error stdout_dup stderr_dup s served)

-- `main`: what it returns, and all calls.
unfoldable pub main : System → ConfigData → Bytes → ℕ → Option (ℤ × Trace)
main os c file fuel =
    let access = os [] (open_file access_log) in
    let t = made os (open_file access_log) [] in
    let error = os t (open_file error_log) in
    let t = made os (open_file error_log) t in
    let stdout_dup = os t (dup stdout_fd) in
    let saved = made os (dup stdout_fd) t in
    let stderr_dup = os saved (dup stderr_fd) in
    let saved = made os (dup stderr_fd) saved in
    let out = made os (dup2 access stdout_fd) saved in
    let both = made os (dup2 error stderr_fd) out in
    if eqb_ℤ access minus_one
    then some (pos 0, made os (perror (codes "Unable to open logs/access.log because ")) t)
    else if eqb_ℤ error minus_one
    then some (pos 0, made os (perror (codes "Unable to open logs/error.log because ")) t)
    else if eqb_ℤ (os saved (dup2 access stdout_fd)) minus_one
    then some (pos 0, made os (perror (codes "Unable to redirect stdout because ")) out)
    else if eqb_ℤ (os out (dup2 error stderr_fd)) minus_one
    then some (pos 0, made os (perror (codes "Unable to redirect stderr because ")) both)
    else run_server os c file fuel access error stdout_dup stderr_dup both
