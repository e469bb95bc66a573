-- ===== src/Shell/Cmd.antt =====
-- Unix_Command_Line_Shell/cmd.c: one job of the shell, from its tokens to its output.
pub mod Output
pub mod Zeros
use completed_projects.Common.{
  ◌>>=◌, ℕ, zero, suc, ◌+◌, ◌-◌, ◌*◌, ℤ, pos, negsuc, Bool, true, false, Option, none, some, List,
  [], ◌∷◌, ◌++◌, take, drop, length, set, ltb, ◌==◌, if◌then◌else◌, eqb_ℤ, minus_one,
}
use completed_projects.Common.CString.{Bytes, codes, c_str}
use completed_projects.Common.Decimal.{decimal}

abbrev pub buf_size : ℕ
buf_size = 1024

abbrev pub name_max : ℕ
name_max = 255

abbrev pub max_child : ℕ
max_child = 1024

abbrev pub status_len : ℕ
status_len = 10

-- `cmd_t`, without the pipe; `output` is the buffer, as far as it is allocated.
pub record Cmd : Type 0 where
  pub name : Bytes
  pub argv : List Bytes
  pub pid : ℤ
  pub finished : Bool
  pub status : ℤ
  pub str_status : Bytes
  pub output : Option Bytes
  pub output_size : ℤ

-- `snprintf(s, n, ...)`.
abbrev pub snprintf : ℕ → Bytes → Bytes
snprintf n s = take (n - 1) s

-- `%d`.
abbrev pub int_text : ℤ → Bytes
int_text (pos n) = decimal n
int_text (negsuc n) = b'-' ∷ decimal (suc n)

-- `cmd_new`; `none` is a name that does not fit its array.
unfoldable pub cmd_new : List Bytes → Option Cmd
cmd_new [] = none
cmd_new (t ∷ ts) =
    if ltb (length t) (name_max + 1)
    then some (record {
      name = t;
      argv = t ∷ ts;
      pid = minus_one;
      finished = false;
      status = minus_one;
      str_status = snprintf status_len (codes "INIT");
      output = none;
      output_size = minus_one;
    })
    else none

-- `cmd_start`, with what `fork` returned. In the child, for which that is 0, the function returns only
-- if `execvp` fails, and then the child goes on as its caller does, with the number still unset.
unfoldable pub cmd_start : ℤ → Cmd → Cmd
cmd_start child cmd =
    let running = record cmd { str_status = snprintf status_len (codes "RUN") } in
    if eqb_ℤ child (pos 0) then running else record running { pid = child }

-- `strcat(buf, temp)`, in a buffer that has the room.
abbrev pub append_text : Bytes → Bytes → Bytes
append_text buf temp = let s = c_str buf ++ c_str temp in s ++ 0 ∷ drop (length s + 1) buf

-- The loop of `read_all`, after `n` bytes into a buffer for `size`, on what is left in the pipe;
-- `fresh` is what stands in the bytes that `realloc` adds. With no fuel, `none`.
unfoldable pub read_more : (ℕ → Bytes) → ℕ → ℕ → Bytes → ℕ → Bytes → Option (Bytes × ℕ)
read_more fresh zero size buf n pipe = none
read_more fresh (suc fuel) size buf n [] = some (buf, n)
read_more fresh (suc fuel) size buf n (c ∷ cs) =
    let got = take size (c ∷ cs) in
    let grown = set buf n 0 ++ fresh (size * 2 + 1 - length buf) in
    read_more fresh fuel (size * 2) (append_text grown (got ++ 0 ∷ [])) (n + length got)
      (drop size (c ∷ cs))

-- `read_all` on a pipe whose other end is closed: each `read` gives what there is, up to its limit.
-- If the first `read` fails, which returns -1, the NUL is written in front of the buffer; a later one
-- that fails ends the loop as the end of the pipe does. The results are the buffer and the number of
-- bytes read.
unfoldable pub read_all : (ℕ → Bytes) → Bool → Bytes → Option (Bytes × ℕ)
read_all fresh false pipe = none
read_all fresh true pipe = do
  let first = take buf_size pipe
  let buf = first ++ fresh (buf_size + 1 - length first)
  (all, n) ←
      if ltb (length first) buf_size
      then some (buf, length first)
      else read_more fresh (length pipe + 1) buf_size buf (length first) (drop buf_size pipe)
  some (set all n 0, n)

-- The name and number of a job, as the messages print it.
abbrev pub label : Cmd → Bytes
label cmd = cmd.name ++ (codes "[#" ++ (int_text cmd.pid ++ codes "]"))

-- `cmd_fetch_output`: the job and what is printed.
unfoldable pub cmd_fetch_output : (ℕ → Bytes) → Bool → Bytes → Cmd → Option (Cmd × Bytes)
cmd_fetch_output fresh readable pipe cmd =
    if cmd.finished
    then (do
      (buf, n) ← read_all fresh readable pipe
      some (record cmd { output = some buf; output_size = pos n }, []))
    else some (cmd, label cmd ++ codes " not finished yet\n")

-- What `cmd_print_output` prints.
unfoldable pub cmd_print_output : Cmd → Bytes
cmd_print_output cmd = elim cmd.output [
  | none ↦ label cmd ++ codes " has no output yet\n"
  | some buf ↦ (elim cmd.output_size [ pos n ↦ take n buf | negsuc n ↦ [] ])
]

-- The two values of `nohang`.
pub data Nohang : Type 0 where
  do_block no_block : Nohang

-- What `waitpid` answers for a job, with what the pipe then gives: the number returned, whether the
-- status says that the job has exited, the exit code, whether the first `read` of the pipe succeeds,
-- and the bytes read.
pub record Answer : Type 0 where
  pub ret : ℤ
  pub exited : Bool
  pub code : ℕ
  pub readable : Bool
  pub pipe : Bytes

-- `"EXIT(%d)"`.
abbrev pub exit_text : ℕ → Bytes
exit_text code = codes "EXIT(" ++ (decimal code ++ codes ")")

-- The alert that `cmd_update_state` prints.
abbrev pub exit_message : Cmd → ℕ → Bytes
exit_message cmd code =
    codes "@!!! " ++ (label cmd ++ (codes ": " ++ (exit_text code ++ codes "\n")))

-- The branch of `cmd_update_state` for a job that has exited.
unfoldable pub finish : (ℕ → Bytes) → Answer → Cmd → Option (Cmd × Bytes)
finish fresh a cmd = do
  let cmd' = record cmd {
    finished = true;
    status = pos a.code;
    str_status = snprintf status_len (exit_text a.code);
  }
  (fetched, printed) ← cmd_fetch_output fresh a.readable a.pipe cmd'
  some (fetched, exit_message cmd' a.code ++ printed)

-- `cmd_update_state`, with the answer of `waitpid` for the `nohang` that it is given.
unfoldable pub cmd_update_state : (ℕ → Bytes) → Answer → Cmd → Option (Cmd × Bytes)
cmd_update_state fresh a cmd =
    if cmd.finished
    then some (cmd, [])
    else if eqb_ℤ a.ret cmd.pid
    then if a.exited then finish fresh a cmd else some (cmd, [])
    else some (cmd, [])
