-- ===== src/Shell/Commando.antt =====
-- Unix_Command_Line_Shell/cmdctl.c and commando.c: the table of jobs, and the main loop.
pub mod Table
pub mod Jobs
pub mod Rounds
pub mod Child
pub mod Unforked
pub mod WaitAll
use completed_projects.Common.{
  ℕ, zero, suc, ◌+◌, ◌-◌, ℤ, pos, negsuc, Bool, true, false, Option, none, some, List, [], ◌∷◌,
  ◌++◌, get_elem?, length, replicate, set, ltb, ◌==◌, if◌then◌else◌, ◌&&◌, ◌>>=◌,
}
use completed_projects.Common.CString.{Bytes, codes, str_eq}
use completed_projects.Common.Decimal.{decimal, atoi}
use completed_projects.Shell.Tokens.{parse_into_tokens}
use completed_projects.Shell.Cmd.{
  Nohang, do_block, no_block, max_child, Cmd, Answer, int_text, cmd_new, cmd_start,
  cmd_update_state, cmd_print_output, label,
}

-- `%-nd` and `%nd`, of the text of a number.
abbrev pub pad_right : ℕ → Bytes → Bytes
pad_right n s = s ++ replicate (n - length s) b' '

abbrev pub pad_left : ℕ → Bytes → Bytes
pad_left n s = replicate (n - length s) b' ' ++ s

abbrev pub args_text : List Bytes → Bytes
args_text [] = []
args_text (a ∷ as') = a ++ b' ' ∷ args_text as'

abbrev pub job_row : ℕ → Cmd → Bytes
job_row i cmd =
    pad_right 4 (decimal i)
    ++ (codes " #"
        ++ (pad_right 8 (int_text cmd.pid)
            ++ (codes " "
                ++ (pad_left 4 (int_text cmd.status)
                    ++ (codes " "
                        ++ (pad_left 10 cmd.str_status
                            ++ (codes " "
                                ++ (pad_left 4 (int_text cmd.output_size)
                                    ++ (codes " " ++ (args_text cmd.argv ++ codes "\n"))))))))))

abbrev pub job_rows : ℕ → List Cmd → Bytes
job_rows i [] = []
job_rows i (cmd ∷ cmds) = job_row i cmd ++ job_rows (i + 1) cmds

-- What `cmdctl_print` prints. A table is the list of its jobs, as far as `size`.
unfoldable pub cmdctl_print : List Cmd → Bytes
cmdctl_print ctl = codes "JOB  #PID      STAT   STR_STAT OUTB COMMAND\n" ++ job_rows 0 ctl

unfoldable pub cmdctl_add : List Cmd → Cmd → List Cmd
cmdctl_add ctl cmd = if ltb (length ctl) max_child then ctl ++ cmd ∷ [] else ctl

-- `cmdctl_update_state`, with the answers of `waitpid`, by `nohang`, to the jobs from number `i` on.
unfoldable pub cmdctl_update_state :
    (ℕ → Bytes) → (Nohang → ℕ → Answer) → Nohang → ℕ → List Cmd → Option (List Cmd × Bytes)
cmdctl_update_state fresh wait nohang i [] = some ([], [])
cmdctl_update_state fresh wait nohang i (cmd ∷ cmds) = do
  (cmd', out) ← cmd_update_state fresh (wait nohang i) cmd
  (cmds', more) ← cmdctl_update_state fresh wait nohang (i + 1) cmds
  some (cmd' ∷ cmds', out ++ more)

-- `cmd_start(ctl->cmd[ctl->size-1])`.
unfoldable pub start_last : ℤ → List Cmd → List Cmd
start_last child [] = []
start_last child (cmd ∷ []) = cmd_start child cmd ∷ []
start_last child (cmd ∷ next ∷ cmds) = cmd ∷ start_last child (next ∷ cmds)

abbrev pub rule : Bytes
rule = codes "----------------------------------------\n"

-- What `output-for` and `output-all` print for a job.
unfoldable pub output_text : Cmd → Bytes
output_text cmd =
    (codes "@<<< Output for "
      ++ (label cmd ++ (codes " (" ++ (int_text cmd.output_size ++ codes " bytes):\n"))))
    ++ (rule ++ (cmd_print_output cmd ++ rule))

abbrev pub output_all : List Cmd → Bytes
output_all [] = []
output_all (cmd ∷ cmds) = output_text cmd ++ output_all cmds

-- What the system answers during one round of the main loop: `fork`, `waitpid` during the command and
-- behind it, with each `nohang`, and the memory that `read_all` gets.
pub record Round : Type 0 where
  pub fork : ℤ
  pub waits : Nohang → ℕ → Answer
  pub later : Nohang → ℕ → Answer
  pub fresh : ℕ → Bytes

-- The entry of the table at a number; `none` is a read of an entry that was never written.
abbrev pub job_at : List Cmd → ℤ → Option Cmd
job_at ctl (pos n) = get_elem? ctl n
job_at ctl (negsuc n) = none

-- `wait-for`, which tests the number.
unfoldable pub wait_for : Round → List Cmd → ℤ → Option (List Cmd × Bytes)
wait_for r ctl (negsuc n) = some (ctl, [])
wait_for r ctl (pos n) = elim (get_elem? ctl n) [
  | none ↦ some (ctl, [])
  | some cmd ↦ (do
    (cmd', out) ← cmd_update_state r.fresh (r.waits do_block n) cmd
    some (set ctl n cmd', out))
]

-- The last branch: a job is made, added and started.
unfoldable pub run_job : Round → List Cmd → List Bytes → Option (List Cmd × Bytes)
run_job r ctl tokens = do cmd ← cmd_new tokens; some (start_last r.fork (cmdctl_add ctl cmd), [])

abbrev pub help_row : Bytes → Bytes → Bytes
help_row name what = pad_right 18 name ++ (codes " : " ++ (what ++ codes "\n"))

unfoldable pub help_text : Bytes
help_text =
    codes "COMMANDO COMMANDS\n"
    ++ (help_row (codes "help") (codes "show this message")
        ++ (help_row (codes "exit") (codes "exit the program")
            ++ (help_row (codes "list")
                  (codes "list all jobs that have been started giving information on each")
                ++ (help_row (codes "pause nanos secs")
                      (codes "pause for the given number of nanseconds and seconds")
                    ++ (help_row (codes "output-for int")
                          (codes "print the output for given job number")
                        ++ (help_row (codes "output-all") (codes "print output for all jobs")
                            ++ (help_row (codes "wait-for int")
                                  (codes "wait until the given job number finishes")
                                ++ (help_row (codes "wait-all")
                                      (codes "wait for all jobs to finish")
                                    ++ help_row (codes "command arg1 ...")
                                        (codes "non-built-in is run as a job")))))))))

-- The commands with an argument, by their number of tokens.
abbrev pub pauses : List Bytes → Bool
pauses (t ∷ nanos ∷ secs ∷ []) = str_eq t (codes "pause")
pauses _ = false

abbrev pub argument : Bytes → List Bytes → Option Bytes
argument name (t ∷ job ∷ []) = if str_eq t name then some job else none
argument name _ = none

-- The rest of the `else if` chain of `main`, behind `exit`, for a line that has a token.
unfoldable pub run_command : Round → List Cmd → Bytes → List Bytes → Option (List Cmd × Bytes)
run_command r ctl t ts =
    if str_eq t (codes "help")
    then some (ctl, help_text)
    else if str_eq t (codes "list")
    then some (ctl, cmdctl_print ctl)
    else if pauses (t ∷ ts)
    then cmdctl_update_state r.fresh r.waits no_block 0 ctl
    else elim (argument (codes "output-for") (t ∷ ts)) [
      | some job ↦ (do cmd ← job_at ctl (atoi job); some (ctl, output_text cmd))
      | none ↦
          if str_eq t (codes "output-all")
          then some (ctl, output_all ctl)
          else elim (argument (codes "wait-for") (t ∷ ts)) [
            | some job ↦ wait_for r ctl (atoi job)
            | none ↦
                if str_eq t (codes "wait-all")
                then cmdctl_update_state r.fresh r.waits do_block 0 ctl
                else run_job r ctl (t ∷ ts)
          ]
    ]

-- The update at the end of a round.
unfoldable pub end_round : Round → List Cmd × Bytes → Option (List Cmd × Bytes)
end_round r (ctl, out) = do
  (ctl', more) ← cmdctl_update_state r.fresh r.later no_block 0 ctl
  some (ctl', out ++ more)

-- One round of the main loop on a line of input: whether the loop goes on, the table, and what is
-- printed behind the prompt.
unfoldable pub main_tokens : Round → List Cmd → List Bytes → Option (Bool × List Cmd × Bytes)
main_tokens r ctl [] = do (ctl', out) ← end_round r (ctl, []); some (true, ctl', out)
main_tokens r ctl (t ∷ ts) =
    if str_eq t (codes "exit")
    then some (false, ctl, [])
    else (do ran ← run_command r ctl t ts; (ctl', out) ← end_round r ran; some (true, ctl', out))

unfoldable pub main_line : Round → List Cmd → Bytes → Option (Bool × List Cmd × Bytes)
main_line r ctl line = main_tokens r ctl (parse_into_tokens line).0
