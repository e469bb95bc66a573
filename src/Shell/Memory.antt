-- ===== src/Shell/Memory.antt =====
-- Unix_Command_Line_Shell: the memory of the shell, as the blocks that cmd.c, cmdctl.c and commando.c
-- allocate and free. What `malloc` gives out comes from outside, as a function of all calls so far;
-- and so does, for a round of the main loop, which jobs are found to have exited, and what `read`
-- returns for them.
pub mod Owned
pub mod Updates
pub mod Sound
pub mod Released
mod Tests
use completed_projects.Common.{
  ◌>>=◌, ℕ, zero, suc, ◌+◌, ℤ, pos, negsuc, Bool, true, false, Option, none, some, List, [], ◌∷◌,
  ◌++◌, map, length, ltb, ◌==◌, if◌then◌else◌,
}
use completed_projects.Common.CString.{Bytes, codes, str_eq}
use completed_projects.Common.Decimal.{atoi}
use completed_projects.Shell.Tokens.{parse_into_tokens}
use completed_projects.Shell.Commando.{pauses, argument}
use completed_projects.Shell.Cmd.{name_max, max_child}

-- A block at an address has been allocated or freed.
pub data Event : Type 0 where
  allocated freed : ℕ → Event

-- What the next call of `malloc` or `strdup` returns.
abbrev pub Heap : Type 0
Heap = List Event → ℕ

-- The blocks of a job: the structure, a copy of each token, and the output once it has finished.
pub record Blocks : Type 0 where
  pub cell : ℕ
  pub argv : List ℕ
  pub finished : Bool
  pub output : Option ℕ

-- What `read` gives for the pipe of a job that has exited: whether the first call succeeds and whether
-- it fills the buffer, and what the calls of the loop return; behind those there is nothing, or a call
-- fails.
pub record Reads : Type 0 where
  pub readable : Bool
  pub fills : Bool
  pub more : List ℕ

-- What a line asks for, with what is found of the jobs during the command and behind it.
pub data Action : Type 0 where
  leaves : Action
  prints : (ℕ → Option Reads) → Action
  updates : (ℕ → Option Reads) → (ℕ → Option Reads) → Action
  starts : List Bytes → (ℕ → Option Reads) → Action
  shows : ℤ → (ℕ → Option Reads) → Action

-- A line of the input, and what is found of the jobs while the shell acts on it.
pub record Line : Type 0 where
  pub text : Bytes
  pub now : ℕ → Option Reads
  pub later : ℕ → Option Reads

-- `wait-for` asks for one job, if the number is one.
abbrev pub only : ℤ → (ℕ → Option Reads) → ℕ → Option Reads
only (pos n) now i = if i == n then now i else none
only (negsuc n) now i = none

-- The `else if` chain of `main`.
unfoldable pub action_of : List Bytes → (ℕ → Option Reads) → (ℕ → Option Reads) → Action
action_of [] now later = prints later
action_of (t ∷ ts) now later =
    if str_eq t (codes "exit")
    then leaves
    else if str_eq t (codes "help")
    then prints later
    else if str_eq t (codes "list")
    then prints later
    else if pauses (t ∷ ts)
    then updates now later
    else elim (argument (codes "output-for") (t ∷ ts)) [
      | some job ↦ shows (atoi job) later
      | none ↦
          if str_eq t (codes "output-all")
          then prints later
          else elim (argument (codes "wait-for") (t ∷ ts)) [
            | some job ↦ updates (only (atoi job) now) later
            | none ↦
                if str_eq t (codes "wait-all") then updates now later else starts (t ∷ ts) later
          ]
    ]

abbrev pub line_action : Line → Action
line_action l = action_of (parse_into_tokens l.text).0 l.now l.later

-- The jobs of the table, those that found no room in it, and the calls so far.
pub record Memory : Type 0 where
  pub jobs : List Blocks
  pub dropped : List Blocks
  pub events : List Event

abbrev pub is_leaving : Action → Bool
is_leaving leaves = true
is_leaving _ = false

abbrev pub addresses : Option ℕ → List ℕ
addresses none = []
addresses (some a) = a ∷ []

-- `cmd_free`, in its order.
unfoldable pub cmd_free_blocks : Blocks → List Event → List Event
cmd_free_blocks b es =
    ((es ++ map freed b.argv) ++ map freed (addresses b.output)) ++ freed b.cell ∷ []

-- `cmdctl_freeall` of a table that stands at `ctl`.
unfoldable pub cmdctl_freeall_blocks : ℕ → List Blocks → List Event → List Event
cmdctl_freeall_blocks ctl [] es = es ++ freed ctl ∷ []
cmdctl_freeall_blocks ctl (b ∷ bs) es = cmdctl_freeall_blocks ctl bs (cmd_free_blocks b es)

module _ (heap : Heap) where
  abbrev pub malloc : List Event → ℕ × List Event
  malloc es = (heap es, es ++ allocated (heap es) ∷ [])

  unfoldable pub strdup_all : List Bytes → List Event → List ℕ × List Event
  strdup_all [] es = ([], es)
  strdup_all (t ∷ ts) es =
      let (a, es) = malloc es in let (as', es) = strdup_all ts es in (a ∷ as', es)

  -- `cmd_new`; `none` is a name that does not fit its array, where `strcpy` writes over `argv`.
  unfoldable pub cmd_new_blocks : List Bytes → List Event → Option (Blocks × List Event)
  cmd_new_blocks [] es = none
  cmd_new_blocks (t ∷ ts) es =
      let (cell, es) = malloc es in
      let (argv, es) = strdup_all (t ∷ ts) es in
      if ltb (length t) (name_max + 1)
      then some (record { cell = cell; argv = argv; finished = false; output = none }, es)
      else none

  -- The loop of `read_all`: in each round a second buffer, which is freed at its end; the first one is
  -- moved by `realloc` if something was read.
  unfoldable pub read_more_blocks : List ℕ → ℕ → List Event → ℕ × List Event
  read_more_blocks (suc n ∷ more) buf es =
      let (temp, es) = malloc es in
      let (grown, es) = malloc (es ++ freed buf ∷ []) in
      read_more_blocks more grown (es ++ freed temp ∷ [])
  read_more_blocks _ buf es = let (temp, es) = malloc es in (buf, es ++ freed temp ∷ [])

  -- `read_all`; `none` is a first call that fails, where the NUL is written in front of the buffer.
  unfoldable pub read_all_blocks : Reads → List Event → Option (ℕ × List Event)
  read_all_blocks r es =
      let (buf, es) = malloc es in
      if r.readable
      then some (if r.fills then read_more_blocks r.more buf es else (buf, es))
      else none

  -- `cmd_update_state`, with `cmd_fetch_output`, for a job that is found to have exited or not.
  unfoldable pub cmd_update_blocks :
      Option Reads → Blocks → List Event → Option (Blocks × List Event)
  cmd_update_blocks none b es = some (b, es)
  cmd_update_blocks (some r) b es = if b.finished then some (b, es) else (do
    (buf, es') ← read_all_blocks r es
    some (record b { finished = true; output = some buf }, es'))

  -- `cmdctl_update_state`, for the jobs from number `i` on.
  unfoldable pub cmdctl_update_blocks :
      (ℕ → Option Reads) → ℕ → List Blocks → List Event → Option (List Blocks × List Event)
  cmdctl_update_blocks exits i [] es = some ([], es)
  cmdctl_update_blocks exits i (b ∷ bs) es = do
    (b', es1) ← cmd_update_blocks (exits i) b es
    (bs', es2) ← cmdctl_update_blocks exits (i + 1) bs es1
    some (b' ∷ bs', es2)

  -- `cmdctl_add(ctl, cmd_new(tokens))`.
  unfoldable pub run_job_blocks : List Bytes → Memory → Option Memory
  run_job_blocks tokens m = do
    (b, es) ← cmd_new_blocks tokens m.events
    some (
        if ltb (length m.jobs) max_child
        then record m { jobs = m.jobs ++ b ∷ []; events = es }
        else record m { dropped = b ∷ m.dropped; events = es })

  unfoldable pub update_blocks : (ℕ → Option Reads) → Memory → Option Memory
  update_blocks exits m = do
    (jobs, es) ← cmdctl_update_blocks exits 0 m.jobs m.events
    some (record m { jobs = jobs; events = es })

  -- `output-for`; `none` is a read of an entry of the table that was never written.
  abbrev pub show_blocks : ℤ → Memory → Option Memory
  show_blocks (pos n) m = if ltb n (length m.jobs) then some m else none
  show_blocks (negsuc n) m = none

  unfoldable pub command_blocks : Action → Memory → Option Memory
  command_blocks (updates now later) m = update_blocks now m
  command_blocks (starts tokens later) m = run_job_blocks tokens m
  command_blocks (shows job later) m = show_blocks job m
  command_blocks (prints later) m = some m
  command_blocks leaves m = some m

  -- The update at the end of a round, which `exit` leaves out.
  unfoldable pub end_blocks : Action → Memory → Option Memory
  end_blocks leaves m = some m
  end_blocks (shows job later) m = update_blocks later m
  end_blocks (prints later) m = update_blocks later m
  end_blocks (updates now later) m = update_blocks later m
  end_blocks (starts tokens later) m = update_blocks later m

  -- A round: the buffer of the line, the command, and the update.
  unfoldable pub round_blocks : Action → Memory → Option Memory
  round_blocks action m = do
    let (buf, es) = malloc m.events
    ran ← command_blocks action (record m { events = es })
    end_blocks action (record ran { events = ran.events ++ freed buf ∷ [] })

  -- The main loop, up to `exit` or the end of the input, where the last buffer is freed too.
  unfoldable pub loop_blocks : List Action → Memory → Option Memory
  loop_blocks [] m =
      let (buf, es) = malloc m.events in some (record m { events = es ++ freed buf ∷ [] })
  loop_blocks (action ∷ actions) m = do
    ran ← round_blocks action m
    if is_leaving action then some ran else loop_blocks actions ran

  -- `main`: what has found no room in the table at the end, and all calls.
  unfoldable pub main_blocks : List Line → Option (List Blocks × List Event)
  main_blocks lines = do
    let (ctl, es) = malloc []
    m ← loop_blocks (map line_action lines) (record { jobs = []; dropped = []; events = es })
    some (m.dropped, cmdctl_freeall_blocks ctl m.jobs m.events)
