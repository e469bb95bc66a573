-- ===== src/Shell/Memory/Tests.antt =====
-- A session of the shell, with its blocks, at concrete inputs.
use completed_projects.Common.{
  pos, arith, ℕ, ◌-◌, true, Option, none, some, List, map, [], ◌∷◌, ◌≡◌, refl, length,
}
use completed_projects.Common.CString.{codes}
use completed_projects.Shell.Cmd.{max_child}
use completed_projects.Shell.Memory.{
  Event, Blocks, allocated, freed, Heap, Reads, Line, line_action, action_of, main_blocks,
  strdup_all, cmd_new_blocks, cmd_free_blocks, cmdctl_freeall_blocks, read_all_blocks,
  read_more_blocks, cmd_update_blocks, cmdctl_update_blocks, run_job_blocks, update_blocks,
  command_blocks, end_blocks, round_blocks, loop_blocks,
}
use completed_projects.Common.Decimal.{atoi, strtoul}
use completed_projects.Shell.Tokens.{parse_into_tokens, strtok_all}
use completed_projects.Shell.Memory.Owned.{Owns, all_blocks, AllWork, only-AllWork}
use completed_projects.Shell.Memory.Released.{main_blocks-Owns}
use completed_projects.Shell.Memory.Sound.{AllFit, started_in}

-- A heap that never gives an address twice.
abbrev counting : Heap
counting = length

abbrev running : ℕ → Option Reads
running i = none

abbrev exited : ℕ → Option Reads
exited i = some (record { readable = true; fills = true; more = 9 ∷ [] })

-- `ls -l`, which exits in the next round, and then `exit`.
abbrev session : List Line
session =
    record { text = codes "ls -l\n"; now = running; later = running }
    ∷ record { text = codes "wait-for 0\n"; now = exited; later = running }
    ∷ record { text = codes "exit\n"; now = running; later = running }
    ∷ []

-- The table, a line, the job and its tokens; a line, the output, moved once; a line; and all that is
-- left at the end.
abbrev calls : List Event
calls =
    allocated 0
    ∷ allocated 1
    ∷ allocated 2
    ∷ allocated 3
    ∷ allocated 4
    ∷ freed 1
    ∷ allocated 6
    ∷ allocated 7
    ∷ allocated 8
    ∷ freed 7
    ∷ allocated 10
    ∷ freed 8
    ∷ allocated 12
    ∷ freed 12
    ∷ freed 6
    ∷ allocated 15
    ∷ freed 15
    ∷ freed 3
    ∷ freed 4
    ∷ freed 10
    ∷ freed 2
    ∷ freed 0
    ∷ []

session_events : main_blocks counting session ≡ some ([], calls)
unfolding main_blocks strdup_all cmd_new_blocks cmd_free_blocks cmdctl_freeall_blocks
    read_all_blocks read_more_blocks cmd_update_blocks cmdctl_update_blocks run_job_blocks
    update_blocks command_blocks end_blocks round_blocks loop_blocks action_of atoi strtoul
    parse_into_tokens strtok_all
session_events = refl

running-AllWork : AllWork running
running-AllWork i = tt

exited-AllWork : AllWork exited
exited-AllWork i = refl

session-AllFit : AllFit (map line_action session)
unfolding action_of atoi strtoul parse_into_tokens strtok_all
session-AllFit = (
  ((omega arith, running-AllWork)),
  ((only-AllWork (pos 0) exited exited-AllWork, running-AllWork), (tt, tt)),
)

main_blocks-Owns_example :
    (dropped : List Blocks) × (events : List Event) × (main_blocks counting session
      ≡ some (dropped, events))
    × Owns events (all_blocks dropped)
    × (length dropped ≡ started_in (map line_action session) - max_child)
main_blocks-Owns_example = main_blocks-Owns counting session session-AllFit
