-- ===== src/Shell/Commando/Child.antt =====
-- cmd.c and commando.c: a child process whose `execvp` has failed goes on as a second shell.
use completed_projects.Common.{
  ◌>>=◌, ℕ, ◌+◌, ◌<◌, ◌≤◌, pos, minus_one, Bool-cases, inl, inr, true, false, none, some, List, [],
  ◌∷◌, ◌++◌, ◌≡◌, refl, length, eqb_ℤ,
}
use completed_projects.Common.CString.{Bytes, codes, str_eq}
use completed_projects.Shell.Cmd.{
  Nohang, no_block, Cmd, Answer, name_max, max_child, cmd_update_state,
}
use completed_projects.Shell.Commando.{
  Round, argument, pauses, cmdctl_update_state, run_job, run_command, end_round, main_tokens,
}
use completed_projects.Shell.Commando.Jobs.{started, run_job_child}

-- Not one of the names that the shell knows itself.
abbrev pub IsProgram : Bytes → Type 0
IsProgram t =
    (str_eq t (codes "exit") ≡ false)
    × (str_eq t (codes "help") ≡ false)
    × (str_eq t (codes "list") ≡ false)
    × (str_eq t (codes "pause") ≡ false)
    × (str_eq t (codes "output-for") ≡ false)
    × (str_eq t (codes "output-all") ≡ false)
    × (str_eq t (codes "wait-for") ≡ false)
    × (str_eq t (codes "wait-all") ≡ false)

pub pauses-false :
    (t : Bytes) (ts : List Bytes) → str_eq t (codes "pause") ≡ false → pauses (t ∷ ts) ≡ false
pauses-false t [] h = refl
pauses-false t (a ∷ []) h = refl
pauses-false t (a ∷ b ∷ []) h = h
pauses-false t (a ∷ b ∷ c ∷ ts) h = refl

pub argument-none :
    (name t : Bytes) (ts : List Bytes) → str_eq t name ≡ false → argument name (t ∷ ts) ≡ none
argument-none name t [] h = refl
argument-none name t (a ∷ []) h = rw h refl
argument-none name t (a ∷ b ∷ ts) h = refl

pub run_command-run_job :
    (r : Round) (ctl : List Cmd) (t : Bytes) (ts : List Bytes)
    → IsProgram t
    → run_command r ctl t ts ≡ run_job r ctl (t ∷ ts)
unfolding run_command
run_command-run_job r ctl t ts (exit, help, list, pause, for, all, wait, waits) =
    rw
      (
        help,
        list,
        pauses-false t ts pause,
        argument-none (codes "output-for") t ts for,
        all,
        argument-none (codes "wait-for") t ts wait,
        waits,
      )
      refl

cmd_update_state_running :
    (fresh : ℕ → Bytes) (a : Answer) (cmd : Cmd)
    → a.exited ≡ false
    → cmd_update_state fresh a cmd ≡ some (cmd, [])
unfolding cmd_update_state
cmd_update_state_running fresh a cmd h = elim (Bool-cases cmd.finished) [
  | inl e ↦ simp e refl
  | inr e ↦
      simp e
        (elim (Bool-cases (eqb_ℤ a.ret cmd.pid)) [ inl f ↦ rw (f, h) refl | inr f ↦ rw f refl ])
]

cmdctl_update_state_running :
    (fresh : ℕ → Bytes) (wait : Nohang → ℕ → Answer) (nohang : Nohang) (i : ℕ) (ctl : List Cmd)
    → ((j : ℕ) → (wait nohang j).exited ≡ false)
    → cmdctl_update_state fresh wait nohang i ctl ≡ some (ctl, [])
unfolding cmdctl_update_state
cmdctl_update_state_running fresh wait nohang i [] h = refl
cmdctl_update_state_running fresh wait nohang i (c ∷ cs) h =
    rw
      (
        cmd_update_state_running fresh (wait nohang i) c (h i),
        cmdctl_update_state_running fresh wait nohang (i + 1) cs h,
        ◌>>=◌,
      )
      refl

-- In a child process whose `execvp` has failed, the round of the main loop that started it comes to
-- its end as in the parent: the loop goes on, with the new job in the table as running with the number
-- -1, if there is room for it and no job is reported to have exited.
pub main_tokens_child :
    (r : Round) (ctl : List Cmd) (t : Bytes) (ts : List Bytes)
    → IsProgram t
    → length t ≤ name_max
    → length ctl < max_child
    → r.fork ≡ pos 0
    → ((j : ℕ) → (r.later no_block j).exited ≡ false)
    → main_tokens r ctl (t ∷ ts) ≡ some (true, ctl ++ started minus_one t ts ∷ [], [])
unfolding main_tokens end_round
main_tokens_child r ctl t ts h fits room child none_exits =
    rw
      (
        h.0,
        run_command-run_job r ctl t ts h,
        run_job_child r ctl t ts fits room child,
        ◌>>=◌,
        cmdctl_update_state_running r.fresh r.later no_block 0 (ctl ++ started minus_one t ts ∷ [])
            none_exits,
        ◌>>=◌,
      )
      refl
