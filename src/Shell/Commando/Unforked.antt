-- ===== src/Shell/Commando/Unforked.antt =====
-- cmd.c and commando.c: a command for which `fork` fails. The job is started all the same, with the
-- number -1, and `waitpid` is later asked for -1, which means any child; what it leaves in `status`
-- when it fails is what the stack held.
use completed_projects.Common.{
  ◌>>=◌, ℕ, ◌+◌, ◌<◌, ◌≤◌, pos, minus_one, Bool-cases, inl, inr, true, false, some, List, [], ◌∷◌,
  ◌++◌, ◌≡◌, ◌≢◌, refl, sym, ap, ◌∙◌, length, eqb_ℤ_ne, arith,
}
use completed_projects.Common.CString.{Bytes, IsText}
use completed_projects.Shell.Cmd.{
  Nohang, no_block, Cmd, Answer, name_max, max_child, exit_text, cmd_update_state,
}
use completed_projects.Shell.Cmd.Output.{IsFresh, cmd_update_state-Exited}
use completed_projects.Shell.Commando.{Round, cmdctl_update_state, end_round, main_tokens}
use completed_projects.Shell.Commando.Jobs.{started, run_job-append}
use completed_projects.Shell.Commando.Child.{IsProgram, run_command-run_job}

-- Nothing is reported of the jobs from number `i` on.
abbrev pub NoneExits : (Nohang → ℕ → Answer) → Nohang → ℕ → List Cmd → Type 0
NoneExits wait nohang i [] = Unit {0}
NoneExits wait nohang i (c ∷ cs) =
    (c.finished ≡ false → (wait nohang i).ret ≢ c.pid) × NoneExits wait nohang (i + 1) cs

cmd_update_state_other :
    (fresh : ℕ → Bytes) (a : Answer) (cmd : Cmd)
    → (cmd.finished ≡ false → a.ret ≢ cmd.pid)
    → cmd_update_state fresh a cmd ≡ some (cmd, [])
unfolding cmd_update_state
cmd_update_state_other fresh a cmd h = elim (Bool-cases cmd.finished) [
  | inl e ↦ rw e refl
  | inr e ↦ rw (e, eqb_ℤ_ne (h e)) refl
]

cmdctl_update_state-append :
    (fresh : ℕ → Bytes) (wait : Nohang → ℕ → Answer) (nohang : Nohang) (i : ℕ) (cs : List Cmd)
    (c d : Cmd) (out : Bytes)
    → NoneExits wait nohang i cs
    → ((j : ℕ) → j ≡ i + length cs → cmd_update_state fresh (wait nohang j) c ≡ some (d, out))
    → cmdctl_update_state fresh wait nohang i (cs ++ c ∷ []) ≡ some (cs ++ d ∷ [], out ++ [])
unfolding cmdctl_update_state
cmdctl_update_state-append fresh wait nohang i [] c d out h e = rw (e i (omega arith), ◌>>=◌) refl
cmdctl_update_state-append fresh wait nohang i (b ∷ bs) c d out h e =
    rw
      (
        cmd_update_state_other fresh (wait nohang i) b h.0,
        cmdctl_update_state-append fresh wait nohang (i + 1) bs c d out h.1
            (λ j k. e j (omega arith)),
        ◌>>=◌,
      )
      refl

-- What a round does with a command whose `fork` fails, up to the last update.
main_tokens_starts :
    (r : Round) (ctl : List Cmd) (t : Bytes) (ts : List Bytes) (d : Cmd) (out : Bytes)
    → IsProgram t
    → length t ≤ name_max
    → length ctl < max_child
    → r.fork ≡ minus_one
    → NoneExits r.later no_block 0 ctl
    → cmd_update_state r.fresh (r.later no_block (length ctl)) (started minus_one t ts)
      ≡ some (d, out)
    → main_tokens r ctl (t ∷ ts) ≡ some (true, ctl ++ d ∷ [], out ++ [])
unfolding main_tokens end_round
main_tokens_starts r ctl t ts d out p fits room failed none_exits e =
    let parent : r.fork ≢ pos 0 = λ h. cc (sym failed ∙ h) in
    rw
      (
        p.0,
        run_command-run_job r ctl t ts p,
        run_job-append r ctl t ts fits room parent,
        failed,
        ◌>>=◌,
        cmdctl_update_state-append r.fresh r.later no_block 0 ctl (started minus_one t ts) d out
            none_exits
            (λ j k.
              let last : j ≡ length ctl = omega arith in
              ap (λ n. cmd_update_state r.fresh (r.later no_block n) (started minus_one t ts)) last
              ∙ e),
        ◌>>=◌,
      )
      refl

module _ (r : Round) (ctl : List Cmd) (t : Bytes) (ts : List Bytes) where
  -- The answer of `waitpid` to the job without a process.
  abbrev pub its_answer : Answer
  its_answer = r.later no_block (length ctl)

  -- A command whose `fork` fails is not noticed: the job is in the table as running with the number
  -- -1, and stays so as long as `waitpid` finds some child to answer with.
  pub main_tokens_unforked :
      IsProgram t
      → length t ≤ name_max
      → length ctl < max_child
      → r.fork ≡ minus_one
      → NoneExits r.later no_block 0 ctl
      → its_answer.ret ≢ minus_one
      → main_tokens r ctl (t ∷ ts) ≡ some (true, ctl ++ started minus_one t ts ∷ [], [])
  main_tokens_unforked p fits room failed none_exits other =
      main_tokens_starts r ctl t ts (started minus_one t ts) [] p fits room failed none_exits
        (cmd_update_state_other r.fresh its_answer (started minus_one t ts) (λ e. other))

  -- A command whose `fork` fails, with room in the table and nothing to report of the other jobs,
  -- is reported as one that has exited as soon as `waitpid` fails too, for want of children, if
  -- what the stack held reads as an exit and the pipe can be read: its code, a byte, is then the status of the job, which
  -- never ran.
  pub main_tokens_unforked_exits :
      IsFresh r.fresh
      → IsProgram t
      → length t ≤ name_max
      → length ctl < max_child
      → r.fork ≡ minus_one
      → NoneExits r.later no_block 0 ctl
      → its_answer.ret ≡ minus_one
      → its_answer.exited ≡ true
      → its_answer.readable ≡ true
      → its_answer.code < 256
      → IsText its_answer.pipe
      → (job : Cmd) × (out : Bytes) × (main_tokens r ctl (t ∷ ts)
          ≡ some (true, ctl ++ job ∷ [], out))
        × (job.finished ≡ true)
        × (job.status ≡ pos its_answer.code)
        × (job.str_status ≡ exit_text its_answer.code)
  main_tokens_unforked_exits fresh p fits room failed none_exits gone garbage readable small text =
      let x =
        cmd_update_state-Exited r.fresh its_answer (started minus_one t ts) fresh refl gone garbage
          readable small text in
      (
        x.job,
        x.printed ++ [],
        main_tokens_starts r ctl t ts x.job x.printed p fits room failed none_exits x.returns,
        x.ended,
        x.with_code,
        x.shown,
      )
