-- ===== src/Shell/Commando/WaitAll.antt =====
-- commando.c and cmdctl.c: `wait-all`, which waits for every job of the table with `waitpid` blocking.
use completed_projects.Common.{
  ◌>>=◌, ℕ, ◌+◌, ◌<◌, pos, true, false, Bool-cases, inl, inr, some, List, [], ◌∷◌, ◌++◌, ◌≡◌, refl,
}
use completed_projects.Common.CString.{Bytes, codes, IsText}
use completed_projects.Shell.Cmd.{
  Nohang, do_block, no_block, Cmd, Answer, cmd_print_output, cmd_update_state,
}
use completed_projects.Shell.Cmd.Output.{
  IsFresh, cmd_update_state-Exited, cmd_update_state_finished,
}
use completed_projects.Shell.Commando.{
  Round, cmdctl_update_state, run_command, end_round, main_tokens,
}
use completed_projects.Shell.Commando.Child.{pauses-false, argument-none}

-- The answer says that the process of a job has exited with a byte as its code, and the pipe can be
-- read and gives text.
abbrev pub Reports : Answer → Cmd → Type 0
Reports a c =
    (a.ret ≡ c.pid) × (a.exited ≡ true) × (a.readable ≡ true) × (a.code < 256) × IsText a.pipe

-- So for every job from number `i` on that has not finished.
abbrev pub AllReport : (ℕ → Answer) → ℕ → List Cmd → Type 0
AllReport wait i [] = Unit {0}
AllReport wait i (c ∷ cs) = (c.finished ≡ false → Reports (wait i) c) × AllReport wait (i + 1) cs

-- What has become of a job: it has finished, with the code and the output that were answered, or is as
-- before if it had finished already.
abbrev pub IsCollected : Answer → Cmd → Cmd → Type 0
IsCollected a c d =
    (d.finished ≡ true)
    × (c.finished ≡ true → d ≡ c)
    × (c.finished ≡ false → (d.status ≡ pos a.code) × (cmd_print_output d ≡ a.pipe))

abbrev pub AllCollected : (ℕ → Answer) → ℕ → List Cmd → List Cmd → Type 0
AllCollected wait i [] [] = Unit {0}
AllCollected wait i [] (d ∷ ds) = ⊥
AllCollected wait i (c ∷ cs) [] = ⊥
AllCollected wait i (c ∷ cs) (d ∷ ds) = IsCollected (wait i) c d × AllCollected wait (i + 1) cs ds

cmd_update_state-IsCollected :
    (fresh : ℕ → Bytes) (a : Answer) (c : Cmd)
    → IsFresh fresh
    → (c.finished ≡ false → Reports a c)
    → (d : Cmd) × (out : Bytes) × (cmd_update_state fresh a c ≡ some (d, out)) × IsCollected a c d
cmd_update_state-IsCollected fresh a c f h = elim (Bool-cases c.finished) [
  | inl e ↦ (c, [], cmd_update_state_finished fresh a c e, (e, (λ k. refl), λ k. cc))
  | inr e ↦
      let (p, x, readable, small, text) = h e in
      let ended = cmd_update_state-Exited fresh a c f e p x readable small text in
      (
        ended.job,
        ended.printed,
        ended.returns,
        (ended.ended, (λ k. cc), λ k. (ended.with_code, ended.output_whole)),
      )
]

cmdctl_update_state-AllCollected :
    (fresh : ℕ → Bytes) (wait : Nohang → ℕ → Answer) (nohang : Nohang) (i : ℕ) (ctl : List Cmd)
    → IsFresh fresh
    → AllReport (wait nohang) i ctl
    → (ctl' : List Cmd) × (out : Bytes) × (cmdctl_update_state fresh wait nohang i ctl
        ≡ some (ctl', out))
      × AllCollected (wait nohang) i ctl ctl'
unfolding cmdctl_update_state
cmdctl_update_state-AllCollected fresh wait nohang i [] f h = ([], [], refl, tt)
cmdctl_update_state-AllCollected fresh wait nohang i (c ∷ cs) f h =
    let (d, out, e, k) = cmd_update_state-IsCollected fresh (wait nohang i) c f h.0 in
    let (ds, more, es, ks) = cmdctl_update_state-AllCollected fresh wait nohang (i + 1) cs f h.1 in
    (d ∷ ds, out ++ more, rw (e, es, ◌>>=◌) refl, (k, ks))

-- A table of finished jobs is asked for no more.
cmdctl_update_state_finished :
    (fresh : ℕ → Bytes) (wait : Nohang → ℕ → Answer) (nohang : Nohang) (known : ℕ → Answer)
    (i j : ℕ) (cs ds : List Cmd)
    → AllCollected known j cs ds
    → cmdctl_update_state fresh wait nohang i ds ≡ some (ds, [])
unfolding cmdctl_update_state
cmdctl_update_state_finished fresh wait nohang known i j [] [] h = refl
cmdctl_update_state_finished fresh wait nohang known i j [] (d ∷ ds) h = elim h [ ]
cmdctl_update_state_finished fresh wait nohang known i j (c ∷ cs) [] h = elim h [ ]
cmdctl_update_state_finished fresh wait nohang known i j (c ∷ cs) (d ∷ ds) h =
    rw
      (
        cmd_update_state_finished fresh (wait nohang i) d h.0.0,
        cmdctl_update_state_finished fresh wait nohang known (i + 1) (j + 1) cs ds h.1,
        ◌>>=◌,
      )
      refl

abbrev pub wait_all : Bytes
wait_all = codes "wait-all"

run_command-wait_all :
    (r : Round) (ctl : List Cmd) (ts : List Bytes)
    → run_command r ctl wait_all ts ≡ cmdctl_update_state r.fresh r.waits do_block 0 ctl
unfolding run_command
run_command-wait_all r ctl ts =
    rw
      (
        pauses-false wait_all ts refl,
        argument-none (codes "output-for") wait_all ts refl,
        argument-none (codes "wait-for") wait_all ts refl,
      )
      refl

-- If the blocking `waitpid` for each job that has not finished reports that it has exited with a byte
-- as its code, and its pipe can be read and holds no NUL, then the round of `wait-all` leaves all jobs
-- finished, each of those with its code and with its output whole, and the others as they were,
-- whatever `waitpid` would answer without blocking.
pub main_tokens-wait_all :
    (r : Round) (ctl : List Cmd) (ts : List Bytes)
    → IsFresh r.fresh
    → AllReport (r.waits do_block) 0 ctl
    → (ctl' : List Cmd) × (out : Bytes) × (main_tokens r ctl (wait_all ∷ ts)
        ≡ some (true, ctl', out))
      × AllCollected (r.waits do_block) 0 ctl ctl'
unfolding main_tokens end_round
main_tokens-wait_all r ctl ts f h =
    let (ctl', out, e, k) = cmdctl_update_state-AllCollected r.fresh r.waits do_block 0 ctl f h in
    let later =
      cmdctl_update_state_finished r.fresh r.later no_block (r.waits do_block) 0 0 ctl ctl' k in
    (ctl', out ++ [], rw (run_command-wait_all r ctl ts, e, ◌>>=◌, later, ◌>>=◌) refl, k)
