-- ===== src/Shell/Commando/Rounds.antt =====
-- commando.c: a round of the main loop comes to an end, with a table within its limit.
use completed_projects.Common.{
  ℕ, zero, suc, ◌≤◌, ℤ, pos, negsuc, Bool, Bool-cases, Option-cases, inl, inr, some, List, [], ◌∷◌,
  ◌≡◌, subst, length, set, length-set, get_elem?, ◌>>=◌,
}
use completed_projects.Common.CString.{Bytes, codes, str_eq}
use completed_projects.Common.Decimal.{atoi}
use completed_projects.Shell.Tokens.{parse_into_tokens}
use completed_projects.Shell.Cmd.{Nohang, do_block, no_block, Cmd, Answer, name_max}
use completed_projects.Shell.Commando.{
  Round, cmdctl_update_state, job_at, wait_for, run_command, end_round, main_tokens, main_line,
  argument, pauses,
}
use completed_projects.Shell.Commando.Table.{
  Reads, Returns, Returns-bind, IsJob, AllJobs, IsTable, Bounded, cmd_update_state-Returns,
  cmdctl_update_state-Returns, run_job-Returns,
}

get_elem?-IsJob :
    (ctl : List Cmd) (n : ℕ) (c : Cmd) → AllJobs ctl → get_elem? ctl n ≡ some c → IsJob c
get_elem?-IsJob [] n c h e = cc
get_elem?-IsJob (d ∷ ctl) zero c h e = subst (λ x. Returns IsJob x) e h.0
get_elem?-IsJob (d ∷ ctl) (suc n) c h e = get_elem?-IsJob ctl n c h.1 e

set-AllJobs : (ctl : List Cmd) (n : ℕ) (c : Cmd) → AllJobs ctl → IsJob c → AllJobs (set ctl n c)
set-AllJobs [] n c h k = tt
set-AllJobs (d ∷ ctl) zero c h k = (k, h.1)
set-AllJobs (d ∷ ctl) (suc n) c h k = (h.0, set-AllJobs ctl n c h.1 k)

update-Returns :
    (fresh : ℕ → Bytes) (wait : Nohang → ℕ → Answer) (nohang : Nohang) (ctl : List Cmd)
    → ((j : ℕ) → Reads (wait nohang j))
    → IsTable ctl
    → Returns Bounded (cmdctl_update_state fresh wait nohang 0 ctl)
update-Returns fresh wait nohang ctl reads h =
    elim (Option-cases (cmdctl_update_state fresh wait nohang 0 ctl)) [
      | inl e ↦ absurd (rw e at (cmdctl_update_state-Returns fresh wait nohang 0 ctl reads h.1))
      | inr (r, e) ↦
          let (same, all) =
            rw e at (cmdctl_update_state-Returns fresh wait nohang 0 ctl reads h.1) in
          rw e (rw same h.0, all)
    ]

-- No first read of a pipe fails, for any of the jobs that are reported to have exited.
abbrev pub AllRead : Round → Type 0
AllRead r =
    ((nohang : Nohang) (j : ℕ) → Reads (r.waits nohang j))
    × ((nohang : Nohang) (j : ℕ) → Reads (r.later nohang j))

wait_for-Returns :
    (r : Round) (ctl : List Cmd) (job : ℤ)
    → AllRead r
    → IsTable ctl
    → Returns Bounded (wait_for r ctl job)
unfolding wait_for
wait_for-Returns r ctl (negsuc n) reads h = h
wait_for-Returns r ctl (pos n) reads h = elim (Option-cases (get_elem? ctl n)) [
  | inl e ↦ rw (e, wait_for) h
  | inr (c, e) ↦
      rw (e, wait_for)
        (Returns-bind (λ x. IsJob x.0) Bounded _ _
          (cmd_update_state-Returns r.fresh (r.waits do_block n) c (reads.0 do_block n)
            (get_elem?-IsJob ctl n c h.1 e))
          (λ x k. (rw (length-set ctl n x.0) h.0, set-AllJobs ctl n x.0 h.1 k)))
]

-- The first token fits the name of a job, and `output-for` is given the number of a job.
abbrev pub IsSafe : List Cmd → List Bytes → Type 0
IsSafe ctl [] = Unit {0}
IsSafe ctl (t ∷ ts) =
    (length t ≤ name_max)
    × ((job : Bytes)
        → argument (codes "output-for") (t ∷ ts) ≡ some job
        → (c : Cmd) × (job_at ctl (atoi job) ≡ some c))

run_command-Returns :
    (r : Round) (ctl : List Cmd) (t : Bytes) (ts : List Bytes)
    → AllRead r
    → IsTable ctl
    → IsSafe ctl (t ∷ ts)
    → Returns Bounded (run_command r ctl t ts)
unfolding run_command
run_command-Returns r ctl t ts reads h s = elim (Bool-cases (str_eq t (codes "help"))) [
  | inl e ↦ rw e h
  | inr e ↦ rw e (elim (Bool-cases (str_eq t (codes "list"))) [
    | inl e ↦ rw e h
    | inr e ↦ rw e (elim (Bool-cases (pauses (t ∷ ts))) [
      | inl e ↦ rw e (update-Returns r.fresh r.waits no_block ctl (reads.0 no_block) h)
      | inr e ↦ rw e (elim (Option-cases (argument (codes "output-for") (t ∷ ts))) [
        | inr (job, e) ↦ let (c, f) = s.1 job e in rw (e, f, ◌>>=◌) h
        | inl e ↦ rw e (elim (Bool-cases (str_eq t (codes "output-all"))) [
          | inl e ↦ rw e h
          | inr e ↦ rw e (elim (Option-cases (argument (codes "wait-for") (t ∷ ts))) [
            | inr (job, e) ↦ rw e (wait_for-Returns r ctl (atoi job) reads h)
            | inl e ↦ rw e (elim (Bool-cases (str_eq t (codes "wait-all"))) [
              | inl e ↦ rw e (update-Returns r.fresh r.waits do_block ctl (reads.0 do_block) h)
              | inr e ↦ rw e (run_job-Returns r ctl t ts h s.0)
            ])
          ])
        ])
      ])
    ])
  ])
]

end_round-Returns :
    (r : Round) (x : List Cmd × Bytes) → AllRead r → Bounded x → Returns Bounded (end_round r x)
unfolding end_round
end_round-Returns r x reads h =
    Returns-bind Bounded Bounded _ _
      (update-Returns r.fresh r.later no_block x.0 (reads.1 no_block) h) (λ y k. k)

-- What a round leaves: whether the loop goes on, the table and the printed text.
abbrev pub RoundEnd : Bool × List Cmd × Bytes → Type 0
RoundEnd (go, ctl, out) = IsTable ctl

main_tokens-Returns :
    (r : Round) (ctl : List Cmd) (tokens : List Bytes)
    → AllRead r
    → IsTable ctl
    → IsSafe ctl tokens
    → Returns RoundEnd (main_tokens r ctl tokens)
unfolding main_tokens
main_tokens-Returns r ctl [] reads h s =
    Returns-bind Bounded RoundEnd _ _ (end_round-Returns r (ctl, []) reads h) (λ y k. k)
main_tokens-Returns r ctl (t ∷ ts) reads h s = elim (Bool-cases (str_eq t (codes "exit"))) [
  | inl e ↦ rw e h
  | inr e ↦ rw e (
      Returns-bind Bounded RoundEnd _ _ (run_command-Returns r ctl t ts reads h s)
        (λ x k. Returns-bind Bounded RoundEnd _ _ (end_round-Returns r x reads k) (λ y l. l)))
]

-- One round of the main loop always comes to its end, with a table of at most 1024 jobs that have a
-- status and an output exactly if they have finished, whatever `fork` and `waitpid` answer: on any line
-- whose first token fits the name of a job, if `output-for` is given the number of a job, and the first
-- read of the pipe succeeds for each job that is reported to have exited.
pub main_line-Returns :
    (r : Round) (ctl : List Cmd) (line : Bytes)
    → AllRead r
    → IsTable ctl
    → IsSafe ctl (parse_into_tokens line).0
    → Returns RoundEnd (main_line r ctl line)
unfolding main_line
main_line-Returns r ctl line reads h s =
    main_tokens-Returns r ctl (parse_into_tokens line).0 reads h s
