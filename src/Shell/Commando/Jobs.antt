-- ===== src/Shell/Commando/Jobs.antt =====
-- commando.c and cmdctl.c: starting jobs, with room in the table and without, and waiting for all.
use completed_projects.Common.{
  ◌+◌, ◌<◌, ◌≤◌, ℤ, minus_one, true, false, none, some, List, [], ◌∷◌, ◌++◌, ◌≡◌, refl, ap, ◌∙◌,
  length, ltb, lt→ltb, le→ltb, arith, ◌>>=◌, eqb_ℤ_ne, ◌≢◌, pos,
}
use completed_projects.Common.CString.{Bytes, codes}
use completed_projects.Shell.Cmd.{Cmd, name_max, max_child, cmd_new, cmd_start}
use completed_projects.Shell.Commando.{Round, cmdctl_add, start_last, run_job}

start_last-append :
    (child : ℤ) (cs : List Cmd) (c : Cmd)
    → start_last child (cs ++ c ∷ []) ≡ cs ++ cmd_start child c ∷ []
unfolding start_last
start_last-append child [] c = refl
start_last-append child (d ∷ []) c = refl
start_last-append child (d ∷ e ∷ cs) c = ap (◌∷◌ d) (start_last-append child (e ∷ cs) c)

-- A job that was just started from its tokens.
abbrev pub started : ℤ → Bytes → List Bytes → Cmd
started child t ts = record {
  name = t;
  argv = t ∷ ts;
  pid = child;
  finished = false;
  status = minus_one;
  str_status = codes "RUN";
  output = none;
  output_size = minus_one;
}

-- In the parent.
cmd_start_parent :
    (child : ℤ) (cmd : Cmd)
    → child ≢ pos 0
    → cmd_start child cmd ≡ record cmd { str_status = codes "RUN"; pid = child }
unfolding cmd_start
cmd_start_parent child cmd h = rw (eqb_ℤ_ne h) refl

-- In a child whose `execvp` has failed.
cmd_start_child : (cmd : Cmd) → cmd_start (pos 0) cmd ≡ record cmd { str_status = codes "RUN" }
unfolding cmd_start
cmd_start_child cmd = refl

-- The job that `cmd_new` makes.
abbrev fresh_job : Bytes → List Bytes → Cmd
fresh_job t ts = record (started minus_one t ts) { str_status = codes "INIT" }

run_job_room :
    (r : Round) (ctl : List Cmd) (t : Bytes) (ts : List Bytes)
    → length t ≤ name_max
    → length ctl < max_child
    → run_job r ctl (t ∷ ts) ≡ some (ctl ++ cmd_start r.fork (fresh_job t ts) ∷ [], [])
unfolding run_job cmd_new cmdctl_add
run_job_room r ctl t ts h room =
    let fits : ltb (length t) (name_max + 1) ≡ true = lt→ltb _ _ (omega arith) in
    rw (fits, lt→ltb (length ctl) max_child room, ◌>>=◌, start_last-append) refl

-- While there is room, a command adds one running job with its arguments behind the others, which
-- stay as they are.
pub run_job-append :
    (r : Round) (ctl : List Cmd) (t : Bytes) (ts : List Bytes)
    → length t ≤ name_max
    → length ctl < max_child
    → r.fork ≢ pos 0
    → run_job r ctl (t ∷ ts) ≡ some (ctl ++ started r.fork t ts ∷ [], [])
run_job-append r ctl t ts h room parent =
    run_job_room r ctl t ts h room
    ∙ ap (λ c. some (ctl ++ c ∷ [], [])) (cmd_start_parent r.fork (fresh_job t ts) parent)

pub run_job_child :
    (r : Round) (ctl : List Cmd) (t : Bytes) (ts : List Bytes)
    → length t ≤ name_max
    → length ctl < max_child
    → r.fork ≡ pos 0
    → run_job r ctl (t ∷ ts) ≡ some (ctl ++ started minus_one t ts ∷ [], [])
run_job_child r ctl t ts h room child =
    run_job_room r ctl t ts h room
    ∙ ap (λ c. some (ctl ++ c ∷ [], []))
        (ap (λ n. cmd_start n (fresh_job t ts)) child ∙ cmd_start_child (fresh_job t ts))

-- With 1024 jobs the new one is dropped, and in its place the last job of the table is started once
-- more, whether it still runs or has finished.
pub run_job_full :
    (r : Round) (ctl : List Cmd) (last : Cmd) (t : Bytes) (ts : List Bytes)
    → length t ≤ name_max
    → length (ctl ++ last ∷ []) ≡ max_child
    → r.fork ≢ pos 0
    → run_job r (ctl ++ last ∷ []) (t ∷ ts)
      ≡ some (ctl ++ record last { str_status = codes "RUN"; pid = r.fork } ∷ [], [])
unfolding run_job cmd_new cmdctl_add
run_job_full r ctl last t ts h full parent =
    let fits : ltb (length t) (name_max + 1) ≡ true = lt→ltb _ _ (omega arith) in
    rw
      (
        fits,
        le→ltb (length (ctl ++ last ∷ [])) max_child (omega arith),
        ◌>>=◌,
        start_last-append,
        cmd_start_parent r.fork last parent,
      )
      refl
