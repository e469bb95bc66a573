-- ===== src/Shell/Commando/Table.antt =====
-- commando.c: what every round of the main loop keeps true of the table of jobs.
use completed_projects.Common.{
  ℕ, zero, suc, ◌+◌, ◌-◌, ◌*◌, ◌<◌, ◌≤◌, ℤ, pos, minus_one, true, false, Bool-cases, inl, inr, ◌⊎◌,
  Option, none, some, List, [], ◌∷◌, ◌++◌, ◌≡◌, refl, ap, take, drop, length, length-append,
  length-drop, ltb, ltb→lt, lt→ltb, arith, ◌>>=◌, eqb_ℤ,
}
use completed_projects.Common.CString.{Bytes, codes}
use completed_projects.Shell.Cmd.{
  Nohang, Cmd, Answer, name_max, max_child, buf_size, read_more, read_all, cmd_new, cmd_start,
  cmd_fetch_output, cmd_update_state, finish,
}
use completed_projects.Shell.Commando.{Round, cmdctl_add, cmdctl_update_state, start_last, run_job}

-- A result is there and has a property.
abbrev pub Returns {ℓ} : {A : Type ℓ} → (A → Type 0) → Option A → Type 0
Returns P none = ⊥
Returns P (some a) = P a

-- A job has no status and no output until it has finished, and both from then on.
abbrev pub IsJob : Cmd → Type 0
IsJob c =
    ((c.finished ≡ false) × (c.status ≡ minus_one) × (c.output ≡ none))
    ⊎ ((c.finished ≡ true)
        × ((n : ℕ) × (c.status ≡ pos n))
        × ((buf : Bytes) × (c.output ≡ some buf)))

abbrev pub AllJobs : List Cmd → Type 0
AllJobs [] = Unit {0}
AllJobs (c ∷ cs) = IsJob c × AllJobs cs

abbrev pub IsTable : List Cmd → Type 0
IsTable ctl = (length ctl ≤ max_child) × AllJobs ctl

-- A table as good as one of a given length.
abbrev pub TableOf : ℕ → List Cmd × Bytes → Type 0
TableOf n (ctl, out) = (length ctl ≡ n) × AllJobs ctl

read_more-Returns :
    (fresh : ℕ → Bytes) (fuel size : ℕ) (buf : Bytes) (n : ℕ) (pipe : Bytes)
    → length pipe < fuel
    → 0 < size
    → Returns (λ r. Unit {0}) (read_more fresh fuel size buf n pipe)
unfolding read_more
read_more-Returns fresh zero size buf n pipe h s = elim h [ ]
read_more-Returns fresh (suc fuel) size buf n [] h s = tt
read_more-Returns fresh (suc fuel) size buf n (c ∷ cs) h s =
    read_more-Returns fresh fuel (size * 2) _ _ (drop size (c ∷ cs))
      (omega (arith, length-drop size (c ∷ cs))) (omega arith)

pub Returns-bind :
    {A B : Type 0} (P : A → Type 0) (Q : B → Type 0) (o : Option A) (f : A → Option B)
    → Returns P o
    → ((a : A) → P a → Returns Q (f a))
    → Returns Q (o >>= f)
Returns-bind P Q none f h k = elim h [ ]
Returns-bind P Q (some a) f h k = k a h

pub read_all-Returns :
    (fresh : ℕ → Bytes) (pipe : Bytes) → Returns (λ r. Unit {0}) (read_all fresh true pipe)
unfolding read_all
read_all-Returns fresh pipe =
    let first = take buf_size pipe in
    elim (Bool-cases (ltb (length first) buf_size)) [
      | inl e ↦ rw (e, ◌>>=◌) tt
      | inr e ↦ rw e (
          Returns-bind (λ r. Unit {0}) (λ r. Unit {0}) _ _
            (read_more-Returns fresh (length pipe + 1) buf_size
              (first ++ fresh (buf_size + 1 - length first)) (length first) (drop buf_size pipe)
              (omega (arith, length-drop buf_size pipe)) (omega arith))
            (λ r h. tt))
    ]

pub Returns-some :
    {A : Type 0} (P : A → Type 0) (o : Option A) → Returns P o → (a : A) × (o ≡ some a)
Returns-some P none h = elim h [ ]
Returns-some P (some a) h = (a, refl)

-- If the job is reported to have exited, its pipe can be read.
abbrev pub Reads : Answer → Type 0
Reads a = a.exited ≡ true → a.readable ≡ true

pub Returns-with :
    {A : Type 0} (P : A → Type 0) (o : Option A) → Returns P o → (a : A) × (o ≡ some a) × P a
Returns-with P none h = elim h [ ]
Returns-with P (some a) h = (a, refl, h)

pub cmd_update_state-Returns :
    (fresh : ℕ → Bytes) (a : Answer) (cmd : Cmd)
    → Reads a
    → IsJob cmd
    → Returns (λ r. IsJob r.0) (cmd_update_state fresh a cmd)
unfolding cmd_update_state finish cmd_fetch_output
cmd_update_state-Returns fresh a cmd reads h = elim (Bool-cases cmd.finished) [
  | inl e ↦ simp e (rw e at h)
  | inr e ↦ simp e (elim (Bool-cases (eqb_ℤ a.ret cmd.pid)) [
    | inr f ↦ rw f h
    | inl f ↦ rw f (elim (Bool-cases a.exited) [
      | inr g ↦ rw g h
      | inl g ↦
          let ((buf, n), read) =
            Returns-some (λ r. Unit {0}) (read_all fresh true a.pipe)
              (read_all-Returns fresh a.pipe) in
          rw (g, reads g, read, ◌>>=◌) (inr (refl, (a.code, refl), (buf, refl)))
    ])
  ])
]

pub cmdctl_update_state-Returns :
    (fresh : ℕ → Bytes) (wait : Nohang → ℕ → Answer) (nohang : Nohang) (i : ℕ) (ctl : List Cmd)
    → ((j : ℕ) → Reads (wait nohang j))
    → AllJobs ctl
    → Returns (TableOf (length ctl)) (cmdctl_update_state fresh wait nohang i ctl)
unfolding cmdctl_update_state
cmdctl_update_state-Returns fresh wait nohang i [] reads h = (refl, tt)
cmdctl_update_state-Returns fresh wait nohang i (c ∷ cs) reads h =
    Returns-bind (λ r. IsJob r.0) (TableOf (suc (length cs))) _ _
      (cmd_update_state-Returns fresh (wait nohang i) c (reads i) h.0)
      (λ first k.
        Returns-bind (TableOf (length cs)) (TableOf (suc (length cs))) _ _
          (cmdctl_update_state-Returns fresh wait nohang (i + 1) cs reads h.1)
          (λ rest l. (ap suc l.0, (k, l.1))))

AllJobs-append : (cs : List Cmd) (c : Cmd) → AllJobs cs → IsJob c → AllJobs (cs ++ c ∷ [])
AllJobs-append [] c h k = (k, tt)
AllJobs-append (d ∷ cs) c h k = (h.0, AllJobs-append cs c h.1 k)

cmd_start-IsJob : (child : ℤ) (c : Cmd) → IsJob c → IsJob (cmd_start child c)
unfolding cmd_start
cmd_start-IsJob child c h = elim (Bool-cases (eqb_ℤ child (pos 0))) [
  | inl e ↦ rw e h
  | inr e ↦ rw e h
]

start_last-AllJobs :
    (child : ℤ) (cs : List Cmd)
    → AllJobs cs
    → AllJobs (start_last child cs) × (length (start_last child cs) ≡ length cs)
unfolding start_last
start_last-AllJobs child [] h = (tt, refl)
start_last-AllJobs child (c ∷ []) h = ((cmd_start-IsJob child c h.0, tt), refl)
start_last-AllJobs child (c ∷ d ∷ cs) h =
    let (all, same) = start_last-AllJobs child (d ∷ cs) h.1 in ((h.0, all), ap suc same)

-- A table within its limit.
abbrev pub Bounded : List Cmd × Bytes → Type 0
Bounded (ctl, out) = IsTable ctl

pub run_job-Returns :
    (r : Round) (ctl : List Cmd) (t : Bytes) (ts : List Bytes)
    → IsTable ctl
    → length t ≤ name_max
    → Returns Bounded (run_job r ctl (t ∷ ts))
unfolding run_job cmd_new cmdctl_add
run_job-Returns r ctl t ts h k =
    rw (lt→ltb (length t) (name_max + 1) (omega arith))
      (elim (Bool-cases (ltb (length ctl) max_child)) [
        | inr e ↦
            let (all, same) = start_last-AllJobs r.fork ctl h.1 in rw (e, ◌>>=◌) (rw same h.0, all)
        | inl e ↦
            let new : Cmd = record {
              name = t;
              argv = t ∷ ts;
              pid = minus_one;
              finished = false;
              status = minus_one;
              str_status = codes "INIT";
              output = none;
              output_size = minus_one;
            } in
            let (all, same) =
              start_last-AllJobs r.fork (ctl ++ new ∷ [])
                (AllJobs-append ctl new h.1 (inl (refl, refl, refl))) in
            rw (e, ◌>>=◌)
              (
                omega (arith, same, length-append ctl (new ∷ []), ltb→lt (length ctl) max_child e),
                all,
              )
      ])
