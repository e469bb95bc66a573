-- ===== src/Shell/Memory/Sound.antt =====
-- commando.c and cmdctl.c: what holds of the blocks of the shell as the table is updated and a job is
-- started.
use completed_projects.Common.{
  if◌then◌else◌, ℕ, suc, ◌-◌, min, false, Bool-cases, inl, inr, Option, none, List, [], ◌∷◌, ◌++◌,
  ◌≡◌, sym, ap, subst, ◌∙◌, length, length-append, ltb, append_assoc, arith,
}
use completed_projects.Common.CString.{Bytes}
use completed_projects.Shell.Cmd.{max_child}
use completed_projects.Shell.Commando.Table.{Returns, Returns-bind}
use completed_projects.Shell.Memory.{
  Heap, Blocks, Reads, Action, leaves, prints, updates, starts, shows, Event, is_leaving, Memory,
  run_job_blocks, update_blocks,
}
use completed_projects.Shell.Memory.Owned.{
  Owns, blocks_of, all_blocks, all_blocks-append, AllHaveOutput, AllWork, NameFits,
}
use completed_projects.Shell.Memory.Updates.{cmd_new-Owns, cmdctl_update-Owns, IsMade, AreUpdated}

-- How many commands are started in some rounds.
abbrev pub started_in : List Action → ℕ
started_in [] = 0
started_in (leaves ∷ actions) = 0
started_in (prints later ∷ actions) = started_in actions
started_in (updates now later ∷ actions) = started_in actions
started_in (shows job later ∷ actions) = started_in actions
started_in (starts tokens later ∷ actions) = suc (started_in actions)

-- The first token of each command that is started fits the name of a job, `output-for` is not given an
-- argument, and the first read of the pipe succeeds for each job that has exited.
abbrev pub Fits : Action → Type 0
Fits leaves = Unit {0}
Fits (prints later) = AllWork later
Fits (updates now later) = AllWork now × AllWork later
Fits (shows job later) = ⊥
Fits (starts tokens later) = NameFits tokens × AllWork later

-- So in every round up to `exit`.
abbrev pub AllFit : List Action → Type 0
AllFit [] = Unit {0}
AllFit (action ∷ actions) = Fits action × (if is_leaving action then Unit {0} else AllFit actions)

-- Some blocks are owned, and all those of the jobs; `n` jobs have been started.
pub record Sound (pre : List ℕ) (n : ℕ) (m : Memory) : Type 0 where
  pub owns : Owns m.events (pre ++ (all_blocks m.jobs ++ all_blocks m.dropped))
  pub have : AllHaveOutput m.jobs
  pub in_table : length m.jobs ≡ min n max_child
  pub left_out : length m.dropped ≡ n - max_child

AllHaveOutput-append :
    (bs : List Blocks) (b : Blocks)
    → AllHaveOutput bs
    → (b.finished ≡ false → b.output ≡ none)
    → AllHaveOutput (bs ++ b ∷ [])
AllHaveOutput-append [] b h k = (k, tt)
AllHaveOutput-append (c ∷ bs) b h k = (h.0, AllHaveOutput-append bs b h.1 k)

module _ (heap : Heap) (pre : List ℕ) (n : ℕ) where
  pub update-Sound :
      (exits : ℕ → Option Reads) (m : Memory)
      → AllWork exits
      → Sound pre n m
      → Returns (Sound pre n) (update_blocks heap exits m)
  unfolding update_blocks
  update-Sound exits m k h =
      Returns-bind (AreUpdated heap (length m.jobs) pre (all_blocks m.dropped)) (Sound pre n) _ _
        (cmdctl_update-Owns heap exits 0 m.jobs m.events pre (all_blocks m.dropped) k h.have h.owns)
        (λ r u. record {
          owns = u.0;
          have = u.1;
          in_table = u.2 ∙ h.in_table;
          left_out = h.left_out;
        })

  -- The new job goes into the table or is dropped.
  add-Sound :
      (b : Blocks) (es : List Event) (m : Memory)
      → Sound pre n m
      → Owns es ((pre ++ all_blocks m.jobs) ++ (blocks_of b ++ all_blocks m.dropped))
      → b.output ≡ none
      → Sound pre (suc n) (
          if ltb (length m.jobs) max_child
          then record m { jobs = m.jobs ++ b ∷ []; events = es }
          else record m { dropped = b ∷ m.dropped; events = es })
  add-Sound b es m h front new =
      let jobs = all_blocks m.jobs in
      let lost = all_blocks m.dropped in
      let made : Owns es (pre ++ (jobs ++ (blocks_of b ++ lost))) =
        subst (Owns es) (append_assoc pre jobs (blocks_of b ++ lost)) front in
      elim (Bool-cases (ltb (length m.jobs) max_child)) [
        | inl e ↦
            let grown : jobs ++ (blocks_of b ++ lost) ≡ all_blocks (m.jobs ++ b ∷ []) ++ lost =
              sym (append_assoc jobs (blocks_of b) lost)
              ∙ ap (λ l. l ++ lost) (sym (all_blocks-append m.jobs b)) in
            rw e (record {
              owns = subst (λ l. Owns es (pre ++ l)) grown made;
              have = AllHaveOutput-append m.jobs b h.have (λ k. new);
              in_table = ground (arith, e, length-append m.jobs (b ∷ []), h.in_table);
              left_out = ground (arith, e, h.in_table, h.left_out);
            })
        | inr e ↦ rw e (record {
          owns = made;
          have = h.have;
          in_table = ground (arith, e, h.in_table);
          left_out = ground (arith, e, h.in_table, h.left_out);
        })
      ]

  pub run_job-Sound :
      (tokens : List Bytes) (m : Memory)
      → NameFits tokens
      → Sound pre n m
      → Returns (Sound pre (suc n)) (run_job_blocks heap tokens m)
  unfolding run_job_blocks
  run_job-Sound tokens m k h =
      let jobs = all_blocks m.jobs in
      let lost = all_blocks m.dropped in
      let front : Owns m.events ((pre ++ jobs) ++ lost) =
        subst (Owns m.events) (sym (append_assoc pre jobs lost)) h.owns in
      Returns-bind (IsMade heap (pre ++ jobs) lost) (Sound pre (suc n)) _ _
        (cmd_new-Owns heap tokens m.events (pre ++ jobs) lost k front)
        (λ r made. add-Sound r.0 r.1 m h made.0 made.1)
