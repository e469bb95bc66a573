-- ===== src/Shell/Memory/Released.antt =====
-- commando.c: what the shell has freed when it ends.
use completed_projects.Common.{
  Option, ap, ◌>>=◌, true, some, ℕ, suc, ◌+◌, ◌-◌, false, Bool-cases, inl, inr, List, [], ◌∷◌, ◌++◌,
  ◌≡◌, refl, subst, map, length, arith,
}
use completed_projects.Shell.Cmd.{max_child}
use completed_projects.Shell.Commando.Table.{Returns, Returns-bind, Returns-with}
use completed_projects.Shell.Memory.{
  allocated, freed, Heap, Blocks, Line, line_action, Action, leaves, prints, updates, starts, shows,
  Event, is_leaving, cmdctl_freeall_blocks, Memory, command_blocks, end_blocks, round_blocks,
  loop_blocks, main_blocks,
}
use completed_projects.Shell.Memory.Owned.{
  Owns, nothing, allocates, frees, all_blocks, cmdctl_freeall-Owns,
}
use completed_projects.Shell.Memory.Sound.{
  started_in, Fits, AllFit, Sound, update-Sound, run_job-Sound,
}

-- A command starts one job or none.
abbrev starting : Action → ℕ → ℕ
starting (starts tokens later) n = suc n
starting _ n = n

module _ (heap : Heap) where
  command-Sound :
      (action : Action) (pre : List ℕ) (n : ℕ) (m : Memory)
      → Fits action
      → Sound pre n m
      → Returns (Sound pre (starting action n)) (command_blocks heap action m)
  unfolding command_blocks
  command-Sound leaves pre n m k h = h
  command-Sound (prints later) pre n m k h = h
  command-Sound (updates now later) pre n m k h = update-Sound heap pre n now m k.0 h
  command-Sound (shows job later) pre n m k h = elim k [ ]
  command-Sound (starts tokens later) pre n m k h = run_job-Sound heap pre n tokens m k.0 h

  end-Sound :
      (action : Action) (pre : List ℕ) (n : ℕ) (m : Memory)
      → Fits action
      → Sound pre n m
      → Returns (Sound pre n) (end_blocks heap action m)
  unfolding end_blocks
  end-Sound leaves pre n m k h = h
  end-Sound (prints later) pre n m k h = update-Sound heap pre n later m k h
  end-Sound (updates now later) pre n m k h = update-Sound heap pre n later m k.1 h
  end-Sound (shows job later) pre n m k h = elim k [ ]
  end-Sound (starts tokens later) pre n m k h = update-Sound heap pre n later m k.1 h

  -- The buffer of a line.
  malloc-Sound :
      (pre : List ℕ) (n : ℕ) (m : Memory)
      → Sound pre n m
      → Sound
          (heap m.events ∷ pre)
          n
          (record m { events = m.events ++ allocated (heap m.events) ∷ [] })
  malloc-Sound pre n m h = record {
    owns = allocates (heap m.events) [] (pre ++ (all_blocks m.jobs ++ all_blocks m.dropped)) h.owns;
    have = h.have;
    in_table = h.in_table;
    left_out = h.left_out;
  }

  free-Sound :
      (buf : ℕ) (pre : List ℕ) (n : ℕ) (m : Memory)
      → Sound (buf ∷ pre) n m
      → Sound pre n (record m { events = m.events ++ freed buf ∷ [] })
  free-Sound buf pre n m h = record {
    owns = frees buf [] (pre ++ (all_blocks m.jobs ++ all_blocks m.dropped)) h.owns;
    have = h.have;
    in_table = h.in_table;
    left_out = h.left_out;
  }

  round-Sound :
      (action : Action) (pre : List ℕ) (n : ℕ) (m : Memory)
      → Fits action
      → Sound pre n m
      → Returns (Sound pre (starting action n)) (round_blocks heap action m)
  unfolding round_blocks
  round-Sound action pre n m k h =
      let buf = heap m.events in
      let now = starting action n in
      Returns-bind (Sound (buf ∷ pre) now) (Sound pre now) _ _
        (command-Sound action (buf ∷ pre) n (record m { events = m.events ++ allocated buf ∷ [] }) k
          (malloc-Sound pre n m h))
        (λ ran r. end-Sound action pre now _ k (free-Sound buf pre now ran r))

  started_in-leaving :
      (action : Action) (actions : List Action) (n : ℕ)
      → is_leaving action ≡ true
      → starting action n ≡ n + started_in (action ∷ actions)
  started_in-leaving leaves actions n h = omega arith
  started_in-leaving (prints later) actions n h = cc
  started_in-leaving (updates now later) actions n h = cc
  started_in-leaving (shows job later) actions n h = cc
  started_in-leaving (starts tokens later) actions n h = cc

  started_in-staying :
      (action : Action) (actions : List Action) (n : ℕ)
      → is_leaving action ≡ false
      → starting action n + started_in actions ≡ n + started_in (action ∷ actions)
  started_in-staying leaves actions n h = cc
  started_in-staying (prints later) actions n h = refl
  started_in-staying (updates now later) actions n h = refl
  started_in-staying (shows job later) actions n h = refl
  started_in-staying (starts tokens later) actions n h = omega arith

  loop-Sound :
      (actions : List Action) (pre : List ℕ) (n : ℕ) (m : Memory)
      → AllFit actions
      → Sound pre n m
      → Returns (Sound pre (n + started_in actions)) (loop_blocks heap actions m)
  unfolding loop_blocks
  loop-Sound [] pre n m k h =
      let same : n ≡ n + 0 = omega arith in
      subst (λ k. Returns (Sound pre k) (loop_blocks heap [] m)) same
        (free-Sound (heap m.events) pre n _ (malloc-Sound pre n m h))
  loop-Sound (action ∷ actions) pre n m k h =
      let all = n + started_in (action ∷ actions) in
      Returns-bind (Sound pre (starting action n)) (Sound pre all) _ _
        (round-Sound action pre n m k.0 h)
        (λ ran r. elim (Bool-cases (is_leaving action)) [
          | inl e ↦ rw e (subst (λ j. Sound pre j ran) (started_in-leaving action actions n e) r)
          | inr e ↦
              let rest = loop-Sound actions pre (starting action n) ran (rw e at k.1) r in
              rw e (
                subst (λ j. Returns (Sound pre j) (loop_blocks heap actions ran))
                  (started_in-staying action actions n e) rest)
        ])

  -- If the first token of each command that is started fits the name of a job, no line is `output-for`
  -- with an argument, and the first read of the pipe succeeds for each job that has exited: the session
  -- comes to its end, and the shell frees nothing but blocks that it has at that moment, so none twice;
  -- at its end it has freed all of them but those of the jobs that found no room in the table, which
  -- are as many as commands were started beyond 1024.
  pub main_blocks-Owns :
      (lines : List Line)
      → AllFit (map line_action lines)
      → (dropped : List Blocks) × (events : List Event) × (main_blocks heap lines
          ≡ some (dropped, events))
        × Owns events (all_blocks dropped)
        × (length dropped ≡ started_in (map line_action lines) - max_child)
  unfolding main_blocks
  main_blocks-Owns lines k =
      let actions = map line_action lines in
      let ctl = heap [] in
      let begun : Memory = record { jobs = []; dropped = []; events = [] ++ allocated ctl ∷ [] } in
      let (m, e, ends) =
        Returns-with (Sound (ctl ∷ []) (0 + started_in actions)) (loop_blocks heap actions begun) (
          loop-Sound actions (ctl ∷ []) 0 begun k (record {
            owns = allocates ctl [] [] nothing;
            have = tt;
            in_table = omega arith;
            left_out = omega arith;
          })) in
      (
        m.dropped,
        cmdctl_freeall_blocks ctl m.jobs m.events,
        ap
            (λ (o : Option Memory).
              o >>= λ last. some (last.dropped, cmdctl_freeall_blocks ctl last.jobs last.events))
            e,
        cmdctl_freeall-Owns ctl m.jobs m.events (all_blocks m.dropped) ends.owns,
        omega (arith, ends.left_out),
      )
